-- ===== src/Mux/Serial/Agree.antt =====
-- The two comparisons of device identifiers, of src/raw_usbmux.rs and of src/main.rs.
use i_usb_bridge.Prelude.{
  ℕ, ◌≡◌, refl, ap, ap₂, ◌∙◌, true, false, not, ◌&&◌, ◌||◌, [], ◌∷◌, ◌++◌, map, arith, ◌==◌, keep,
  All, Bool-cases, inl, inr, length, length-append, length-map, ◌≢◌,
}
use i_usb_bridge.Prelude.Text.{text_eq_refl, Text, text_eq, ascii_lower}
use i_usb_bridge.Mux.Serial.{
  ascii_upper, is_ascii_hexdigit, serial_matches, same_udid, eq_ignore_ascii_case,
}

-- A hexadecimal digit or a dash, as in a device identifier.
abbrev pub IsUdid : Text → Type 0
IsUdid = All (λ c. (is_ascii_hexdigit c || (c == b'-')) ≡ true)

fold_case : (a b : ℕ) → (ascii_upper a == ascii_upper b) ≡ (ascii_lower a == ascii_lower b)
unfolding ascii_upper ascii_lower
fold_case a b = ground arith

text_eq-fold_case :
    (xs ys : Text)
    → text_eq (map ascii_upper xs) (map ascii_upper ys)
      ≡ text_eq (map ascii_lower xs) (map ascii_lower ys)
text_eq-fold_case [] [] = refl
text_eq-fold_case [] (y ∷ ys) = refl
text_eq-fold_case (x ∷ xs) [] = refl
text_eq-fold_case (x ∷ xs) (y ∷ ys) = ap₂ ◌&&◌ (fold_case x y) (text_eq-fold_case xs ys)

dash_or_hex :
    (c : ℕ) → (is_ascii_hexdigit c || (c == b'-')) ≡ true → not (c == b'-') ≡ is_ascii_hexdigit c
unfolding is_ascii_hexdigit
dash_or_hex c h = ground arith

keep-dash : (xs : Text) → IsUdid xs → keep (λ c. not (c == b'-')) xs ≡ keep is_ascii_hexdigit xs
keep-dash [] h = refl
keep-dash (x ∷ xs) h =
    ap₂ (λ b rest. elim b as (λ _. Text) [ true ↦ x ∷ rest | false ↦ rest ]) (dash_or_hex x h.0)
      (keep-dash xs h.1)

-- On identifiers of hexadecimal digits and dashes `serial_matches`, which chooses the USB device,
-- and `same_udid`, which compares identifiers elsewhere, give the same answer.
pub serial_matches-same_udid :
    (left right : Text)
    → IsUdid left
    → IsUdid right
    → serial_matches left right ≡ same_udid left right
unfolding serial_matches same_udid
serial_matches-same_udid left right h k =
    ap₂ (λ xs ys. text_eq (map ascii_upper xs) (map ascii_upper ys)) (keep-dash left h)
      (keep-dash right k)
    ∙ text_eq-fold_case (keep is_ascii_hexdigit left) (keep is_ascii_hexdigit right)

keep-dash_out :
    (front back : Text)
    → keep is_ascii_hexdigit (front ++ b'-' ∷ back) ≡ keep is_ascii_hexdigit (front ++ back)
unfolding is_ascii_hexdigit
keep-dash_out [] back = refl
keep-dash_out (x ∷ front) back =
    ap (λ rest. elim (is_ascii_hexdigit x) as (λ _. Text) [ true ↦ x ∷ rest | false ↦ rest ])
      (keep-dash_out front back)

-- Texts of different lengths differ.
text_eq-length : (xs ys : Text) → text_eq xs ys ≡ true → length xs ≡ length ys
text_eq-length [] [] h = refl
text_eq-length [] (y ∷ ys) h = absurd (cc)
text_eq-length (x ∷ xs) [] h = absurd (cc)
text_eq-length (x ∷ xs) (y ∷ ys) h = ground (arith, text_eq-length xs ys)

text_eq_ne : (xs ys : Text) → length xs ≢ length ys → text_eq xs ys ≡ false
text_eq_ne xs ys h = elim (Bool-cases (text_eq xs ys)) [
  | inl e ↦ absurd (h (text_eq-length xs ys e))
  | inr e ↦ e
]

-- A dash more or less is no difference to `same_udid`, but it is one to `eq_ignore_ascii_case`, by
-- which `reconnect_direct_session` compares the device that it finds with the one it had.
pub same_udid-dash :
    (front back : Text)
    → (same_udid (front ++ b'-' ∷ back) (front ++ back) ≡ true)
      × (eq_ignore_ascii_case (front ++ b'-' ∷ back) (front ++ back) ≡ false)
unfolding same_udid eq_ignore_ascii_case
same_udid-dash front back = (
  ap (λ xs. text_eq (map ascii_lower xs) (map ascii_lower (keep is_ascii_hexdigit (front ++ back))))
        (keep-dash_out front back)
      ∙ text_eq_refl (map ascii_lower (keep is_ascii_hexdigit (front ++ back))),
  text_eq_ne (map ascii_lower (front ++ b'-' ∷ back)) (map ascii_lower (front ++ back)) (λ e.
      absurd (
        omega (
          arith,
          e,
          length-map (front ++ b'-' ∷ back) ascii_lower,
          length-map (front ++ back) ascii_lower,
          length-append front (b'-' ∷ back),
          length-append front back,
        ))),
)
