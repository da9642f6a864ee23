-- ===== src/Mux/Serial.antt =====
-- `serial_matches` of src/raw_usbmux.rs and `same_udid` of src/main.rs.
pub mod Agree
use i_usb_bridge.Prelude.{
  ℕ, ◌-◌, ◌≡◌, refl, ap, ◌∙◌, sym, Bool, true, false, not, ◌&&◌, ◌||◌, List, [], ◌∷◌, map, arith,
  leb, ◌==◌, if◌then◌else◌, keep, All, Bool-cases, inl, inr, ==_iff,
}
use i_usb_bridge.Prelude.Text.{Text, text, text_eq, ascii_lower}

unfoldable pub ascii_upper : ℕ → ℕ
ascii_upper c = if leb b'a' c && leb c b'z' then c - 32 else c

unfoldable pub is_ascii_hexdigit : ℕ → Bool
is_ascii_hexdigit c =
    (leb b'0' c && leb c b'9') || (leb b'a' c && leb c b'f') || (leb b'A' c && leb c b'F')

unfoldable pub serial_matches : Text → Text → Bool
unfolding ascii_upper
serial_matches left right =
    text_eq (map ascii_upper (keep (λ c. not (c == b'-')) left))
      (map ascii_upper (keep (λ c. not (c == b'-')) right))

-- On the hexadecimal digits that pass the filter `char::to_lowercase` is the ASCII one.
unfoldable pub same_udid : Text → Text → Bool
unfolding is_ascii_hexdigit ascii_lower
same_udid left right =
    text_eq (map ascii_lower (keep is_ascii_hexdigit left))
      (map ascii_lower (keep is_ascii_hexdigit right))

-- `eq_ignore_ascii_case`
unfoldable pub eq_ignore_ascii_case : Text → Text → Bool
unfolding ascii_lower
eq_ignore_ascii_case left right = text_eq (map ascii_lower left) (map ascii_lower right)
