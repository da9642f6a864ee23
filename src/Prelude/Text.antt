-- ===== src/Prelude/Text.antt =====
-- Text as the list of its code points.
use Prim.Native.Nat.{ℕ, ◌+◌}
use Prim.Native.Char.{code}
use Prim.Native.String.{String}
use mathlib.Core.Path.{◌≡◌, refl, ap₂}
use native.Mathlib.Omega.{arith}
use mathlib.Core.Bool.{Bool, true, false, ◌&&◌, ◌||◌}
use mathlib.Core.List.{List, [], ◌∷◌, map}
use i_usb_bridge.Prelude.Tests.{leb, ◌==◌, if◌then◌else◌}

abbrev pub Text : Type 0
Text = List ℕ

abbrev pub text : String → Text
text String.[] = []
text (String.◌∷◌ letter later) = code letter ∷ text later

abbrev pub text_eq : Text → Text → Bool
text_eq [] [] = true
text_eq [] (y ∷ ys) = false
text_eq (x ∷ xs) [] = false
text_eq (x ∷ xs) (y ∷ ys) = (x == y) && text_eq xs ys

abbrev pub starts_with : Text → Text → Bool
starts_with [] ys = true
starts_with (x ∷ xs) [] = false
starts_with (x ∷ xs) (y ∷ ys) = (x == y) && starts_with xs ys

-- `haystack.contains(needle)`, the needle first.
unfoldable pub contains : Text → Text → Bool
contains n [] = starts_with n []
contains n (c ∷ cs) = starts_with n (c ∷ cs) || contains n cs

unfoldable pub ascii_lower : ℕ → ℕ
ascii_lower c = if leb b'A' c && leb c b'Z' then c + 32 else c

unfoldable pub to_ascii_lowercase : Text → Text
unfolding ascii_lower
to_ascii_lowercase t = map ascii_lower t

pub text_eq→≡ : (xs ys : Text) → text_eq xs ys ≡ true → xs ≡ ys
text_eq→≡ [] [] h = refl
text_eq→≡ [] (y ∷ ys) h = absurd (cc)
text_eq→≡ (x ∷ xs) [] h = absurd (cc)
text_eq→≡ (x ∷ xs) (y ∷ ys) h = ap₂ (λ z zs. z ∷ zs) (ground arith) (text_eq→≡ xs ys (ground arith))

pub text_eq_refl : (xs : Text) → text_eq xs xs ≡ true
text_eq_refl [] = refl
text_eq_refl (x ∷ xs) = ground (arith, text_eq_refl xs)

pub text_ne : (xs ys : Text) → text_eq xs ys ≡ false → xs ≡ ys → ⊥
text_ne xs ys h e = absurd (cc (text_eq_refl ys, rw e at h))
