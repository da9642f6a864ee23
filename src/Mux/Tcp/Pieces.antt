-- ===== src/Mux/Tcp/Pieces.antt =====
-- A stream cut once and for all into pieces, by the offset at which each piece starts.
use i_usb_bridge.Prelude.{
  ℕ, zero, suc, ◌+◌, ◌-◌, ◌≤◌, ◌<◌, ◌≡◌, ◌⊎◌, refl, ap, ◌∙◌, inl, inr, Option, none, some, List, [],
  ◌∷◌, ◌++◌, arith, ltb, ◌==◌, if◌then◌else◌, length, drop, All, Bool-cases, length-append,
}
use i_usb_bridge.Prelude.Bytes.{Bytes}

abbrev pub joined : List Bytes → Bytes
joined [] = []
joined (p ∷ ps) = p ++ joined ps

abbrev pub NonEmpty : Bytes → Type 0
NonEmpty p = 0 < length p

unfoldable pub piece_at : List Bytes → ℕ → Option Bytes
piece_at [] off = none
piece_at (p ∷ ps) off =
    let later = piece_at ps (off - length p) in
    if off == 0 then some p else if ltb off (length p) then none else later

-- A piece lies inside the stream.
pub piece_at-within :
    (ps : List Bytes) (off : ℕ) (p : Bytes)
    → piece_at ps off ≡ some p
    → off + length p ≤ length (joined ps)
unfolding piece_at
piece_at-within [] off p h = absurd (cc)
piece_at-within (q ∷ ps) off p h =
    ground (arith, piece_at-within ps (off - length q) p, length-append q (joined ps))

pub piece_at-NonEmpty :
    (ps : List Bytes) (off : ℕ) (p : Bytes)
    → All NonEmpty ps
    → piece_at ps off ≡ some p
    → 0 < length p
unfolding piece_at
piece_at-NonEmpty [] off p a h = absurd (cc)
piece_at-NonEmpty (q ∷ ps) off p a h = ground (arith, piece_at-NonEmpty ps (off - length q) p a.1)

-- No piece starts inside another.
pub piece_at-apart :
    (ps : List Bytes) (m n : ℕ) (p q : Bytes)
    → All NonEmpty ps
    → piece_at ps m ≡ some p
    → piece_at ps n ≡ some q
    → m < n + length q
    → m ≤ n
unfolding piece_at
piece_at-apart [] m n p q a h k l = absurd (cc)
piece_at-apart (r ∷ ps) m n p q a h k l =
    ground (arith, piece_at-apart ps (m - length r) (n - length r) p q a.1)

-- Where a piece ends another starts, or the stream ends.
abbrev pub IsBoundary : List Bytes → ℕ → Type 0
IsBoundary ps n = (n ≡ length (joined ps)) ⊎ ((q : Bytes) × (piece_at ps n ≡ some q))

pub IsBoundary-zero : (ps : List Bytes) → IsBoundary ps 0
unfolding piece_at
IsBoundary-zero [] = inl refl
IsBoundary-zero (p ∷ ps) = inr (p, refl)

piece_at-shift :
    (r : Bytes) (ps : List Bytes) (m : ℕ)
    → NonEmpty r
    → piece_at (r ∷ ps) (length r + m) ≡ piece_at ps m
unfolding piece_at
piece_at-shift r ps m h = let e : length r + m - length r ≡ m = omega arith in rw e (ground arith)

IsBoundary-shift :
    (r : Bytes) (ps : List Bytes) (m : ℕ)
    → NonEmpty r
    → IsBoundary ps m
    → IsBoundary (r ∷ ps) (length r + m)
IsBoundary-shift r ps m h (inl e) = inl (omega (arith, length-append r (joined ps)))
IsBoundary-shift r ps m h (inr (q, e)) = inr (q, piece_at-shift r ps m h ∙ e)

-- The second and later pieces.
piece_at-cons :
    (r : Bytes) (ps : List Bytes) (n : ℕ) (q : Bytes)
    → piece_at (r ∷ ps) n ≡ some q
    → ((n ≡ 0) × (q ≡ r)) ⊎ ((length r ≤ n) × (piece_at ps (n - length r) ≡ some q))
unfolding piece_at
piece_at-cons r ps n q h = elim (Bool-cases (n == 0)) [
  | inl e ↦ inl (ground arith)
  | inr e ↦ inr (ground arith)
]

pub IsBoundary-next :
    (ps : List Bytes) (n : ℕ) (q : Bytes)
    → All NonEmpty ps
    → piece_at ps n ≡ some q
    → IsBoundary ps (n + length q)
unfolding piece_at
IsBoundary-next [] n q a h = absurd (cc)
IsBoundary-next (r ∷ ps) n q a h = elim (piece_at-cons r ps n q h) [
  | inl (e, f) ↦
      let at : n + length q ≡ length r + 0 = omega (arith, ap length f) in
      rw at (IsBoundary-shift r ps 0 a.0 (IsBoundary-zero ps))
  | inr (l, e) ↦
      let at : n + length q ≡ length r + (n - length r + length q) = omega arith in
      rw at (IsBoundary-shift r ps _ a.0 (IsBoundary-next ps (n - length r) q a.1 e))
]

drop-past : (n : ℕ) (xs ys : Bytes) → length xs ≤ n → drop n (xs ++ ys) ≡ drop (n - length xs) ys
drop-past n [] ys h = ap (λ k. drop k ys) (omega arith)
drop-past zero (x ∷ xs) ys h = absurd (omega arith)
drop-past (suc n) (x ∷ xs) ys h =
    drop-past n xs ys (omega arith) ∙ ap (λ k. drop k ys) (omega arith)

-- A piece is the part of the stream at its offset.
pub piece_at-drop :
    (ps : List Bytes) (n : ℕ) (q : Bytes)
    → piece_at ps n ≡ some q
    → (rest : Bytes) × (drop n (joined ps) ≡ q ++ rest)
unfolding piece_at
piece_at-drop [] n q h = absurd (cc)
piece_at-drop (r ∷ ps) n q h = elim (piece_at-cons r ps n q h) [
  | inl (e, f) ↦ (joined ps, rw (e, f))
  | inr (l, e) ↦
      let (rest, f) = piece_at-drop ps (n - length r) q e in (rest, drop-past n r (joined ps) l ∙ f)
]
