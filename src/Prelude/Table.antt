-- ===== src/Prelude/Table.antt =====
-- Hash maps with numeric keys as association lists, and hash sets as lists.
use Prim.Native.Nat.{ℕ, ◌≤◌, ◌<◌}
use mathlib.Core.Path.{◌≡◌, refl}
use mathlib.Core.Logic.{inl, inr}
use mathlib.Core.Option.{Option, none, some}
use mathlib.Core.List.{List, [], ◌∷◌}
use native.Mathlib.Omega.{arith}
use i_usb_bridge.Prelude.Tests.{◌==◌, if◌then◌else◌, ==_iff, Bool-cases}
use i_usb_bridge.Prelude.Lists.{length, All}

abbrev pub Table : Type 0 → Type 0
Table V = List (ℕ × V)

module _ {V : Type 0} where
  unfoldable pub lookup : ℕ → Table V → Option V
  lookup key [] = none
  lookup key ((other, found) ∷ later) = if other == key then some found else lookup key later

  -- Every entry of the key goes.
  unfoldable pub remove : ℕ → Table V → Table V
  remove key [] = []
  remove key ((other, kept) ∷ later) =
      let rest = remove key later in if other == key then rest else (other, kept) ∷ rest

  pub lookup-remove :
      (gone key : ℕ) (table : Table V)
      → lookup key (remove gone table) ≡ (if gone == key then none else lookup key table)
  unfolding lookup remove
  lookup-remove gone key [] = ground arith
  lookup-remove gone key ((other, kept) ∷ later) = ground (arith, lookup-remove gone key later)

  -- A new key goes to the end; a known one gets the value in its place.
  unfoldable pub insert : ℕ → V → Table V → Table V
  insert key new [] = (key, new) ∷ []
  insert key new ((other, old) ∷ later) =
      let rest = insert key new later in
      if other == key then (key, new) ∷ later else (other, old) ∷ rest

  pub lookup-insert :
      (set key : ℕ) (new : V) (table : Table V)
      → lookup key (insert set new table) ≡ (if set == key then some new else lookup key table)
  unfolding lookup insert
  lookup-insert set key new [] = refl
  lookup-insert set key new ((other, old) ∷ later) = ground (arith, lookup-insert set key new later)

  pub length-remove-le : (k : ℕ) (m : Table V) → length (remove k m) ≤ length m
  unfolding remove
  length-remove-le k [] = omega arith
  length-remove-le k ((i, w) ∷ m) = ground (arith, length-remove-le k m)

  -- Removing a key that is there makes the table shorter.
  pub length-remove :
      (k : ℕ) (v : V) (m : Table V) → lookup k m ≡ some v → length (remove k m) < length m
  unfolding lookup remove
  length-remove k v [] h = ground arith
  length-remove k v ((i, w) ∷ m) h = ground (arith, length-remove k v m, length-remove-le k m)

module _ {V : Type 0} (P : ℕ × V → Type 0) where
  pub All-lookup : (k : ℕ) (m : Table V) (v : V) → All P m → lookup k m ≡ some v → P (k, v)
  unfolding lookup
  All-lookup k [] v a h = absurd (cc)
  All-lookup k ((j, w) ∷ m) v a h = elim (Bool-cases (j == k)) [
    | inl e ↦
        let same : j ≡ k = (==_iff j k).0 e in
        let h' : some w ≡ some v = rw e at h in let this : w ≡ v = cc in rw (← same, ← this) a.0
    | inr e ↦ All-lookup k m v a.1 (rw e at h)
  ]

  pub All-remove : (k : ℕ) (m : Table V) → All P m → All P (remove k m)
  unfolding remove
  All-remove k [] a = tt
  All-remove k ((j, w) ∷ m) a = elim (Bool-cases (j == k)) [
    | inl e ↦ rw e (All-remove k m a.1)
    | inr e ↦ rw e (a.0, All-remove k m a.1)
  ]

  pub All-insert : (k : ℕ) (v : V) (m : Table V) → P (k, v) → All P m → All P (insert k v m)
  unfolding insert
  All-insert k v [] p a = (p, tt)
  All-insert k v ((j, w) ∷ m) p a = elim (Bool-cases (j == k)) [
    | inl e ↦ rw e (p, a.1)
    | inr e ↦ rw e (a.0, All-insert k v m p a.1)
  ]
