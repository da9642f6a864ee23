-- ===== src/Input/Slots/Valid.antt =====
-- What `allocate_slot` of src/main.rs keeps, and what it returns.
use i_usb_bridge.Prelude.{
  ℕ, ◌<◌, ◌≡◌, inl, inr, true, false, Option, none, some, List, [], ◌∷◌, arith, ◌==◌, any,
  Option-cases,
}
use i_usb_bridge.Prelude.Table.{Table, lookup, insert, lookup-insert}
use i_usb_bridge.Input.Slots.{max_slots, slot_range, in_use, first_free, allocate_slot}

-- Every slot is one of the five, and no two pointers share one.
pub record IsValid (slots : Table ℕ) : Type 0 where
  pub in_range : (p i : ℕ) → lookup p slots ≡ some i → i < max_slots
  pub distinct : (p q i : ℕ) → lookup p slots ≡ some i → lookup q slots ≡ some i → p ≡ q

in_use_of_lookup : (slots : Table ℕ) (p i : ℕ) → lookup p slots ≡ some i → in_use slots i ≡ true
unfolding lookup in_use
in_use_of_lookup [] p i h = absurd (cc)
in_use_of_lookup ((q, j) ∷ slots) p i h = ground (arith, in_use_of_lookup slots p i)

-- A candidate that is found is free; if none is found all of them are in use.
first_free-some :
    (range : List ℕ) (slots : Table ℕ) (i : ℕ)
    → first_free range slots ≡ some i
    → in_use slots i ≡ false
unfolding first_free
first_free-some [] slots i h = absurd (cc)
first_free-some (c ∷ range) slots i h = ground (arith, first_free-some range slots i)

first_free-none :
    (range : List ℕ) (slots : Table ℕ) (i : ℕ)
    → first_free range slots ≡ none
    → any (λ c. c == i) range ≡ true
    → in_use slots i ≡ true
unfolding first_free
first_free-none [] slots i h k = absurd (cc)
first_free-none (c ∷ range) slots i h k = ground (arith, first_free-none range slots i)

first_free-lt : (slots : Table ℕ) (i : ℕ) → first_free slot_range slots ≡ some i → i < max_slots
unfolding first_free
first_free-lt slots i h = ground arith

slot_range-any : (i : ℕ) → i < max_slots → any (λ c. c == i) slot_range ≡ true
slot_range-any i h = ground arith

-- The three outcomes of a call.
pub data Outcome (slots : Table ℕ) (p : ℕ) : Option ℕ × Table ℕ → Type 0 where
  known : (i : ℕ) → lookup p slots ≡ some i → Outcome slots p (some i, slots)
  full :
      lookup p slots ≡ none
      → ((i : ℕ) → i < max_slots → in_use slots i ≡ true)
      → Outcome slots p (none, slots)
  fresh :
      (i : ℕ)
      → lookup p slots ≡ none
      → i < max_slots
      → in_use slots i ≡ false
      → Outcome slots p (some i, insert p i slots)

-- `allocate_slot` returns the slot that the pointer has; for a new pointer it returns a free slot
-- below five and records it, or nothing, with the table unchanged, when all five are in use.
pub allocate_slot-Outcome : (slots : Table ℕ) (p : ℕ) → Outcome slots p (allocate_slot slots p)
unfolding allocate_slot
allocate_slot-Outcome slots p = elim (Option-cases (lookup p slots)) [
  | inr (i, e) ↦ rw (e, allocate_slot) (known i e)
  | inl e ↦ elim (Option-cases (first_free slot_range slots)) [
    | inl f ↦
        rw (e, f, allocate_slot)
          (full e (λ i h. first_free-none slot_range slots i f (slot_range-any i h)))
    | inr (i, f) ↦
        rw (e, f, allocate_slot)
          (fresh i e (first_free-lt slots i f) (first_free-some slot_range slots i f))
  ]
]

pub insert-IsValid :
    (slots : Table ℕ) (p i : ℕ)
    → i < max_slots
    → in_use slots i ≡ false
    → IsValid slots
    → IsValid (insert p i slots)
insert-IsValid slots p i l f v = record {
  in_range = λ q j h. ground (arith, lookup-insert p q i slots, v.in_range q j);
  distinct = λ q r j h k. ground (
    arith,
    lookup-insert p q i slots,
    lookup-insert p r i slots,
    v.distinct q r j,
    in_use_of_lookup slots q i,
    in_use_of_lookup slots r i,
  );
}

-- If every slot of a table is below five and no two pointers share one, the same holds of the table
-- after `allocate_slot`.
pub allocate_slot-IsValid :
    (slots : Table ℕ) (p : ℕ) → IsValid slots → IsValid (allocate_slot slots p).1
allocate_slot-IsValid slots p v = keeps (allocate_slot slots p) (allocate_slot-Outcome slots p)
  where
    keeps : (out : Option ℕ × Table ℕ) → Outcome slots p out → IsValid out.1
    keeps _ (known i e) = v
    keeps _ (full e all) = v
    keeps _ (fresh i e l f) = insert-IsValid slots p i l f v
