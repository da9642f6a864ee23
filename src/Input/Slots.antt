-- ===== src/Input/Slots.antt =====
-- `allocate_slot` of src/main.rs: the touch slots 0 to 4.
pub mod Valid
use i_usb_bridge.Prelude.{
  ℕ, Bool, true, false, not, Option, none, some, List, [], ◌∷◌, ◌==◌, if◌then◌else◌, any,
}
use i_usb_bridge.Prelude.Table.{Table, lookup, insert}

abbrev pub max_slots : ℕ
max_slots = 5

-- `0..MAX_SLOTS as u8`
abbrev pub slot_range : List ℕ
slot_range = 0 ∷ 1 ∷ 2 ∷ 3 ∷ 4 ∷ []

unfoldable pub in_use : Table ℕ → ℕ → Bool
in_use [] candidate = false
in_use ((_, value) ∷ slots) candidate = if value == candidate then true else in_use slots candidate

unfoldable pub first_free : List ℕ → Table ℕ → Option ℕ
first_free [] slots = none
first_free (candidate ∷ later) slots =
    let rest = first_free later slots in if in_use slots candidate then rest else some candidate

-- The result, and the table after it.
unfoldable pub allocate_slot : Table ℕ → ℕ → Option ℕ × Table ℕ
allocate_slot slots pointer_id = elim (lookup pointer_id slots) [
  | some identity ↦ (some identity, slots)
  | none ↦ elim (first_free slot_range slots) [
    | none ↦ (none, slots)
    | some identity ↦ (some identity, insert pointer_id identity slots)
  ]
]
