-- ===== src/Input/Touch.antt =====
-- A touch batch in the loop of src/main.rs: the checks on its points, and the contacts after it.
pub mod Consistent
use i_usb_bridge.Prelude.{
  ℕ, ◌%◌, ◌^◌, Bool, true, false, not, ◌&&◌, ◌||◌, Option, none, some, List, [], ◌∷◌, ◌++◌, ltb,
  ◌==◌, if◌then◌else◌, length, any, map,
}
use i_usb_bridge.Prelude.Table.{Table, lookup, insert, remove}
use i_usb_bridge.Prelude.Text.{Text, text, text_eq}
use i_usb_bridge.Session.Device.{Contact}
use i_usb_bridge.Input.Message.{InputPoint}
use i_usb_bridge.Input.Slots.{max_slots, allocate_slot}

-- What the loop does with an `f64`: two tests, and `(v * 65535.0).round() as u16`.
pub record Coordinates (F : Type 0) : Type 0 where
  pub is_finite : F → Bool
  pub in_unit : F → Bool
  pub to_report : F → ℕ

abbrev pub Points : Type 0 → Type 0
Points F = List (InputPoint F)

module _ {F : Type 0} (c : Coordinates F) where
  open c use {is_finite, in_unit, to_report}

  abbrev pub is_action : Text → Bool
  is_action a = text_eq a (text "down") || (text_eq a (text "move") || text_eq a (text "up"))

  unfoldable pub is_seen : ℕ → List ℕ → Bool
  is_seen id = any (λ seen. seen == id)

  -- The test of `points.iter().any(..)`, with the pointers seen so far.
  unfoldable pub has_bad_point : List ℕ → Points F → Bool
  unfolding is_seen
  has_bad_point seen [] = false
  has_bad_point seen (p ∷ later) =
      let rest = has_bad_point (p.pointer_id ∷ seen) later in
      is_seen (p.pointer_id) seen
      || (not (is_action (p.action))
          || (not (is_finite (p.normalized_x))
              || (not (is_finite (p.normalized_y))
                  || (not (in_unit (p.normalized_x)) || (not (in_unit (p.normalized_y)) || rest)))))

-- The contacts and slots of the loop.
pub record Contacts : Type 0 where
  pub active : Table Contact
  pub slots : Table ℕ

module _ {F : Type 0} (c : Coordinates F) where
  open c use {to_report}

  unfoldable pub contact : ℕ → Bool → InputPoint F → Contact
  contact identity touching p = record {
    identity = identity;
    touching = touching;
    x = to_report (p.normalized_x);
    y = to_report (p.normalized_y);
  }

  -- One point that goes up, with the releases so far.
  unfoldable pub lift : InputPoint F → Contacts × List Contact → Contacts × List Contact
  unfolding contact
  lift p (s, releases) = elim (lookup (p.pointer_id) s.slots) [
    | none ↦ (s, releases)
    | some identity ↦
        let freed = record s { slots = remove (p.pointer_id) s.slots } in
        elim (lookup (p.pointer_id) s.active) [
          | none ↦ (freed, releases)
          | some _ ↦ (
            record freed { active = remove (p.pointer_id) s.active },
            releases ++ (contact identity false p ∷ []),
          )
        ]
  ]

  unfoldable pub lift_all : Points F → Contacts × List Contact → Contacts × List Contact
  unfolding lift
  lift_all [] s = s
  lift_all (p ∷ later) s = lift_all later (if text_eq (p.action) (text "up") then lift p s else s)

  -- The slot of a point that goes down or moves.
  unfoldable pub slot_of : InputPoint F → Contacts → Option ℕ × Contacts
  slot_of p s =
      let (identity, slots) = allocate_slot s.slots (p.pointer_id) in
      if text_eq (p.action) (text "down")
      then (identity, record s { slots = slots })
      else if text_eq (p.action) (text "move")
      then (lookup (p.pointer_id) s.slots, s)
      else (none, s)

  -- `let Some(identity) = identity else { continue }`, and the contact of the point.
  unfoldable pub place : InputPoint F → Option ℕ × Contacts → Contacts
  unfolding contact
  place p (none, s) = s
  place p (some i, s) = record s { active = insert (p.pointer_id) (contact i true p) s.active }

  unfoldable pub press : InputPoint F → Contacts → Contacts
  unfolding slot_of place
  press p s = if text_eq (p.action) (text "up") then s else place p (slot_of p s)

  unfoldable pub press_all : Points F → Contacts → Contacts
  unfolding press
  press_all [] s = s
  press_all (p ∷ later) s = press_all later (press p s)

  -- A whole batch: the contacts after it, and the contacts of its report.
  unfoldable pub touch_batch : Points F → Contacts → Contacts × List Contact
  unfolding lift_all press_all
  touch_batch points s =
      let (lifted, releases) = lift_all points (s, []) in
      let s' = press_all points lifted in (s', map (λ (e : ℕ × Contact). e.1) s'.active ++ releases)

-- `value & ((1u64 << 48) - 1)`
unfoldable pub truncate_timestamp : ℕ → ℕ
truncate_timestamp value = value % 2 ^ 48
