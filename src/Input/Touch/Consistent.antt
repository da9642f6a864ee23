-- ===== src/Input/Touch/Consistent.antt =====
-- The contacts and the slots of the loop in src/main.rs agree after every batch.
use i_usb_bridge.Prelude.{
  ℕ, ◌<◌, ◌≡◌, refl, inl, inr, Bool, true, false, Option, none, some, List, [], ◌∷◌, arith, ◌==◌,
  if◌then◌else◌, Bool-cases, Option-cases,
}
use i_usb_bridge.Prelude.Table.{Table, lookup, insert, remove, lookup-insert, lookup-remove}
use i_usb_bridge.Prelude.Text.{text, text_eq}
use i_usb_bridge.Session.Device.{Contact}
use i_usb_bridge.Input.Message.{InputPoint}
use i_usb_bridge.Input.Slots.{max_slots, in_use, allocate_slot}
use i_usb_bridge.Input.Slots.Valid.{
  IsValid, Outcome, known, full, fresh, allocate_slot-Outcome, insert-IsValid,
}
use i_usb_bridge.Input.Touch.{
  Coordinates, Points, Contacts, contact, lift, lift_all, place, press, press_all, touch_batch,
}

-- The pointers with a contact are those with a slot, the contact touches and carries the slot's
-- number, and the slots are five at most and shared by no two pointers.
pub record IsConsistent (s : Contacts) : Type 0 where
  pub valid : IsValid s.slots
  pub matched :
      (p : ℕ) (c : Contact)
      → lookup p s.active ≡ some c
      → (lookup p s.slots ≡ some c.identity) × (c.touching ≡ true)
  pub held : (p i : ℕ) → lookup p s.slots ≡ some i → (c : Contact) × (lookup p s.active ≡ some c)

remove-IsConsistent :
    (p : ℕ) (s : Contacts)
    → IsConsistent s
    → IsConsistent (record { active = remove p s.active; slots = remove p s.slots })
remove-IsConsistent p s v = record {
  valid = record {
    in_range = λ q j h. ground (arith, lookup-remove p q s.slots, v.valid.in_range q j);
    distinct = λ q r j h k.
        ground
          (arith, lookup-remove p q s.slots, lookup-remove p r s.slots, v.valid.distinct q r j);
  };
  matched =
      λ q c h. ground (arith, lookup-remove p q s.slots, lookup-remove p q s.active, v.matched q c);
  held = λ q i h. elim (Bool-cases (p == q)) [
    | inl e ↦ absurd (ground (arith, lookup-remove p q s.slots))
    | inr e ↦
        let (c, f) = v.held q i (ground (arith, lookup-remove p q s.slots)) in
        (c, ground (arith, lookup-remove p q s.active))
  ];
}

-- A contact at a slot that its pointer has.
refresh-IsConsistent :
    (p i : ℕ) (c : Contact) (s : Contacts)
    → lookup p s.slots ≡ some i
    → c.identity ≡ i
    → c.touching ≡ true
    → IsConsistent s
    → IsConsistent (record { active = insert p c s.active; slots = s.slots })
refresh-IsConsistent p i c s h e t v = record {
  valid = v.valid;
  matched = λ q d k. ground (arith, lookup-insert p q c s.active, v.matched q d);
  held = λ q j k. elim (Bool-cases (p == q)) [
    | inl f ↦ (c, ground (arith, lookup-insert p q c s.active))
    | inr f ↦ let (d, g) = v.held q j k in (d, ground (arith, lookup-insert p q c s.active))
  ];
}

-- A contact of a new pointer at a free slot.
begin-IsConsistent :
    (p i : ℕ) (c : Contact) (s : Contacts)
    → lookup p s.slots ≡ none
    → i < max_slots
    → in_use s.slots i ≡ false
    → c.identity ≡ i
    → c.touching ≡ true
    → IsConsistent s
    → IsConsistent (record { active = insert p c s.active; slots = insert p i s.slots })
begin-IsConsistent p i c s h l f e t v = record {
  valid = insert-IsValid s.slots p i l f v.valid;
  matched = λ q d k.
      ground (arith, lookup-insert p q c s.active, lookup-insert p q i s.slots, v.matched q d);
  held = λ q j k. elim (Bool-cases (p == q)) [
    | inl g ↦ (c, ground (arith, lookup-insert p q c s.active))
    | inr g ↦
        let (d, w) = v.held q j (ground (arith, lookup-insert p q i s.slots)) in
        (d, ground (arith, lookup-insert p q c s.active))
  ];
}

module _ {F : Type 0} (co : Coordinates F) where
  lift-IsConsistent :
      (p : InputPoint F) (s : Contacts) (out : List Contact)
      → IsConsistent s
      → IsConsistent (lift co p (s, out)).0
  unfolding lift
  lift-IsConsistent p s out v = elim (Option-cases (lookup (p.pointer_id) s.slots)) [
    | inl e ↦ rw (e, lift) v
    | inr (i, e) ↦
        let (c, f) = v.held (p.pointer_id) i e in
        rw (e, f, lift) (remove-IsConsistent (p.pointer_id) s v)
  ]

  lift_all-IsConsistent :
      (points : Points F) (s : Contacts × List Contact)
      → IsConsistent s.0
      → IsConsistent (lift_all co points s).0
  unfolding lift_all
  lift_all-IsConsistent [] s v = v
  lift_all-IsConsistent (p ∷ later) (s, out) v =
      lift_all-IsConsistent later _ (lifted (text_eq (p.action) (text "up")))
    where
      lifted : (up : Bool) → IsConsistent (if up then lift co p (s, out) else (s, out)).0
      lifted true = lift-IsConsistent p s out v
      lifted false = v

  -- A point that goes down, by what `allocate_slot` returns.
  down-IsConsistent :
      (p : InputPoint F) (s : Contacts) (o : Option ℕ × Table ℕ)
      → Outcome s.slots (p.pointer_id) o
      → IsConsistent s
      → IsConsistent (place co p (o.0, record s { slots = o.1 }))
  unfolding place
  down-IsConsistent p s _ (known i e) v =
      refresh-IsConsistent (p.pointer_id) i (contact co i true p) s e (unfold contact in refl)
        (unfold contact in refl) v
  down-IsConsistent p s _ (full e every) v = v
  down-IsConsistent p s _ (fresh i e l f) v =
      begin-IsConsistent (p.pointer_id) i (contact co i true p) s e l f (unfold contact in refl)
        (unfold contact in refl) v

  move-IsConsistent :
      (p : InputPoint F) (s : Contacts) (o : Option ℕ)
      → lookup (p.pointer_id) s.slots ≡ o
      → IsConsistent s
      → IsConsistent (place co p (o, s))
  unfolding place
  move-IsConsistent p s none e v = v
  move-IsConsistent p s (some i) e v =
      refresh-IsConsistent (p.pointer_id) i (contact co i true p) s e (unfold contact in refl)
        (unfold contact in refl) v

  press-IsConsistent :
      (p : InputPoint F) (s : Contacts) → IsConsistent s → IsConsistent (press co p s)
  unfolding press
  press-IsConsistent p s v =
      pressed (text_eq (p.action) (text "up")) (text_eq (p.action) (text "down"))
        (text_eq (p.action) (text "move"))
    where
      id : ℕ
      id = p.pointer_id

      pressed :
          (up down move : Bool)
          → IsConsistent (
              if up
              then s
              else place co p (
                  if down
                  then (
                    (allocate_slot s.slots id).0,
                    record s { slots = (allocate_slot s.slots id).1 },
                  )
                  else if move
                  then (lookup id s.slots, s)
                  else (none, s)))
      pressed true down move = v
      pressed false true move = down-IsConsistent p s _ (allocate_slot-Outcome s.slots id) v
      pressed false false true = move-IsConsistent p s _ refl v
      pressed false false false = unfold place in v

  press_all-IsConsistent :
      (points : Points F) (s : Contacts) → IsConsistent s → IsConsistent (press_all co points s)
  unfolding press_all
  press_all-IsConsistent [] s v = v
  press_all-IsConsistent (p ∷ later) s v =
      press_all-IsConsistent later (press co p s) (press-IsConsistent p s v)

  -- A touch batch keeps the contacts and slots consistent, whatever its points are: every contact
  -- touches and has the slot of its pointer, every slot has a contact, no two pointers share a
  -- slot, and each slot is below five.
  pub touch_batch-IsConsistent :
      (points : Points F) (s : Contacts) → IsConsistent s → IsConsistent (touch_batch co points s).0
  unfolding touch_batch
  touch_batch-IsConsistent points s v =
      press_all-IsConsistent points _ (lift_all-IsConsistent points (s, []) v)
