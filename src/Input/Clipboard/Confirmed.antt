-- ===== src/Input/Clipboard/Confirmed.antt =====
-- What a confirmed write to the pasteboard means in src/main.rs.
use i_usb_bridge.Prelude.{
  ℕ, ◌≡◌, Bool, true, false, Option, none, some, List, [], ◌∷◌, ltb, if◌then◌else◌, inl, inr,
  Bool-cases, ap,
}
use i_usb_bridge.Prelude.Text.{Text, text, text_eq→≡}
use i_usb_bridge.Prelude.Action.{
  Result, ok, within, Result-cases, err-ne-ok, ok-injective, bind_inv,
}
use i_usb_bridge.Session.Device.{Device}
use i_usb_bridge.Input.Clipboard.{
  Confirmation, confirmed, accepted_but_unconfirmed, clipboard_text_matches, confirm_loop,
  confirm_delays, unconfirmed_message, confirm_pasteboard_text,
  write_pasteboard_text_with_confirmation,
}

matched :
    (wanted : Text) (observed : Option Text)
    → clipboard_text_matches wanted observed ≡ true
    → observed ≡ some wanted
unfolding clipboard_text_matches
matched wanted none h = absurd (cc)
matched wanted (some t) h = ap some (text_eq→≡ t wanted h)

module _ {World : Type 0} (device : Device World) where
  -- The state is the one after a read of the pasteboard that gave exactly this text.
  pub record IsRead (wanted : Text) (w' : World) : Type 0 where
    pub before : World
    pub observed :
        within (text "pasteboard confirmation timed out") device.get_text before
        ≡ ok (some wanted) w'

  confirm_loop-IsRead :
      (wanted : Text) (delays : List ℕ) (w w' : World)
      → confirm_loop device wanted delays w ≡ ok true w'
      → IsRead wanted w'
  unfolding confirm_loop
  confirm_loop-IsRead wanted [] w w' h = absurd (cc)
  confirm_loop-IsRead wanted (delay ∷ later) w w' h =
      elim (Result-cases (within (text "pasteboard confirmation timed out") device.get_text w0)) [
        | inr (e, v, f) ↦ absurd (err-ne-ok (rw (f, confirm_loop) at h))
        | inl (seen, v, f) ↦ elim (Bool-cases (clipboard_text_matches wanted seen)) [
          | inl p ↦
              let same : v ≡ w' = ok-injective (rw (f, p, confirm_loop) at h) in
              record { before = w0; observed = rw (← same, ← matched wanted seen p) f }
          | inr p ↦ confirm_loop-IsRead wanted later v w' (rw (f, p, confirm_loop) at h)
        ]
      ]
    where
      w0 : World
      w0 = if ltb 0 delay then device.sleep delay w else w

  -- A write is reported as confirmed only when the pasteboard, read last, held exactly the text.
  pub write_pasteboard_text_with_confirmation-IsRead :
      (wanted : Text) (w w' : World)
      → write_pasteboard_text_with_confirmation device wanted w ≡ ok confirmed w'
      → IsRead wanted w'
  unfolding write_pasteboard_text_with_confirmation confirm_pasteboard_text
  write_pasteboard_text_with_confirmation-IsRead wanted w w' h =
      let (_, v, e, k) =
        bind_inv (within (text "pasteboard operation timed out") (device.set_text wanted) w) _ w'
          confirmed h in
      let (matches, v2, f, k2) =
        bind_inv (confirm_loop device wanted confirm_delays v) _ w' confirmed k in
      known v matches v2 (confirm_loop-IsRead wanted confirm_delays v v2) f k2
    where
      known :
          (v : World) (matches : Bool) (v2 : World)
          → (confirm_loop device wanted confirm_delays v ≡ ok true v2 → IsRead wanted v2)
          → confirm_loop device wanted confirm_delays v ≡ ok matches v2
          → ◌≡◌ {A = Result World Confirmation}
              (ok (if matches then confirmed else accepted_but_unconfirmed unconfirmed_message) v2)
              (ok confirmed w')
          → IsRead wanted w'
      known v true v2 read f k = let same : v2 ≡ w' = ok-injective k in rw (← same) (read f)
      known v false v2 read f k = absurd (cc)
