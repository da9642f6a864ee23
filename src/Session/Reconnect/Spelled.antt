-- ===== src/Session/Reconnect/Spelled.antt =====
-- How `reconnect_direct_session` of src/main.rs takes the other spelling of an identifier.
use i_usb_bridge.Prelude.{
  ℕ, ◌≡◌, Bool, true, false, none, some, List, [], ◌∷◌, ◌++◌, refl, ltb, if◌then◌else◌,
}
use i_usb_bridge.Prelude.Text.{Text, text}
use i_usb_bridge.Prelude.Action.{ok, err}
use i_usb_bridge.Mux.Serial.{same_udid}
use i_usb_bridge.Mux.Serial.Agree.{same_udid-dash}
use i_usb_bridge.Session.Device.{Device, usb}
use i_usb_bridge.Session.Reconnect.{device_changed, attempt, attempts, reconnect_direct_session}

-- The error of an attempt that found the device.
abbrev pub taken_for_another : Text → Text → Text
taken_for_another front back = device_changed (text "USB") (front ++ back) (front ++ b'-' ∷ back)

module _ {World : Type 0} (device : Device World) (describe_surfaces : List ℕ → Text)
    (front back : Text)
    (always_found : (w : World)
      → (w' : World) × (device.device_provider usb w ≡ ok (front ++ b'-' ∷ back) w')) where
  attempt_dash :
      (w : World)
      → (w' : World) × (attempt device describe_surfaces true (front ++ back) w
          ≡ err (taken_for_another front back) w')
  unfolding attempt
  attempt_dash w =
      let (w', e) = always_found w in (w', rw (e, (same_udid-dash front back).1, attempt) refl)

  attempts_dash :
      (later : List ℕ) (w : World)
      → (w' : World) × (attempts device describe_surfaces true
            (front ++ back)
            later
            (some (taken_for_another front back))
            w
          ≡ err (taken_for_another front back) w')
  unfolding attempts
  attempts_dash [] w = (w, refl)
  attempts_dash (delay ∷ later) w =
      let (w1, e) = attempt_dash (if ltb 0 delay then device.sleep delay w else w) in
      let (w2, f) = attempts_dash later w1 in (w2, rw (e, attempts) f)

  first_attempt_dash :
      (delay : ℕ) (later : List ℕ) (w : World)
      → (w' : World) × (attempts device describe_surfaces true
            (front ++ back)
            (delay ∷ later)
            none
            w
          ≡ err (taken_for_another front back) w')
  unfolding attempts
  first_attempt_dash delay later w =
      let (w1, e) = attempt_dash (if ltb 0 delay then device.sleep delay w else w) in
      let (w2, f) = attempts_dash later w1 in (w2, rw (e, attempts) f)

  -- If the provider over USB always finds the device, and reports its identifier with one dash more
  -- than it had, then reconnecting fails after all its attempts with the error of a changed device,
  -- although `same_udid` takes the two identifiers for the same.
  pub reconnect_direct_session_dash :
      (after_failure : Bool) (w : World)
      → (same_udid (front ++ b'-' ∷ back) (front ++ back) ≡ true)
        × ((w' : World) × (reconnect_direct_session device describe_surfaces true
                (front ++ back)
                after_failure
                w
              ≡ err (taken_for_another front back) w'))
  unfolding reconnect_direct_session
  reconnect_direct_session_dash true w = ((same_udid-dash front back).0, first_attempt_dash _ _ _)
  reconnect_direct_session_dash false w = ((same_udid-dash front back).0, first_attempt_dash _ _ _)
