-- ===== src/Session/Reconnect.antt =====
-- `describe_surfaces`, `release_all`, `reconnect_direct_session`, `recover_hid_session` and
-- `connect_session_with_ddi_recovery` of src/main.rs.
pub mod Ready
pub mod Spelled
use i_usb_bridge.Prelude.{
  ℕ, zero, suc, ◌+◌, Bool, true, false, not, ◌||◌, Option, none, some, List, [], ◌∷◌, ◌++◌, inl,
  inr, ◌==◌, ltb, if◌then◌else◌, any,
}
use i_usb_bridge.Prelude.Text.{Text, text}
use i_usb_bridge.Prelude.Action.{Result, ok, err, Action, within, state_of}
use i_usb_bridge.Mux.Serial.{eq_ignore_ascii_case}
use i_usb_bridge.Session.Device.{Device, Contact, main_touchscreen, Transport, usb, network}
use i_usb_bridge.Session.Errors.{is_ddi_registration_error}

unfoldable pub has_main_touchscreen : List ℕ → Bool
has_main_touchscreen = any (λ id. id == main_touchscreen)

abbrev pub release_contacts : List Contact
release_contacts =
    record { identity = 0; touching = false; x = 0; y = 0 }
    ∷ record { identity = 1; touching = false; x = 0; y = 0 }
    ∷ record { identity = 2; touching = false; x = 0; y = 0 }
    ∷ record { identity = 3; touching = false; x = 0; y = 0 }
    ∷ record { identity = 4; touching = false; x = 0; y = 0 }
    ∷ []

abbrev pub device_changed : Text → Text → Text → Text
device_changed what expected got =
    what
    ++ (text " device changed during direct HID rotation: expected "
        ++ (expected ++ (text ", got " ++ got)))

abbrev pub retry_delays : Bool → List ℕ
retry_delays after_failure =
    if after_failure then 0 ∷ 100 ∷ 250 ∷ 500 ∷ 1000 ∷ [] else 0 ∷ 250 ∷ 500 ∷ 1000 ∷ 2000 ∷ []

module _ {World : Type 0} (device : Device World) (describe_surfaces : List ℕ → Text) where
  open device use {
    build_multitouch_report, send_report, list_connected_services, device_provider,
    connect_hid_session, connect_session, remote_pairing_transport, connect_session_from_transport,
    mount_local_ddi, drop_session, sleep, abort_tasks, spawn_monitor,
  }

  unfoldable pub release_all : Action World (Unit {0})
  release_all w = elim (build_multitouch_report release_contacts none) [
    | inl report ↦ within (text "touch release timed out") (send_report main_touchscreen report) w
    | inr e ↦ err e w
  ]

  -- One attempt, before the services are looked at.
  unfoldable pub attempt : Bool → Text → Action World (Unit {0})
  attempt over_usb expected w =
      if over_usb
      then elim (device_provider usb w) [
        | ok udid w1 ↦
            if eq_ignore_ascii_case udid expected
            then connect_hid_session w1
            else err (device_changed (text "USB") expected udid) w1
        | err e w1 ↦ err e w1
      ]
      else elim (remote_pairing_transport w) [
        | ok udid w1 ↦
            if not (eq_ignore_ascii_case udid expected)
            then err (device_changed (text "wireless") expected udid) w1
            else connect_session_from_transport w1
        | err remote_error w1 ↦ elim (device_provider network w1) [
          | ok udid w2 ↦
              if eq_ignore_ascii_case udid expected
              then connect_session w2
              else err (device_changed (text "wireless") expected udid) w2
          | err _ w2 ↦ err remote_error w2
        ]
      ]

  unfoldable pub attempts : Bool → Text → List ℕ → Option Text → Action World (Unit {0})
  unfolding attempt
  attempts over_usb expected [] last w = elim last [
    | none ↦ err (text "direct HID session rotation failed") w
    | some e ↦ err e w
  ]
  attempts over_usb expected (delay ∷ later) last w0 =
      let w : World = if ltb 0 delay then sleep delay w0 else w0 in
      elim (attempt over_usb expected w) [
        | err e w1 ↦ attempts over_usb expected later (some e) w1
        | ok _ w1 ↦ elim (list_connected_services w1) [
          | err e w2 ↦ err e w2
          | ok surfaces w2 ↦ elim (has_main_touchscreen surfaces) [
            | true ↦ ok tt w2
            | false ↦ attempts over_usb expected later (some (describe_surfaces surfaces)) w2
          ]
        ]
      ]

  unfoldable pub reconnect_direct_session : Bool → Text → Bool → Action World (Unit {0})
  unfolding release_all
  reconnect_direct_session over_usb expected after_failure w0 =
      let w1 : World = if after_failure then w0 else state_of (release_all w0) in
      let w2 : World = sleep (if after_failure then 50 else 250) (drop_session w1) in
      attempts over_usb expected (retry_delays after_failure) none w2

  unfoldable pub recover_hid_session : Bool → Text → Action World (Unit {0})
  recover_hid_session over_usb expected w0 =
      elim (reconnect_direct_session over_usb expected true (abort_tasks w0)) [
        | ok _ w1 ↦ ok tt (spawn_monitor w1)
        | err e w1 ↦ err e w1
      ]

  -- The three attempts after the developer image was mounted again.
  unfoldable pub ddi_attempts : ℕ → Bool → Text → Action World (Unit {0})
  ddi_attempts zero waits last w = err last w
  ddi_attempts (suc left) waits last w0 =
      let w : World = if waits then sleep 2000 w0 else w0 in
      elim (connect_hid_session w) [
        | err e w1 ↦ ddi_attempts left true e w1
        | ok _ w1 ↦ elim (list_connected_services w1) [
          | err e w2 ↦ ddi_attempts left true e w2
          | ok surfaces w2 ↦ elim (has_main_touchscreen surfaces) [
            | true ↦ ok tt w2
            | false ↦ ddi_attempts left true (describe_surfaces surfaces) w2
          ]
        ]
      ]

  abbrev pub remount : Action World (Unit {0})
  remount w = elim (mount_local_ddi true w) [
    | err e w1 ↦ err e w1
    | ok _ w1 ↦
        ddi_attempts 3 false (text "mainTouchscreen service 257 is unavailable after DDI remount")
          w1
  ]

  unfoldable pub connect_session_with_ddi_recovery : Action World (Unit {0})
  connect_session_with_ddi_recovery w = elim (connect_hid_session w) [
    | err e w1 ↦ if not (is_ddi_registration_error e) then err e w1 else remount w1
    | ok _ w1 ↦ elim (list_connected_services w1) [
      | err _ w2 ↦ remount (drop_session w2)
      | ok surfaces w2 ↦ elim (has_main_touchscreen surfaces) [
        | true ↦ ok tt w2
        | false ↦ remount (drop_session w2)
      ]
    ]
  ]
