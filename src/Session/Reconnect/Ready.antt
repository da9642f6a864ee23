-- ===== src/Session/Reconnect/Ready.antt =====
-- What `reconnect_direct_session` and `connect_session_with_ddi_recovery` of src/main.rs promise.
use i_usb_bridge.Prelude.{
  ℕ, zero, suc, ◌≡◌, Bool, true, false, Option, none, some, List, [], ◌∷◌, ltb, if◌then◌else◌, not,
  Bool-cases, inl, inr,
}
use i_usb_bridge.Prelude.Text.{Text}
use i_usb_bridge.Prelude.Action.{ok, Result-cases, err-ne-ok, ok-injective}
use i_usb_bridge.Session.Device.{Device}
use i_usb_bridge.Session.Errors.{is_ddi_registration_error}
use i_usb_bridge.Session.Reconnect.{
  has_main_touchscreen, attempt, attempts, retry_delays, reconnect_direct_session, ddi_attempts,
  remount, connect_session_with_ddi_recovery,
}

module _ {World : Type 0} (device : Device World) (describe_surfaces : List ℕ → Text) where
  open device use {list_connected_services, connect_hid_session}

  -- The state is the one after a list of the device's services with the main touchscreen in it.
  pub record IsReady (w' : World) : Type 0 where
    pub before : World
    pub surfaces : List ℕ
    pub listed : list_connected_services before ≡ ok surfaces w'
    pub present : has_main_touchscreen surfaces ≡ true

  attempts-IsReady :
      (over_usb : Bool) (expected : Text) (delays : List ℕ) (last : Option Text) (w w' : World)
      → attempts device describe_surfaces over_usb expected delays last w ≡ ok tt w'
      → IsReady w'
  unfolding attempts
  attempts-IsReady over_usb expected [] none w w' h = absurd (cc)
  attempts-IsReady over_usb expected [] (some e) w w' h = absurd (cc)
  attempts-IsReady over_usb expected (delay ∷ later) last w w' h =
      elim (Result-cases (attempt device describe_surfaces over_usb expected w0)) [
        | inr (e, v, f) ↦
            attempts-IsReady over_usb expected later (some e) v w' (rw (f, attempts) at h)
        | inl (_, v, f) ↦ elim (Result-cases (list_connected_services v)) [
          | inr (e, v2, g) ↦ absurd (err-ne-ok (rw (f, g, attempts) at h))
          | inl (surfaces, v2, g) ↦ elim (Bool-cases (has_main_touchscreen surfaces)) [
            | inl p ↦
                let same : v2 ≡ w' = ok-injective (rw (f, g, p, attempts) at h) in
                record { before = v; surfaces = surfaces; listed = rw (← same) g; present = p }
            | inr p ↦
                attempts-IsReady over_usb expected later (some (describe_surfaces surfaces)) v2 w'
                  (rw (f, g, p, attempts) at h)
          ]
        ]
      ]
    where
      w0 : World
      w0 = if ltb 0 delay then device.sleep delay w else w

  -- `reconnect_direct_session` succeeds only in the state after a list of the device's services that
  -- holds the main touchscreen: on both transports, after a failure or not, and at any attempt.
  pub reconnect_direct_session-IsReady :
      (over_usb : Bool) (expected : Text) (after_failure : Bool) (w w' : World)
      → reconnect_direct_session device describe_surfaces over_usb expected after_failure w
        ≡ ok tt w'
      → IsReady w'
  unfolding reconnect_direct_session
  reconnect_direct_session-IsReady over_usb expected after_failure w w' h =
      attempts-IsReady over_usb expected (retry_delays after_failure) none _ w' h

  ddi_attempts-IsReady :
      (left : ℕ) (waits : Bool) (last : Text) (w w' : World)
      → ddi_attempts device describe_surfaces left waits last w ≡ ok tt w'
      → IsReady w'
  unfolding ddi_attempts
  ddi_attempts-IsReady zero waits last w w' h = absurd (err-ne-ok h)
  ddi_attempts-IsReady (suc left) waits last w w' h = elim (Result-cases (connect_hid_session w0)) [
    | inr (e, v, f) ↦ ddi_attempts-IsReady left true e v w' (rw (f, ddi_attempts) at h)
    | inl (_, v, f) ↦ elim (Result-cases (list_connected_services v)) [
      | inr (e, v2, g) ↦ ddi_attempts-IsReady left true e v2 w' (rw (f, g, ddi_attempts) at h)
      | inl (surfaces, v2, g) ↦ elim (Bool-cases (has_main_touchscreen surfaces)) [
        | inl p ↦
            let same : v2 ≡ w' = ok-injective (rw (f, g, p, ddi_attempts) at h) in
            record { before = v; surfaces = surfaces; listed = rw (← same) g; present = p }
        | inr p ↦
            ddi_attempts-IsReady left true (describe_surfaces surfaces) v2 w'
              (rw (f, g, p, ddi_attempts) at h)
      ]
    ]
  ]
    where
      w0 : World
      w0 = if waits then device.sleep 2000 w else w

  remount-IsReady : (w w' : World) → remount device describe_surfaces w ≡ ok tt w' → IsReady w'
  remount-IsReady w w' h = elim (Result-cases (device.mount_local_ddi true w)) [
    | inr (e, v, f) ↦ absurd (err-ne-ok (rw (f, remount) at h))
    | inl (_, v, f) ↦ ddi_attempts-IsReady 3 false _ v w' (rw (f, remount) at h)
  ]

  -- `connect_session_with_ddi_recovery` succeeds only in the state after a list of the device's
  -- services that holds the main touchscreen, with or without mounting the image again.
  pub connect_session_with_ddi_recovery-IsReady :
      (w w' : World)
      → connect_session_with_ddi_recovery device describe_surfaces w ≡ ok tt w'
      → IsReady w'
  unfolding connect_session_with_ddi_recovery
  connect_session_with_ddi_recovery-IsReady w w' h = elim (Result-cases (connect_hid_session w)) [
    | inr (e, v, f) ↦ elim (Bool-cases (not (is_ddi_registration_error e))) [
      | inl p ↦ absurd (err-ne-ok (rw (f, p, connect_session_with_ddi_recovery) at h))
      | inr p ↦ remount-IsReady v w' (rw (f, p, connect_session_with_ddi_recovery) at h)
    ]
    | inl (_, v, f) ↦ elim (Result-cases (list_connected_services v)) [
      | inr (e, v2, g) ↦ remount-IsReady _ w' (rw (f, g, connect_session_with_ddi_recovery) at h)
      | inl (surfaces, v2, g) ↦ elim (Bool-cases (has_main_touchscreen surfaces)) [
        | inl p ↦
            let same : v2 ≡ w' =
              ok-injective (rw (f, g, p, connect_session_with_ddi_recovery) at h) in
            record { before = v; surfaces = surfaces; listed = rw (← same) g; present = p }
        | inr p ↦ remount-IsReady _ w' (rw (f, g, p, connect_session_with_ddi_recovery) at h)
      ]
    ]
  ]
