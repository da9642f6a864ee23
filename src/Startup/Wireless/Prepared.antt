-- ===== src/Startup/Wireless/Prepared.antt =====
-- What the check over USB before a wireless start of src/main.rs has established.
use i_usb_bridge.Prelude.{
  ℕ, ◌+◌, ◌≡◌, false, not, ◌&&◌, ◌||◌, Option, none, some, List, [], ◌∷◌, ◌==◌, ltb, inl, inr,
  Bool-cases,
}
use i_usb_bridge.Prelude.Text.{Text, text}
use i_usb_bridge.Prelude.Action.{ok, Result-cases}
use i_usb_bridge.Session.App.{App, say, on_world}
use i_usb_bridge.Session.Args.{FilePath}
use i_usb_bridge.Session.Connect.{describe_surfaces}
use i_usb_bridge.Session.Device.{usb}
use i_usb_bridge.Session.Errors.{is_recoverable_usb_transport_error}
use i_usb_bridge.Session.Event.{status}
use i_usb_bridge.Session.Provider.{device_provider}
use i_usb_bridge.Session.Reconnect.Ready.{IsReady, connect_session_with_ddi_recovery-IsReady}
use i_usb_bridge.Session.Whole.{Outside, device_of, recover_over}
use i_usb_bridge.Startup.Report.{is_other}
use i_usb_bridge.Startup.Wireless.{
  Preflight, prepared, delays, last_refusal, retry_after, provisioned, prepare_attempts,
  prepare_wireless_personalized_ddi,
}

module _ {World : Type 0} (out : Outside World) (expected : Option Text) (ddi_dir : FilePath) where
  -- A device over USB that is not another one than expected, and a session with it that was ready
  -- before it was dropped.
  pub record IsChecked (a' : App World) : Type 0 where
    pub udid : Text
    pub earlier : App World
    pub provided : App World
    pub session : App World
    pub found : device_provider out.sys out.env usb earlier ≡ ok udid provided
    pub expected_one : is_other expected udid ≡ false
    pub recovered : recover_over out ddi_dir (provisioned out udid provided) ≡ ok tt session
    pub is_ready : IsReady (device_of out ddi_dir) (describe_surfaces out.formats.show) session
    pub dropped : a' ≡ on_world out.sys.drop_session session

  last_refusal_not_prepared :
      (last : Option Text) (a a' : App World) → last_refusal out last a ≡ prepared a' → ⊥
  last_refusal_not_prepared none a a' h = absurd (cc h)
  last_refusal_not_prepared (some e) a a' h = absurd (cc h)

  prepare_attempts-IsChecked :
      (ds : List ℕ) (n : ℕ) (last : Option Text) (a a' : App World)
      → prepare_attempts out expected ddi_dir ds n last a ≡ prepared a'
      → IsChecked a'
  unfolding prepare_attempts
  prepare_attempts-IsChecked [] n last a a' h = absurd (last_refusal_not_prepared last a a' h)
  prepare_attempts-IsChecked (delay ∷ later) n last a a' h =
      let start : App World = retry_after out delay n a in
      elim (Result-cases (device_provider out.sys out.env usb start)) [
        | inr (e, v, f) ↦
            elim (Bool-cases ((n == 3) || not (is_recoverable_usb_transport_error e))) [
              | inl b ↦ absurd (cc (rw (prepare_attempts, f, b) at h))
              | inr b ↦
                  prepare_attempts-IsChecked later (n + 1) (some e) v a'
                    (rw (prepare_attempts, f, b) at h)
            ]
        | inl (udid, v, f) ↦ elim (Bool-cases (is_other expected udid)) [
          | inl b ↦ absurd (cc (rw (prepare_attempts, f, b) at h))
          | inr b ↦ elim (Result-cases (recover_over out ddi_dir (provisioned out udid v))) [
            | inl (_, u, g) ↦
                let same : ◌≡◌ {A = Preflight World} (prepared (on_world out.sys.drop_session u))
                    (prepared a') =
                  rw (prepare_attempts, f, b, g) at h in
                record {
                  udid = udid;
                  earlier = start;
                  provided = v;
                  session = u;
                  found = f;
                  expected_one = b;
                  recovered = g;
                  is_ready =
                      connect_session_with_ddi_recovery-IsReady (device_of out ddi_dir)
                        (describe_surfaces out.formats.show) (provisioned out udid v) u g;
                  dropped = cc same;
                }
            | inr (e, u, g) ↦ elim (Bool-cases (is_recoverable_usb_transport_error e && ltb n 3)) [
              | inl c ↦
                  prepare_attempts-IsChecked later (n + 1) (some e) u a'
                    (rw (prepare_attempts, f, b, g, c) at h)
              | inr c ↦ absurd (cc (rw (prepare_attempts, f, b, g, c) at h))
            ]
          ]
        ]
      ]

  -- If the check over USB that a wireless start makes succeeds, at any of its four attempts, it
  -- found a device that is not another one than was named, and had a session with it in whose
  -- service list the main touchscreen was; it dropped that session last.
  pub prepare_wireless_personalized_ddi-IsChecked :
      (a a' : App World)
      → prepare_wireless_personalized_ddi out expected ddi_dir a ≡ prepared a'
      → IsChecked a'
  unfolding prepare_wireless_personalized_ddi
  prepare_wireless_personalized_ddi-IsChecked a a' h =
      prepare_attempts-IsChecked delays 0 none
        (say (status (text "checking_developer_environment")) a) a' h
