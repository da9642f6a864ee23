-- ===== src/Startup/Launch/Failure.antt =====
-- A start of src/main.rs that fails says so.
use i_usb_bridge.Prelude.{
  ◌≡◌, Bool, true, false, List, [], ◌∷◌, ◌++◌, inl, inr, if◌then◌else◌, Bool-cases,
}
use i_usb_bridge.Prelude.Text.{Text, text, text_eq}
use i_usb_bridge.Prelude.Action.{ok, err, Action, ◌>>=◌, return, bind_err}
use i_usb_bridge.Session.App.{App, say, lift}
use i_usb_bridge.Session.Device.{Transport, usb, network}
use i_usb_bridge.Session.Errors.{remote_pairing_error_code}
use i_usb_bridge.Session.Provider.{device_provider}
use i_usb_bridge.Session.Reconnect.{has_main_touchscreen}
use i_usb_bridge.Session.Event.{Event, error, warning}
use i_usb_bridge.Session.Whole.{Outside}
use i_usb_bridge.Startup.Report.{
  ReportsFailure, fail, or_fail, itself, is_other, or_fail-ReportsFailure, bind-ReportsFailure,
  fail-ReportsFailure, total-ReportsFailure, otherwise-ReportsFailure, choice-ReportsFailure,
}
use i_usb_bridge.Session.Args.{FilePath, requested_udid, requested_transport}
use i_usb_bridge.Startup.Wired.Failure.{
  if_explicit-ReportsFailure, verify_image-ReportsFailure, ensure_image-ReportsFailure,
  open_wired-ReportsFailure,
}
use i_usb_bridge.Startup.Wireless.{
  Preflight, prepared, refused, if_explicit, verify_image, prepare, ddi_dir, session_or_fail,
  provision_for_retry, network_session, should_retry, second_try, connect_remote,
  prepare_and_connect, existing_or, open_wireless, provision, provision_then,
  try_connect_existing_wireless_hid, ensure_image, over_provider, over_pairing, pairing_transport,
}
use i_usb_bridge.Startup.Launch.{open_session, look_for_touchscreen, start}
use i_usb_bridge.Startup.Wired.{provider_over_usb}

module _ {World : Type 0} (out : Outside World) where
  refused-ReportsFailure :
      (r : Preflight World)
      → ReportsFailure {World = World}
          (λ a. elim r [ prepared a' ↦ ok tt a' | refused code message a' ↦ fail code message a' ])
  refused-ReportsFailure (prepared v) a a' e h = absurd (cc h)
  refused-ReportsFailure (refused code message v) a a' e h =
      fail-ReportsFailure code message v a' e h

  prepare-ReportsFailure : (d : FilePath) → ReportsFailure (prepare out d)
  prepare-ReportsFailure d a a' e h = refused-ReportsFailure _ a a' e h

  session_or_fail-ReportsFailure :
      (connect : Action (App World) (Unit {0})) (udid : Text)
      → ReportsFailure (session_or_fail out connect udid)
  unfolding session_or_fail
  session_or_fail-ReportsFailure connect udid =
      bind-ReportsFailure _ _ (or_fail-ReportsFailure _ _ connect) (λ _. total-ReportsFailure _ _)

  provision_for_retry-ReportsFailure : ReportsFailure (provision_for_retry out)
  unfolding provision_for_retry
  provision_for_retry-ReportsFailure =
      otherwise-ReportsFailure (provider_over_usb out) (provision_then out)
        (λ x a. ok false (say (warning (text "wireless_remote_pairing_usb_unavailable") x) a))
        (λ usb_udid.
          choice-ReportsFailure (is_other (requested_udid out.env.args) usb_udid) (return false) _
            (total-ReportsFailure _ _)
            (otherwise-ReportsFailure (provision out usb_udid) (λ _. return true) _
              (λ _. total-ReportsFailure _ _) (λ x. total-ReportsFailure _ _)))
        (λ x. total-ReportsFailure _ _)

  should_retry-ReportsFailure : (x : Text) → ReportsFailure (should_retry out x)
  should_retry-ReportsFailure x =
      chosen (text_eq (remote_pairing_error_code x) (text "wireless_remote_pairing_required"))
    where
      chosen : (b : Bool) → ReportsFailure (if b then provision_for_retry out else return false)
      chosen true = provision_for_retry-ReportsFailure
      chosen false = total-ReportsFailure _ _

  network_session-ReportsFailure : (x : Text) → ReportsFailure (network_session out x)
  unfolding network_session
  network_session-ReportsFailure x =
      otherwise-ReportsFailure (device_provider out.sys out.env network)
        (session_or_fail out (over_provider out)) (λ _. fail (remote_pairing_error_code x) x)
        (λ udid. session_or_fail-ReportsFailure (over_provider out) udid)
        (λ _. fail-ReportsFailure (remote_pairing_error_code x) x)

  second_try-ReportsFailure : (x : Text) (b : Bool) → ReportsFailure (second_try out x b)
  second_try-ReportsFailure x true =
      bind-ReportsFailure _ (session_or_fail out (over_pairing out))
        (or_fail-ReportsFailure remote_pairing_error_code itself (pairing_transport out))
        (λ udid. session_or_fail-ReportsFailure (over_pairing out) udid)
  second_try-ReportsFailure x false = network_session-ReportsFailure x

  connect_remote-ReportsFailure : ReportsFailure (connect_remote out)
  unfolding connect_remote
  connect_remote-ReportsFailure =
      otherwise-ReportsFailure (pairing_transport out) (session_or_fail out (over_pairing out))
        (λ x. should_retry out x >>= second_try out x)
        (λ udid. session_or_fail-ReportsFailure (over_pairing out) udid)
        (λ x.
          bind-ReportsFailure (should_retry out x) (second_try out x)
            (should_retry-ReportsFailure x) (second_try-ReportsFailure x))

  prepare_and_connect-ReportsFailure : ReportsFailure (prepare_and_connect out)
  prepare_and_connect-ReportsFailure a a' e h =
      elim (bind_err (if_explicit out (verify_image out) (return tt) a) _ a' e h) [
        | inl f ↦
            if_explicit-ReportsFailure out (verify_image out) (return tt)
              (verify_image-ReportsFailure out) (total-ReportsFailure _ _) a a' e f
        | inr (_, v1, _, h1) ↦ elim (bind_err (prepare out (ddi_dir out) v1) _ a' e h1) [
          | inl f ↦ prepare-ReportsFailure (ddi_dir out) v1 a' e f
          | inr (_, v2, _, h2) ↦ connect_remote-ReportsFailure v2 a' e h2
        ]
      ]

  existing_or-ReportsFailure :
      (m : Action (App World) Text) → ReportsFailure m → ReportsFailure (existing_or out m)
  existing_or-ReportsFailure m p =
      otherwise-ReportsFailure (try_connect_existing_wireless_hid out (requested_udid out.env.args))
        (λ udid. return udid) (λ _. m) (λ udid. total-ReportsFailure _ _) (λ _. p)

  open_wireless-ReportsFailure : ReportsFailure (open_wireless out)
  unfolding open_wireless
  open_wireless-ReportsFailure a a' e h =
      elim (bind_err (if_explicit out (return tt) (ensure_image out) a) _ a' e h) [
        | inl f ↦
            if_explicit-ReportsFailure out (return tt) (ensure_image out) (total-ReportsFailure _ _)
              (ensure_image-ReportsFailure out) a a' e f
        | inr (_, v1, _, h1) ↦
            existing_or-ReportsFailure (prepare_and_connect out) prepare_and_connect-ReportsFailure
              _ a' e h1
      ]

  open_session-ReportsFailure : (t : Transport) → ReportsFailure (open_session out t)
  unfolding open_session
  open_session-ReportsFailure usb = open_wired-ReportsFailure out
  open_session-ReportsFailure network = open_wireless-ReportsFailure

  look_for_touchscreen-ReportsFailure : ReportsFailure (look_for_touchscreen out)
  unfolding look_for_touchscreen
  look_for_touchscreen-ReportsFailure a a' e h =
      elim (bind_err
        (or_fail (λ _. text "touch_surface_unavailable") itself
          (lift out.sys.list_connected_services) a)
        _ a' e h) [
          | inl f ↦
              or_fail-ReportsFailure (λ _. text "touch_surface_unavailable") itself
                (lift out.sys.list_connected_services) a a' e f
          | inr (surfaces, v, _, h1) ↦ elim (Bool-cases (has_main_touchscreen surfaces)) [
            | inl b ↦ absurd (cc (rw b at h1))
            | inr b ↦ fail-ReportsFailure _ _ v a' e (rw b at h1)
          ]
        ]

  -- A start that fails, over either transport and at any step, has written an error event last.
  pub start_reports_failure :
      (a a' : App World) (e : Text)
      → start out a ≡ err e a'
      → (earlier : List Event) × (code : Text) × (message : Text) × (a'.events
          ≡ earlier ++ (error code message ∷ []))
  unfolding start
  start_reports_failure a a' e h =
      elim (bind_err (open_session out (requested_transport out.env.args) a) _ a' e h) [
        | inl f ↦ open_session-ReportsFailure (requested_transport out.env.args) a a' e f
        | inr (udid, v1, _, h1) ↦ elim (bind_err (look_for_touchscreen out v1) _ a' e h1) [
          | inl f ↦ look_for_touchscreen-ReportsFailure v1 a' e f
          | inr (_, v2, _, h2) ↦ absurd (cc h2)
        ]
      ]
