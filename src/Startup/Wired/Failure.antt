-- ===== src/Startup/Wired/Failure.antt =====
-- A wired start of src/main.rs that fails says so.
use i_usb_bridge.Prelude.{Bool, true, false, Option, none, some, inl, inr}
use i_usb_bridge.Prelude.Text.{Text, text}
use i_usb_bridge.Prelude.Action.{Action, ◌>>=◌, ◌>>◌, return, bind_err}
use i_usb_bridge.Session.App.{App, say}
use i_usb_bridge.Session.Errors.{is_recoverable_usb_transport_error, device_connection_error_code}
use i_usb_bridge.Session.Event.{status}
use i_usb_bridge.Session.Whole.{Outside}
use i_usb_bridge.Startup.Report.{
  ReportsFailure, or_fail, or_warn, announce, itself, or_fail-ReportsFailure, bind-ReportsFailure,
  fail-ReportsFailure, total-ReportsFailure, or_warn-ReportsFailure, otherwise-ReportsFailure,
  choice-ReportsFailure,
}
use i_usb_bridge.Session.Args.{FilePath}
use i_usb_bridge.Startup.Wireless.{if_explicit, explicit_ddi, verify_image, provision, ensure_image}
use i_usb_bridge.Startup.Wired.{
  Retried, opened, still_failing, hid_session, after_retries, retry_session, existing_session,
  mount, mount_again, mount_retry, mount_image, session_after_mount, open_wired, retry_transport,
  transport_delays, provider_over_usb,
}

module _ {World : Type 0} (out : Outside World) where
  pub if_explicit-ReportsFailure :
      (m k : Action (App World) (Unit {0}))
      → ReportsFailure m
      → ReportsFailure k
      → ReportsFailure (if_explicit out m k)
  if_explicit-ReportsFailure m k p q = chosen (explicit_ddi out)
    where
      chosen : (o : Option FilePath) → ReportsFailure (λ a. elim o [ some _ ↦ m a | none ↦ k a ])
      chosen none = q
      chosen (some d) = p

  mount_again-ReportsFailure : ReportsFailure (mount_again out)
  mount_again-ReportsFailure =
      bind-ReportsFailure _ _ (or_fail-ReportsFailure _ _ _) (λ _. or_fail-ReportsFailure _ _ _)

  mount_retry-ReportsFailure :
      (first_message : Text) → ReportsFailure (mount_retry out first_message)
  mount_retry-ReportsFailure first_message =
      choice-ReportsFailure (is_recoverable_usb_transport_error first_message) _ _
        (λ a a' e h. mount_again-ReportsFailure _ a' e h) (fail-ReportsFailure _ _)

  mount_image-ReportsFailure : ReportsFailure (mount_image out)
  unfolding mount_image
  mount_image-ReportsFailure a a' e h =
      otherwise-ReportsFailure (mount out) (λ _. return tt) (mount_retry out)
        (λ _. total-ReportsFailure _ _) mount_retry-ReportsFailure
        (say (status (text "mounting_developer_image")) a) a' e h

  after_retries-ReportsFailure : (r : Retried World) → ReportsFailure (λ a. after_retries out r)
  after_retries-ReportsFailure (opened v) a a' e h = absurd (cc h)
  after_retries-ReportsFailure (still_failing existing last v) a a' e h =
      choice-ReportsFailure (is_recoverable_usb_transport_error existing) _ (return false)
        (fail-ReportsFailure _ _) (total-ReportsFailure _ _) v a' e h

  retry_session-ReportsFailure : (x : Text) → ReportsFailure (retry_session out x)
  retry_session-ReportsFailure x =
      choice-ReportsFailure (is_recoverable_usb_transport_error x) _ _
        (λ a a' e h.
          after_retries-ReportsFailure (retry_transport out transport_delays 0 x x a) a a' e h)
        (total-ReportsFailure _ _)

  existing_session-ReportsFailure : ReportsFailure (existing_session out)
  unfolding existing_session
  existing_session-ReportsFailure =
      otherwise-ReportsFailure (hid_session out) (λ _. return true) (retry_session out)
        (λ _. total-ReportsFailure _ _) retry_session-ReportsFailure

  session_after_mount-ReportsFailure : (b : Bool) → ReportsFailure (session_after_mount out b)
  session_after_mount-ReportsFailure true = total-ReportsFailure _ _
  session_after_mount-ReportsFailure false =
      bind-ReportsFailure _ _ mount_image-ReportsFailure (λ _. or_fail-ReportsFailure _ _ _)

  pub verify_image-ReportsFailure : ReportsFailure (verify_image out)
  verify_image-ReportsFailure = or_fail-ReportsFailure _ _ _

  pub ensure_image-ReportsFailure : ReportsFailure (ensure_image out)
  ensure_image-ReportsFailure = or_fail-ReportsFailure _ _ _

  -- The part of the wired start behind the pairing.
  abbrev after_pairing : Text → Action (App World) Text
  after_pairing udid =
      if_explicit out (verify_image out) (ensure_image out)
      >> (announce (status (text "initializing_touch"))
          >> (existing_session out >>= λ b. session_after_mount out b >> return udid))

  after_pairing-ReportsFailure : (udid : Text) → ReportsFailure (after_pairing udid)
  after_pairing-ReportsFailure udid a a' e h =
      elim (bind_err (if_explicit out (verify_image out) (ensure_image out) a) _ a' e h) [
        | inl f ↦
            if_explicit-ReportsFailure (verify_image out) (ensure_image out)
              verify_image-ReportsFailure ensure_image-ReportsFailure a a' e f
        | inr (_, v1, _, h1) ↦
            elim (bind_err (existing_session out (say (status (text "initializing_touch")) v1)) _ a'
              e h1) [
                | inl f ↦ existing_session-ReportsFailure _ a' e f
                | inr (b, v2, _, h2) ↦ elim (bind_err (session_after_mount out b v2) _ a' e h2) [
                  | inl f ↦ session_after_mount-ReportsFailure b v2 a' e f
                  | inr (_, v3, _, h3) ↦ absurd (cc h3)
                ]
              ]
      ]

  pub open_wired-ReportsFailure : ReportsFailure (open_wired out)
  unfolding open_wired
  open_wired-ReportsFailure a a' e h =
      elim (bind_err (or_fail device_connection_error_code itself (provider_over_usb out) a) _ a' e
        h) [
          | inl f ↦
              or_fail-ReportsFailure device_connection_error_code itself (provider_over_usb out) a
                a' e f
          | inr (udid, v1, _, h1) ↦
              elim (bind_err
                (or_warn (text "wireless_remote_pairing_provision_failed") (provision out udid) v1)
                _ a' e h1) [
                  | inl f ↦ or_warn-ReportsFailure _ _ v1 a' e f
                  | inr (_, v2, _, h2) ↦
                      after_pairing-ReportsFailure udid
                        (say (status (text "checking_developer_environment")) v2) a' e h2
                ]
        ]
