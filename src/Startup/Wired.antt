-- ===== src/Startup/Wired.antt =====
-- The wired start in `main` of src/main.rs, and `emit_developer_image_mount_error`.
pub mod Failure
use i_usb_bridge.Prelude.{ℕ, ◌+◌, Bool, true, false, List, [], ◌∷◌, ◌++◌, if◌then◌else◌}
use i_usb_bridge.Prelude.Text.{Text, text}
use i_usb_bridge.Prelude.Action.{Result, ok, err, Action, ◌>>=◌, ◌>>◌, return}
use i_usb_bridge.Image.Mount.{mount_local_ddi}
use i_usb_bridge.Session.App.{App, say, lift, on_world}
use i_usb_bridge.Session.Connect.{connect_hid_session}
use i_usb_bridge.Session.Device.{usb}
use i_usb_bridge.Session.Errors.{
  coredevice_error_code, coredevice_error_message, is_recoverable_usb_transport_error,
  device_connection_error_code,
}
use i_usb_bridge.Session.Event.{status, warning}
use i_usb_bridge.Session.Provider.{device_provider}
use i_usb_bridge.Session.Whole.{Outside, keep_session, recover_over}
use i_usb_bridge.Startup.Report.{fail, or_fail, or_warn, announce, itself, mount_error_code}
use i_usb_bridge.Startup.Wireless.{provision, ddi_dir, if_explicit, verify_image, ensure_image}

-- How the quick retries of the first HID session come out: the session is open, or its error, with
-- the last error of the transport.
pub data Retried (World : Type 0) : Type 0 where
  opened : App World → Retried World
  still_failing : Text → Text → App World → Retried World

abbrev pub transport_delays : List ℕ
transport_delays = 100 ∷ 250 ∷ 500 ∷ 1000 ∷ []

module _ {World : Type 0} (out : Outside World) where
  open out use {sys, env, disk, formats, mounter, display}
  open formats use {show}

  abbrev pub provider_over_usb : Action (App World) Text
  provider_over_usb = device_provider sys env usb

  abbrev pub hid_session : Action (App World) (Unit {0})
  hid_session = keep_session out (connect_hid_session sys show)

  abbrev announce_retry : ℕ → Text → App World → App World
  announce_retry attempt last = say (
      warning (text "hid_session_transport_retry") (
        text "Universal HID 传输短暂断开，正在快速重建 USB 会话 "
        ++ (show (attempt + 1) ++ (text "/4: " ++ last))))

  unfoldable pub retry_transport : List ℕ → ℕ → Text → Text → App World → Retried World
  retry_transport [] attempt existing last a = still_failing existing last a
  retry_transport (delay ∷ later) attempt existing last a =
      elim (provider_over_usb (on_world (sys.sleep delay) (announce_retry attempt last a))) [
        | err e a1 ↦ retry_transport later (attempt + 1) existing e a1
        | ok _ a1 ↦ elim (hid_session a1) [
          | ok _ a2 ↦ opened a2
          | err e a2 ↦ elim (is_recoverable_usb_transport_error e) [
            | true ↦ retry_transport later (attempt + 1) e e a2
            | false ↦ still_failing e last a2
          ]
        ]
      ]

  -- Was a session opened? If not, one may be after the image is mounted; an error of the transport
  -- that stays ends the start.
  abbrev pub after_retries : Retried World → Result (App World) Bool
  after_retries (opened a) = ok true a
  after_retries (still_failing existing last a) =
      if is_recoverable_usb_transport_error existing
      then fail (device_connection_error_code last) last a
      else ok false a

  abbrev pub retry_session : Text → Action (App World) Bool
  retry_session e a =
      if is_recoverable_usb_transport_error e
      then after_retries (retry_transport transport_delays 0 e e a)
      else ok false a

  unfoldable pub existing_session : Action (App World) Bool
  unfolding retry_transport
  existing_session a = elim (hid_session a) [ ok _ a1 ↦ ok true a1 | err e a1 ↦ retry_session e a1 ]

  abbrev pub mount : Action (App World) (Unit {0})
  mount = lift (mount_local_ddi disk mounter display (ddi_dir out) false)

  abbrev pub mount_again : Action (App World) (Unit {0})
  mount_again = do
    or_fail device_connection_error_code itself (provider_over_usb >>= λ udid. return tt)
    or_fail mount_error_code itself mount

  abbrev pub mount_retry : Text → Action (App World) (Unit {0})
  mount_retry first_message a =
      if is_recoverable_usb_transport_error first_message
      then mount_again (
          on_world (sys.sleep 500) (
            say
              (warning (text "developer_image_transport_retry")
                (text "DDI 挂载连接已重新枚举，正在重新建立 USB 通道: " ++ first_message))
              a))
      else fail (mount_error_code first_message) first_message a

  unfoldable pub mount_image : Action (App World) (Unit {0})
  unfolding or_fail
  mount_image a = elim (mount (say (status (text "mounting_developer_image")) a)) [
    | ok _ a1 ↦ ok tt a1
    | err first_message a1 ↦ mount_retry first_message a1
  ]

  abbrev pub session_after_mount : Bool → Action (App World) (Unit {0})
  session_after_mount true = return tt
  session_after_mount false = do
    mount_image
    or_fail coredevice_error_code coredevice_error_message (recover_over out (ddi_dir out))

  unfoldable pub open_wired : Action (App World) Text
  unfolding existing_session mount_image or_fail
  open_wired = do
    udid ← or_fail device_connection_error_code itself provider_over_usb
    or_warn (text "wireless_remote_pairing_provision_failed") (provision out udid)
    announce (status (text "checking_developer_environment"))
    if_explicit out (verify_image out) (ensure_image out)
    announce (status (text "initializing_touch"))
    existing ← existing_session
    session_after_mount existing
    return udid
