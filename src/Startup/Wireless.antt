-- ===== src/Startup/Wireless.antt =====
-- The wireless start in `main` of src/main.rs, with `try_connect_existing_wireless_hid` and
-- `prepare_wireless_personalized_ddi`.
pub mod Prepared
use i_usb_bridge.Prelude.{
  ℕ, ◌+◌, Bool, true, false, not, ◌&&◌, ◌||◌, Option, none, some, List, [], ◌∷◌, ◌++◌, ltb, ◌==◌,
  if◌then◌else◌,
}
use i_usb_bridge.Prelude.Text.{Text, text, text_eq, contains, to_ascii_lowercase}
use i_usb_bridge.Prelude.Action.{ok, err, Action, ◌>>=◌, ◌>>◌, return, state_of}
use i_usb_bridge.Image.Cache.{verify_local_personalized_ddi}
use i_usb_bridge.Image.Publish.{ensure_personalized_ddi}
use i_usb_bridge.Session.App.{App, say, lift, on_world}
use i_usb_bridge.Session.Args.{
  FilePath, or_else, requested_udid, requested_ddi_dir, default_ddi_dir,
}
use i_usb_bridge.Session.Connect.{
  require_main_touchscreen, connect_session, connect_session_from_transport,
}
use i_usb_bridge.Session.Device.{usb, network}
use i_usb_bridge.Session.Errors.{
  coredevice_error_code, coredevice_error_message, is_recoverable_usb_transport_error,
  remote_pairing_error_code,
}
use i_usb_bridge.Session.Event.{status, warning}
use i_usb_bridge.Session.Pairing.{remote_pairing_transport}
use i_usb_bridge.Session.Provision.{provision_remote_pairing}
use i_usb_bridge.Session.Provider.{device_provider}
use i_usb_bridge.Session.Whole.{Outside, keep_session, recover_over}
use i_usb_bridge.Startup.Report.{fail, or_fail, or_warn, announce, itself, is_other, or_empty}

-- How a check over USB comes out: a code and a message if it is refused.
pub data Preflight (World : Type 0) : Type 0 where
  prepared : App World → Preflight World
  refused : Text → Text → App World → Preflight World

abbrev refusal_code : Text → Text
refusal_code message =
    if contains (text "developer mode") (to_ascii_lowercase message)
    then text "developer_mode_required"
    else if is_recoverable_usb_transport_error message
    then text "wireless_ddi_usb_required"
    else text "developer_image_mount_failed"

abbrev pub delays : List ℕ
delays = 0 ∷ 150 ∷ 400 ∷ 900 ∷ []

module _ {World : Type 0} (out : Outside World) where
  open out use {sys, env, remote, disk, net, formats, display}
  open formats use {show}

  abbrev provider_over_usb : Action (App World) Text
  provider_over_usb = device_provider sys env usb

  abbrev pub provision : Text → Action (App World) (Unit {0})
  provision = provision_remote_pairing sys env remote

  abbrev pub pairing_transport : Action (App World) Text
  pairing_transport = lift (remote_pairing_transport sys env remote)

  abbrev pub over_pairing : Action (App World) (Unit {0})
  over_pairing = keep_session out (connect_session_from_transport sys show true)

  abbrev pub over_provider : Action (App World) (Unit {0})
  over_provider = keep_session out (connect_session sys show)

  -- A session with the main touchscreen, unless the device is another one.
  unfoldable pub validated :
      Option Text → Action (App World) (Unit {0}) → Text → Action (App World) Text
  validated expected connect udid a =
      if is_other expected udid
      then err
          (text "wireless device changed: expected="
            ++ (or_empty expected ++ (text ", actual=" ++ udid)))
          a
      else (connect >> (require_main_touchscreen sys show >> return udid)) a

  unfoldable pub try_connect_existing_wireless_hid : Option Text → Action (App World) Text
  unfolding validated
  try_connect_existing_wireless_hid expected a = elim (pairing_transport a) [
    | ok udid a1 ↦ validated expected over_pairing udid a1
    | err remote_error a1 ↦ elim (device_provider sys env network a1) [
      | ok udid a2 ↦ validated expected over_provider udid a2
      | err _ a2 ↦ err remote_error a2
    ]
  ]

  abbrev usb_required : Text
  usb_required = text "wireless_ddi_usb_required"

  abbrev pub last_refusal : Option Text → App World → Preflight World
  last_refusal none a = refused usb_required (text "无线控制的 USB DDI 检查未能建立设备会话") a
  last_refusal (some e) a = refused usb_required e a

  abbrev pub retry_after : ℕ → ℕ → App World → App World
  retry_after delay attempt a =
      if ltb 0 delay
      then on_world (sys.sleep delay) (
          say
            (warning (text "wireless_ddi_usb_retry")
              (text "无线控制正在重新建立 USB DDI 检查通道 " ++ (show (attempt + 1) ++ text "/4")))
            a)
      else a

  abbrev pub provisioned : Text → App World → App World
  provisioned udid a =
      state_of (or_warn (text "wireless_remote_pairing_provision_failed") (provision udid) a)

  unfoldable pub prepare_attempts :
      Option Text → FilePath → List ℕ → ℕ → Option Text → App World → Preflight World
  prepare_attempts expected ddi_dir [] attempt last a = last_refusal last a
  prepare_attempts expected ddi_dir (delay ∷ later) attempt last a =
      elim (provider_over_usb (retry_after delay attempt a)) [
        | err e a1 ↦ elim ((attempt == 3) || not (is_recoverable_usb_transport_error e)) [
          | true ↦ refused usb_required e a1
          | false ↦ prepare_attempts expected ddi_dir later (attempt + 1) (some e) a1
        ]
        | ok udid a1 ↦ elim (is_other expected udid) [
          | true ↦
              refused usb_required
                (text "USB DDI 检查发现的设备与无线控制目标不一致: expected="
                  ++ (or_empty expected ++ (text ", actual=" ++ udid)))
                a1
          | false ↦ elim (recover_over out ddi_dir (provisioned udid a1)) [
            | ok _ a2 ↦ prepared (on_world sys.drop_session a2)
            | err e a2 ↦ elim (is_recoverable_usb_transport_error e && ltb attempt 3) [
              | true ↦ prepare_attempts expected ddi_dir later (attempt + 1) (some e) a2
              | false ↦ refused (refusal_code e) e a2
            ]
          ]
        ]
      ]

  unfoldable pub prepare_wireless_personalized_ddi :
      Option Text → FilePath → App World → Preflight World
  unfolding prepare_attempts
  prepare_wireless_personalized_ddi expected ddi_dir a =
      prepare_attempts expected ddi_dir delays 0 none
        (say (status (text "checking_developer_environment")) a)

  abbrev pub prepare : FilePath → Action (App World) (Unit {0})
  prepare ddi_dir a = elim (prepare_wireless_personalized_ddi (requested_udid env.args) ddi_dir a) [
    | prepared a' ↦ ok tt a'
    | refused code message a' ↦ fail code message a'
  ]

  -- The session that the start returns, or an error event for it.
  unfoldable pub session_or_fail : Action (App World) (Unit {0}) → Text → Action (App World) Text
  unfolding or_fail
  session_or_fail connect udid = do
    or_fail coredevice_error_code coredevice_error_message connect
    return udid

  -- Was the pairing provisioned over USB, so that it can be tried again?
  abbrev pub provision_then : Text → Action (App World) Bool
  provision_then usb_udid a =
      if is_other (requested_udid env.args) usb_udid
      then ok false a
      else elim (provision usb_udid a) [
        | ok _ a1 ↦ ok true a1
        | err e a1 ↦ ok false (say (warning (text "wireless_remote_pairing_provision_failed") e) a1)
      ]

  unfoldable pub provision_for_retry : Action (App World) Bool
  provision_for_retry a = elim (provider_over_usb a) [
    | err e a1 ↦ ok false (say (warning (text "wireless_remote_pairing_usb_unavailable") e) a1)
    | ok usb_udid a1 ↦ provision_then usb_udid a1
  ]

  unfoldable pub network_session : Text → Action (App World) Text
  unfolding session_or_fail
  network_session remote_message a = elim (device_provider sys env network a) [
    | ok udid a1 ↦ session_or_fail over_provider udid a1
    | err _ a1 ↦ fail (remote_pairing_error_code remote_message) remote_message a1
  ]

  abbrev pub should_retry : Text → Action (App World) Bool
  should_retry remote_message =
      if text_eq (remote_pairing_error_code remote_message)
        (text "wireless_remote_pairing_required")
      then provision_for_retry
      else return false

  abbrev pub second_try : Text → Bool → Action (App World) Text
  second_try remote_message true =
      or_fail remote_pairing_error_code itself pairing_transport >>= session_or_fail over_pairing
  second_try remote_message false = network_session remote_message

  unfoldable pub connect_remote : Action (App World) Text
  unfolding provision_for_retry network_session
  connect_remote a = elim (pairing_transport a) [
    | ok udid a1 ↦ session_or_fail over_pairing udid a1
    | err e a1 ↦ (should_retry e >>= second_try e) a1
  ]

  abbrev pub explicit_ddi : Option FilePath
  explicit_ddi = requested_ddi_dir env

  abbrev pub ddi_dir : FilePath
  ddi_dir = or_else explicit_ddi (default_ddi_dir env)

  -- A directory that was named is checked, and the default one is brought up to date.
  abbrev pub verify_image : Action (App World) (Unit {0})
  verify_image =
      or_fail (λ _. text "developer_image_bundle_invalid") itself
        (lift (verify_local_personalized_ddi disk net formats display ddi_dir))

  abbrev pub ensure_image : Action (App World) (Unit {0})
  ensure_image =
      or_fail (λ _. text "developer_image_download_failed") itself
        (ensure_personalized_ddi disk net formats env ddi_dir)

  abbrev pub if_explicit :
      Action (App World) (Unit {0}) → Action (App World) (Unit {0}) → Action (App World) (Unit {0})
  if_explicit given default_one a = elim explicit_ddi [ some _ ↦ given a | none ↦ default_one a ]

  abbrev pub prepare_and_connect : Action (App World) Text
  prepare_and_connect = do if_explicit verify_image (return tt); prepare ddi_dir; connect_remote

  abbrev pub existing_or : Action (App World) Text → Action (App World) Text
  existing_or otherwise a = elim (try_connect_existing_wireless_hid (requested_udid env.args) a) [
    | ok udid a1 ↦ ok udid a1
    | err _ a1 ↦ otherwise a1
  ]

  unfoldable pub open_wireless : Action (App World) Text
  unfolding try_connect_existing_wireless_hid prepare_wireless_personalized_ddi connect_remote
  open_wireless = do
    if_explicit (return tt) ensure_image
    announce (status (text "discovering_wireless_device"))
    announce (status (text "initializing_touch"))
    existing_or prepare_and_connect
