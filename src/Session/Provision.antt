-- ===== src/Session/Provision.antt =====
-- `provision_remote_pairing` and `enable_wifi_sync` of src/main.rs: what is set up over USB.
use i_usb_bridge.Prelude.{Bool, true, false, not, Option, none, some, if◌then◌else◌}
use i_usb_bridge.Prelude.Text.{Text, text}
use i_usb_bridge.Prelude.Action.{ok, err, Action, within, ◌>>=◌, ◌>>◌}
use i_usb_bridge.Session.Event.{status, wifi_sync_enabled}
use i_usb_bridge.Session.Device.{usb}
use i_usb_bridge.Session.App.{App, say, lift}
use i_usb_bridge.Session.Args.{FilePath, requested_udid, remote_pairing_file_path}
use i_usb_bridge.Session.Provider.{device_provider}
use i_usb_bridge.Session.System.{System, Environment}
use i_usb_bridge.Session.Pairing.{Pairing, Remote}

module _ {World : Type 0} (sys : System World) (env : Environment) (remote : Remote World) where
  open remote use {
    read_from_file, generate, write_to_file, read_dir, create_dir_all, parent, extension, file_stem,
    display, browse, validate_auth_tag, connect_rpc, open_tunnel, shutdown, connect_pairing_service,
    into_client, verify_pairing, connect_lockdown, get_pairing_file, start_lockdown_session,
    wifi_connections, set_wifi_connections,
  }

  abbrev stored_or_new : FilePath → Action World Pairing
  stored_or_new path w = elim (read_from_file path w) [
    | ok pairing w' ↦ ok pairing w'
    | err _ w' ↦ ok (generate (text "iPhoneMirror-idevice")) w'
  ]

  unfoldable pub pair_over_usb : FilePath → FilePath → Action World (Unit {0})
  pair_over_usb path directory = do
    create_dir_all directory
    within (text "RemotePairing service connection timed out") connect_pairing_service
    into_client
    pairing ← stored_or_new path
    verified ← within (text "RemotePairing pairing verification timed out") (verify_pairing pairing)
    write_to_file path verified

  unfoldable pub provision_remote_pairing : Text → Action (App World) (Unit {0})
  unfolding pair_over_usb
  provision_remote_pairing udid a0 =
      let a : App World = say (status (text "provisioning_remote_pairing")) a0 in
      let path : FilePath = remote_pairing_file_path env (some udid) in
      elim (parent path) [
        | none ↦ err (text "RemotePairing cache has no parent") a
        | some directory ↦ lift (pair_over_usb path directory) a
      ]

  abbrev or_false : Option Bool → Bool
  or_false none = false
  or_false (some b) = b

  -- A switch that cannot be read counts as off.
  abbrev was_enabled_now : Action World Bool
  was_enabled_now w = elim (wifi_connections w) [
    | ok value w' ↦ ok (or_false value) w'
    | err _ w' ↦ ok false w'
  ]

  -- Turn the switch on unless it is on; whether it was on before.
  unfoldable pub switch_on : Action World Bool
  switch_on = do
    connect_lockdown
    get_pairing_file
    start_lockdown_session
    was_enabled ← was_enabled_now
    λ w. elim (if was_enabled then ok tt w else set_wifi_connections true w) [
      | err e w1 ↦ err e w1
      | ok _ w1 ↦ elim (wifi_connections w1) [
        | err e w2 ↦ err e w2
        | ok value w2 ↦
            if or_false value
            then ok was_enabled w2
            else err (text "device rejected EnableWifiConnections=true") w2
      ]
    ]

  unfoldable pub enable_wifi_sync : Action (App World) (Unit {0})
  unfolding switch_on
  enable_wifi_sync a = elim (requested_udid env.args) [
    | none ↦ err (text "--enable-wifi-sync requires --udid") a
    | some udid ↦ elim (device_provider sys env usb (say (status (text "enabling_wifi_sync")) a)) [
      | err e a1 ↦ err e a1
      | ok _ a1 ↦ elim (lift switch_on a1) [
        | err e a2 ↦ err e a2
        | ok was_enabled a2 ↦ ok tt (say (wifi_sync_enabled udid (not was_enabled)) a2)
      ]
    ]
  ]
