-- ===== src/Session/Whole.antt =====
-- The interface of Session/Device.antt, filled with the modelled functions of src/main.rs, so that
-- the reconnection and the loop work over them.
use i_usb_bridge.Prelude.{Bool, true}
use i_usb_bridge.Prelude.Text.{Text}
use i_usb_bridge.Prelude.Action.{ok, err, Action}
use i_usb_bridge.Session.App.{App, lift, lift_timed, on_world}
use i_usb_bridge.Session.Args.{FilePath}
use i_usb_bridge.Session.Connect.{
  describe_surfaces, connect_session, connect_hid_session, connect_session_from_transport,
}
use i_usb_bridge.Session.Device.{Device}
use i_usb_bridge.Session.Pairing.{Remote, remote_pairing_transport}
use i_usb_bridge.Session.Provider.{device_provider}
use i_usb_bridge.Session.Reconnect.{connect_session_with_ddi_recovery}
use i_usb_bridge.Session.System.{System, Environment}
use i_usb_bridge.Image.Disk.{Disk, Net, Formats}
use i_usb_bridge.Image.Mount.{Mounter, mount_local_ddi}

-- All that the program calls.
pub record Outside (World : Type 0) : Type 0 where
  pub sys : System World
  pub env : Environment
  pub remote : Remote World
  pub disk : Disk World
  pub net : Net World
  pub formats : Formats
  pub mounter : Mounter World
  pub display : FilePath → Text

module _ {World : Type 0} (out : Outside World) where
  open out use {sys, env, remote, disk, formats, mounter, display}
  open formats use {show}

  -- A session that is opened is kept with its mode.
  abbrev pub keep_session : Action (App World) Text → Action (App World) (Unit {0})
  keep_session m a = elim (m a) [
    | ok mode a' ↦ ok tt (record a' { auth_mode = mode })
    | err e a' ↦ err e a'
  ]

  abbrev locked : App World → Bool × App World
  locked a = let (free, w) = sys.lock_pasteboard a.world in (free, record a { world = w })

  unfoldable pub device_of : FilePath → Device (App World)
  device_of ddi_dir = record {
    send_keyboard = λ usage state. lift_timed (sys.send_keyboard usage state);
    send_button = λ page usage state. lift_timed (sys.send_button page usage state);
    build_multitouch_report = sys.build_multitouch_report;
    send_report = λ service report. lift_timed (sys.send_report service report);
    list_connected_services = lift sys.list_connected_services;
    services_in_time = lift_timed sys.services_in_time;
    lock_pasteboard = locked;
    set_text = λ t. lift_timed (sys.set_text t);
    get_text = lift_timed sys.get_text;
    device_provider = device_provider sys env;
    connect_hid_session = keep_session (connect_hid_session sys show);
    connect_session = keep_session (connect_session sys show);
    remote_pairing_transport = lift (remote_pairing_transport sys env remote);
    connect_session_from_transport = keep_session (connect_session_from_transport sys show true);
    mount_local_ddi = λ force. lift (mount_local_ddi disk mounter display ddi_dir force);
    drop_session = on_world sys.drop_session;
    sleep = λ n. on_world (sys.sleep n);
    abort_tasks = on_world sys.abort_tasks;
    spawn_monitor = on_world sys.spawn_monitor;
  }

  -- `connect_session_with_ddi_recovery(&*provider, ddi_dir)` of the program.
  abbrev pub recover_over : FilePath → Action (App World) (Unit {0})
  recover_over ddi_dir =
      connect_session_with_ddi_recovery (device_of ddi_dir) (describe_surfaces show)
