-- ===== src/Session/Device.antt =====
-- What src/main.rs calls of the idevice crate and of the machine: the device's services, the ways to
-- reach it, and the clock. They are parameters of the model; `World` is all that such a call reads
-- or changes, the session that is open included.
use i_usb_bridge.Prelude.{ℕ, Bool, Option, List, ◌⊎◌}
use i_usb_bridge.Prelude.Bytes.{Bytes}
use i_usb_bridge.Prelude.Text.{Text}
use i_usb_bridge.Prelude.Action.{Action, Timed}

pub data ButtonState : Type 0 where
  down up canceled : ButtonState

-- `TouchscreenContact`
pub record Contact : Type 0 where
  pub identity : ℕ
  pub touching : Bool
  pub x : ℕ
  pub y : ℕ

abbrev pub main_touchscreen : ℕ
main_touchscreen = 257

-- `Transport`
pub data Transport : Type 0 where
  usb network : Transport

pub record Device (World : Type 0) : Type 0 where
  -- The Indigo, Universal HID and pasteboard services of the session.
  pub send_keyboard : ℕ → ButtonState → Timed World (Unit {0})
  pub send_button : ℕ → ℕ → ButtonState → Timed World (Unit {0})
  pub build_multitouch_report : List Contact → Option ℕ → Bytes ⊎ Text
  pub send_report : ℕ → Bytes → Timed World (Unit {0})
  pub list_connected_services : Action World (List ℕ)
  -- The same list under a timeout of two seconds.
  pub services_in_time : Timed World (List ℕ)
  pub lock_pasteboard : World → Bool × World
  pub set_text : Text → Timed World (Unit {0})
  pub get_text : Timed World (Option Text)
  -- Ways to a new session: a provider for a transport with the device's identifier, a session
  -- through it with or without the media gate, and the same over RemotePairing.
  pub device_provider : Transport → Action World Text
  pub connect_hid_session : Action World (Unit {0})
  pub connect_session : Action World (Unit {0})
  pub remote_pairing_transport : Action World Text
  pub connect_session_from_transport : Action World (Unit {0})
  pub mount_local_ddi : Bool → Action World (Unit {0})
  pub drop_session : World → World
  pub sleep : ℕ → World → World
  -- The background tasks: abort all, and start the clipboard monitor.
  pub abort_tasks : World → World
  pub spawn_monitor : World → World
