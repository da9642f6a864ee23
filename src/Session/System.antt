-- ===== src/Session/System.antt =====
-- What src/main.rs calls of the idevice and nusb crates, of tokio and of the operating system. Each
-- call reads and changes a `World`, which holds the provider, the tunnel, the service clients and
-- the session that were obtained last. They are parameters of the model.
use i_usb_bridge.Prelude.{ℕ, Bool, Option, List, ◌⊎◌}
use i_usb_bridge.Prelude.Bytes.{Bytes}
use i_usb_bridge.Prelude.Text.{Text}
use i_usb_bridge.Prelude.Action.{Action, Timed}
use i_usb_bridge.Session.Device.{ButtonState, Contact}

-- `Connection` of a device that a usbmux endpoint lists.
pub data Connection : Type 0 where
  usb_connection network_connection other_connection : Connection

pub record Listed : Type 0 where
  pub udid : Text
  pub connection : Connection

-- `UsbmuxdAddr`: Apple's own, the fixed local port, or that of a capture mux.
pub data Address : Type 0 where
  apple_address local_address : Address
  capture_address : ℕ → Address

-- The command line without the program's name, and the environment.
pub record Environment : Type 0 where
  pub args : List Text
  pub var : Text → Option Text
  pub temp_dir : Text

pub record System (World : Type 0) : Type 0 where
  pub sleep : ℕ → World → World
  -- usbmux: an endpoint, its device list, a provider for one of them.
  pub connect_endpoint : Address → Action World (Unit {0})
  pub get_devices : Action World (List Listed)
  pub to_provider : Address → Listed → World → World
  -- `RawMux`: claim the hidden interface, ask whether its threads live, and drop it.
  pub start_mux : Text → Action World (Option ℕ)
  pub is_alive : ℕ → World → Bool
  pub drop_mux : ℕ → World → World
  -- The tunnel to a device and its service directory.
  pub connect_proxy : Action World (Unit {0})
  pub create_tunnel : Action World (Unit {0})
  pub connect_rsd_port : Action World (Unit {0})
  pub shake_hands : Action World (Unit {0})
  pub has_service : Text → World → Bool
  -- The services.
  pub connect_display : Action World (Unit {0})
  pub bind_udp : Action World (Unit {0})
  pub build_audio_offer : Action World (Unit {0})
  pub build_video_offer : Action World (Unit {0})
  pub start_audio_stream : Action World (Unit {0})
  pub start_video_stream : Action World (Unit {0})
  pub connect_hid : Text → Text → Action World (Unit {0})
  pub connect_indigo : Action World (Unit {0})
  pub connect_pasteboard : Action World (Unit {0})
  pub drop_session : World → World
  -- The session's clients.
  pub send_keyboard : ℕ → ButtonState → Timed World (Unit {0})
  pub send_button : ℕ → ℕ → ButtonState → Timed World (Unit {0})
  pub build_multitouch_report : List Contact → Option ℕ → Bytes ⊎ Text
  pub send_report : ℕ → Bytes → Timed World (Unit {0})
  pub list_connected_services : Action World (List ℕ)
  pub services_in_time : Timed World (List ℕ)
  pub lock_pasteboard : World → Bool × World
  pub set_text : Text → Timed World (Unit {0})
  pub get_text : Timed World (Option Text)
  -- The background tasks of the loop.
  pub abort_tasks : World → World
  pub spawn_monitor : World → World
