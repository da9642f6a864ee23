-- ===== src/Session/Provider.antt =====
-- `device_provider` and `clear_raw_capture_mux` of src/main.rs: which usbmux endpoint serves the
-- requested device.
pub mod Served
use i_usb_bridge.Prelude.{
  ℕ, Bool, true, false, not, ◌&&◌, ◌||◌, Option, none, some, List, [], ◌∷◌, ◌++◌, if◌then◌else◌,
}
use i_usb_bridge.Prelude.Text.{Text, text}
use i_usb_bridge.Prelude.Action.{Result, ok, err, Action, ◌>>=◌, ◌>>◌}
use i_usb_bridge.Mux.Serial.{same_udid}
use i_usb_bridge.Session.Device.{Transport, usb, network}
use i_usb_bridge.Session.Event.{status, warning}
use i_usb_bridge.Session.App.{App, say, at_world, lift}
use i_usb_bridge.Session.Args.{requested_udid}
use i_usb_bridge.Session.System.{
  System, Environment, Listed, Connection, usb_connection, network_connection, other_connection,
  Address, apple_address, local_address, capture_address,
}

abbrev pub is_over : Transport → Connection → Bool
is_over usb usb_connection = true
is_over network network_connection = true
is_over _ _ = false

abbrev pub is_requested : Option Text → Text → Bool
is_requested none found = true
is_requested (some requested) found = same_udid found requested

unfoldable pub serves : Option Text → Transport → Listed → Bool
serves requested transport d = is_requested requested d.udid && is_over transport d.connection

-- `devices.into_iter().find(..)`
unfoldable pub find_device : Option Text → Transport → List Listed → Option Listed
unfolding serves
find_device requested transport [] = none
find_device requested transport (d ∷ later) =
    let rest = find_device requested transport later in
    if serves requested transport d then some d else rest

abbrev transport_name : Transport → Text
transport_name usb = text "Usb"
transport_name network = text "Network"

-- What a look at the capture mux that is there comes to.
pub data Reuse : Type 0 where
  found : Text → Reuse
  start : Reuse
  keep_it : Reuse

module _ {World : Type 0} (sys : System World) (env : Environment) where
  open sys use {connect_endpoint, get_devices, to_provider, start_mux, is_alive, drop_mux}

  unfoldable pub clear_raw_capture_mux : App World → App World
  clear_raw_capture_mux a = elim (a.capture) [
    | none ↦ a
    | some m ↦ record a { capture = none; world = drop_mux m a.world }
  ]

  abbrev chosen : Address → Listed → App World → App World
  chosen address d a = record a { world = to_provider address d a.world }

  -- The devices of a capture mux that answers.
  unfoldable pub look_up : ℕ → Text → List Listed → App World → Reuse × App World
  look_up m serial devices a = elim (find_device (some serial) usb devices) [
    | some d ↦ (found d.udid, chosen (capture_address m) d a)
    | none ↦ (
      keep_it,
      say
          (warning (text "capture_mux_device_pending")
            (text "QuickTime USBMux 暂未返回目标设备 " ++ (serial ++ text "，继续等待其它 USB 通道")))
          a,
    )
  ]

  unfoldable pub reuse_capture : Text → App World → Reuse × App World
  unfolding clear_raw_capture_mux look_up
  reuse_capture serial a = elim (a.capture) [
    | none ↦ (start, a)
    | some m ↦
        if not (is_alive m a.world)
        then (start, clear_raw_capture_mux a)
        else elim (connect_endpoint (capture_address m) a.world) [
          | err _ w ↦ (start, clear_raw_capture_mux (record a { world = w }))
          | ok _ w ↦ elim (get_devices w) [
            | err _ w' ↦ (start, clear_raw_capture_mux (record a { world = w' }))
            | ok devices w' ↦ look_up m serial devices (record a { world = w' })
          ]
        ]
  ]

  -- A new capture mux, as the holder's; the device it lists, if it lists the requested one.
  unfoldable pub start_capture : Text → Action (App World) (Option Text)
  start_capture serial a = elim (start_mux serial a.world) [
    | err e w ↦ ok none (
        say (warning (text "capture_mux_start_failed") (text "QuickTime USBMux 启动失败: " ++ e))
          (record a { world = w }))
    | ok none w ↦ ok none (say (status (text "capture_mux_not_found")) (record a { world = w }))
    | ok (some m) w ↦
        let a1 : App World =
          say (status (text "capture_mux_ready")) (record a { world = w; capture = some m }) in
        elim (connect_endpoint (capture_address m) w) [
          | err e w1 ↦ err e (record a1 { world = w1 })
          | ok _ w1 ↦ elim (get_devices w1) [
            | err e w2 ↦ err e (record a1 { world = w2 })
            | ok devices w2 ↦ elim (find_device (some serial) usb devices) [
              | some d ↦ ok (some d.udid) (chosen (capture_address m) d (record a1 { world = w2 }))
              | none ↦ ok none (
                  say
                    (warning (text "capture_mux_device_not_found")
                      (text "QuickTime USBMux 未返回目标设备 " ++ serial))
                    (record a1 { world = w2 }))
            ]
          ]
        ]
  ]

  abbrev with_reason : Option Text → Text
  with_reason none = []
  with_reason (some e) = text ": " ++ e

  unfoldable pub no_device : Transport → Bool → Option Text → Text
  no_device transport reachable last_error =
      if reachable
      then text "no matching " ++ (transport_name transport ++ text " iOS device found")
      else text "no Apple or capture usbmuxd endpoint is available" ++ with_reason last_error

  unfoldable pub try_endpoints :
      Option Text → Transport → List Address → Bool → Option Text → Action (App World) Text
  unfolding no_device
  try_endpoints udid transport [] reachable last_error a =
      err (no_device transport reachable last_error) a
  try_endpoints udid transport (address ∷ later) reachable last_error a =
      elim (connect_endpoint address a.world) [
        | err e w ↦ try_endpoints udid transport later reachable (some e) (record a { world = w })
        | ok _ w ↦ elim (get_devices w) [
          | err e w' ↦ try_endpoints udid transport later true (some e) (record a { world = w' })
          | ok devices w' ↦ elim (find_device udid transport devices) [
            | some d ↦ ok d.udid (chosen address d (record a { world = w' }))
            | none ↦ try_endpoints udid transport later true last_error (record a { world = w' })
          ]
        ]
      ]

  abbrev usual_endpoints : Option Text → Transport → Action (App World) Text
  usual_endpoints udid transport =
      try_endpoints udid transport (apple_address ∷ local_address ∷ []) false none

  -- The part for a wired device that was named.
  unfoldable pub through_capture : Text → Action (App World) Text
  unfolding reuse_capture start_capture
  through_capture serial a =
      let (reuse, a1) = reuse_capture serial a in
      elim reuse [
        | found udid ↦ ok udid a1
        | keep_it ↦ usual_endpoints (some serial) usb a1
        | start ↦ elim (start_capture serial a1) [
          | err e a2 ↦ err e a2
          | ok (some udid) a2 ↦ ok udid a2
          | ok none a2 ↦ usual_endpoints (some serial) usb a2
        ]
      ]

  unfoldable pub device_provider : Transport → Action (App World) Text
  unfolding through_capture
  device_provider network a = usual_endpoints (requested_udid env.args) network a
  device_provider usb a = elim (requested_udid env.args) [
    | none ↦ usual_endpoints none usb a
    | some serial ↦ through_capture serial a
  ]
