-- ===== src/Startup/Launch.antt =====
-- `main` of src/main.rs up to the loop: the session is opened over the transport that was asked for,
-- its main touchscreen is looked for, and `Ready` is written. That an event cannot be written is
-- left out.
pub mod Failure
pub mod Ready
pub mod Named
use i_usb_bridge.Prelude.{
  ℕ, Bool, true, false, ◌||◌, Option, none, some, List, [], ◌∷◌, ◌++◌, if◌then◌else◌,
}
use i_usb_bridge.Prelude.Text.{Text, text}
use i_usb_bridge.Prelude.Action.{Result, ok, err, Action, ◌>>=◌, ◌>>◌, return}
use i_usb_bridge.Session.App.{App, say, lift}
use i_usb_bridge.Session.Args.{has_flag, requested_transport, requested_rate_hz}
use i_usb_bridge.Session.Connect.{describe_surfaces}
use i_usb_bridge.Session.Device.{Transport, usb, network}
use i_usb_bridge.Session.Event.{status, ready, error}
use i_usb_bridge.Session.Provision.{enable_wifi_sync}
use i_usb_bridge.Session.Reconnect.{has_main_touchscreen}
use i_usb_bridge.Session.Whole.{Outside}
use i_usb_bridge.Startup.Report.{fail, or_fail, itself}
use i_usb_bridge.Startup.Wireless.{open_wireless}
use i_usb_bridge.Startup.Wired.{open_wired}

-- How `main` goes on: it has returned, it has left with a failure, or it runs the loop for a device.
pub data Launched (World : Type 0) : Type 0 where
  finished : App World → Launched World
  exited : App World → Launched World
  running : Text → App World → Launched World

abbrev pub wire_name : Transport → Text
wire_name usb = text "usb"
wire_name network = text "wireless"

module _ {World : Type 0} (out : Outside World) where
  open out use {sys, env, remote, formats}
  open formats use {show}

  unfoldable pub open_session : Transport → Action (App World) Text
  unfolding open_wireless open_wired
  open_session usb = open_wired out
  open_session network = open_wireless out

  unfoldable pub look_for_touchscreen : Action (App World) (Unit {0})
  unfolding or_fail
  look_for_touchscreen = do
    surfaces ←
        or_fail (λ _. text "touch_surface_unavailable") itself (lift sys.list_connected_services)
    λ a. elim (has_main_touchscreen surfaces) [
      | true ↦ ok tt a
      | false ↦ fail (text "touch_surface_unavailable") (describe_surfaces show surfaces) a
    ]

  abbrev pub say_ready : Text → Action (App World) Text
  say_ready udid a = ok udid (
      say
        (ready udid (requested_rate_hz env.args) a.auth_mode
          (wire_name (requested_transport env.args)))
        a)

  -- The part from the first status to `Ready`; its result is the device's identifier.
  unfoldable pub start : Action (App World) Text
  unfolding open_session look_for_touchscreen
  start = do
    udid ← open_session (requested_transport env.args)
    look_for_touchscreen
    say_ready udid

  unfoldable pub launch : App World → Launched World
  unfolding start
  launch a =
      if has_flag (text "--help") env.args || has_flag (text "-h") env.args
      then finished a
      else (if has_flag (text "--enable-wifi-sync") env.args
          then elim (enable_wifi_sync sys env remote a) [
            | ok _ a' ↦ finished a'
            | err e a' ↦ exited (say (error (text "wifi_sync_enable_failed") e) a')
          ]
          else elim (start (say (status (text "connecting_device")) a)) [
            | ok udid a' ↦ running udid a'
            | err _ a' ↦ finished (say (status (text "terminated")) a')
          ])
