-- ===== src/Input/Recovery.antt =====
-- `discard_stale_input_frames` and `recovered_transport_message` of src/main.rs, and the recovery
-- that the keyboard, button and touch handlers share.
pub mod Cleared
use i_usb_bridge.Prelude.{
  ℕ, zero, suc, ◌+◌, Bool, true, false, Option, none, some, List, [], ◌∷◌, ◌++◌, ◌==◌,
  if◌then◌else◌,
}
use i_usb_bridge.Prelude.Text.{Text, text}
use i_usb_bridge.Prelude.Action.{Result, ok, err}
use i_usb_bridge.Session.Device.{Device}
use i_usb_bridge.Session.Errors.{is_recoverable_usb_transport_error}
use i_usb_bridge.Session.Reconnect.{recover_hid_session}
use i_usb_bridge.Input.Message.{InputMessage, frame, failure}
use i_usb_bridge.Session.Event.{warning, error}
use i_usb_bridge.Input.State.{
  Host, Flow, continues, returns, breaks, emit, clear_input, monitor_task,
}

module _ {F : Type 0} where
  -- The frames of one burst of `try_recv` before an error, and the error.
  unfoldable pub take_burst : List (InputMessage F) → ℕ × Option Text
  take_burst [] = (0, none)
  take_burst (failure e ∷ later) = (0, some e)
  take_burst (frame _ ∷ later) = let (n, e) = take_burst later in (suc n, e)

  -- A poll for each list of messages that the channel holds when it is made; after the list the
  -- channel stays empty. `left` is the number of empty polls still wanted.
  unfoldable pub discard : ℕ → List (List (InputMessage F)) → ℕ × Option Text
  discard zero bursts = (0, none)
  discard (suc left) [] = (0, none)
  discard (suc left) (burst ∷ later) =
      let (n, e) = take_burst burst in
      let (more, e') = discard 3 later in
      let quiet = discard left later in
      elim e [ some message ↦ (n, some message) | none ↦ if n == 0 then quiet else (n + more, e') ]

  unfoldable pub discard_stale_input_frames : List (List (InputMessage F)) → ℕ × Option Text
  unfolding discard
  discard_stale_input_frames bursts = discard 3 bursts

-- `show` prints a number.
module _ (show : ℕ → Text) where
  unfoldable pub recovered_transport_message : Text → Text → ℕ → Text
  recovered_transport_message channel message discarded =
      if discarded == 0
      then channel ++ (text "通道短暂断开后已恢复: " ++ message)
      else channel
        ++ (text "通道短暂断开后已恢复，已丢弃恢复期间堆积的 " ++ (show discarded ++ (text " 条旧输入: " ++ message)))

-- What sets the three uses of the recovery apart.
pub record Channel : Type 0 where
  pub label : Text
  pub failed : Text

abbrev pub keyboard_channel : Channel
keyboard_channel = record { label = text "键盘"; failed = text "keyboard send failed: " }

abbrev pub button_channel : Channel
button_channel = record { label = text "按钮"; failed = text "button send failed: " }

abbrev pub touch_channel : Channel
touch_channel = record { label = text "触控"; failed = text "touch send failed: " }

-- The session as the loop knows it: its transport and the device's identifier.
pub record Link : Type 0 where
  pub over_usb : Bool
  pub direct : Bool
  pub udid : Text

module _ {World F : Type 0} (device : Device World) (describe_surfaces : List ℕ → Text)
    (show : ℕ → Text) (link : Link) where
  -- After a new session: throw away what was sent for the old one.
  unfoldable pub finish_recovery :
      Channel → Text → List (List (InputMessage F)) → Host World → Flow × Host World
  finish_recovery channel message bursts h =
      let (discarded, pending) = discard_stale_input_frames bursts in
      elim pending [
        | some e ↦ (returns, emit (error (text "bad_frame") e) h)
        | none ↦ (
          continues,
          emit
              (warning (text "hid_transport_recovered")
                (recovered_transport_message show (channel.label) message discarded))
              h,
        )
      ]

  -- A send that failed on a transport error. `recover_hid_session` drains the tasks, and pushes a
  -- new clipboard monitor when it has a session.
  unfoldable pub recover :
      Channel → Text → List (List (InputMessage F)) → Host World → Flow × Host World
  recover channel message bursts h0 =
      let h = clear_input (
        emit
          (warning (text "hid_transport_recovering")
            (channel.label ++ (text "通道暂时不可用，正在恢复: " ++ message)))
          h0) in
      elim (recover_hid_session device describe_surfaces (link.over_usb) (link.udid) h.world) [
        | ok _ w ↦
            finish_recovery channel message bursts
              (record h { world = w; tasks = monitor_task ∷ [] })
        | err e w ↦ (
          returns,
          emit
              (error (text "send_failed")
                (channel.failed ++ (message ++ (text "; recovery failed: " ++ e))))
              (record h { world = w; tasks = [] }),
        )
      ]

  -- The branch of a failed send in the three handlers.
  unfoldable pub send_failed :
      Channel → Text → List (List (InputMessage F)) → Host World → Flow × Host World
  send_failed channel message bursts h =
      let recovered = recover channel message bursts h in
      if is_recoverable_usb_transport_error message
      then recovered
      else (breaks, emit (error (text "send_failed") (channel.failed ++ message)) h)
