-- ===== src/Input/Loop.antt =====
-- The loop of `main` in src/main.rs: what wakes it, the checks on a frame, and the clean-up.
pub mod Invariant
pub mod Health
use i_usb_bridge.Prelude.{
  ℕ, ◌+◌, Bool, true, false, not, ◌&&◌, ◌||◌, Option, none, some, List, [], ◌∷◌, ◌++◌, ltb, leb,
  ◌==◌, if◌then◌else◌, min,
}
use i_usb_bridge.Prelude.Text.{Text, text, text_eq}
use i_usb_bridge.Prelude.Action.{Result, ok, err, TimedResult, in_time, elapsed, Action, state_of}
use i_usb_bridge.Session.Device.{Device, up}
use i_usb_bridge.Session.Reconnect.{has_main_touchscreen, reconnect_direct_session, release_all}
use i_usb_bridge.Input.Message.{InputMessage, InputFrame, frame, failure}
use i_usb_bridge.Input.Touch.{Coordinates, Contacts}
use i_usb_bridge.Input.Keyboard.{v_key, command_key}
use i_usb_bridge.Session.Event.{Event, status, error}
use i_usb_bridge.Input.State.{
  Host, Flow, continues, breaks, returns, throws, emit, no_contacts, monitor_task,
}
use i_usb_bridge.Input.Recovery.{Link}
use i_usb_bridge.Input.Handlers.{
  Bursts, handle_keyboard, handle_button, handle_paste, handle_copy, handle_read, handle_touch,
}

-- What `select!` wakes up to, with what the channel and the clipboard gate do meanwhile.
pub data Wake (F : Type 0) : Type 0 where
  message : InputMessage F → List (List (InputMessage F)) → Bool → Wake F
  closed : Wake F
  rotation_due : Wake F
  health_due : Wake F

abbrev pub schema_name : Text
schema_name = text "iphoneMirror.touch.v2"

unfoldable pub is_kind : Text → Bool
is_kind kind =
    text_eq kind (text "touch_batch")
    || (text_eq kind (text "keyboard_batch")
        || (text_eq kind (text "button_event")
            || (text_eq kind (text "paste_text")
                || (text_eq kind (text "copy_selection") || text_eq kind (text "read_clipboard")))))

-- Is the sequence number of a frame no larger than the last one?
unfoldable pub is_stale : Option ℕ → Option ℕ → Bool
is_stale none last = false
is_stale (some seq) none = false
is_stale (some seq) (some previous) = leb seq previous

abbrev pub newest : Option ℕ → Option ℕ → Option ℕ
newest none last = last
newest (some seq) last = some seq

abbrev pub failure_threshold : ℕ
failure_threshold = 6

abbrev pub nothing : {A : Type 0} → List A → Bool
nothing [] = true
nothing (a ∷ more) = false

module _ {World F : Type 0} (device : Device World) (describe_surfaces : List ℕ → Text)
    (show : ℕ → Text) (link : Link) (coordinates : Coordinates F) where
  open device use {services_in_time, abort_tasks, spawn_monitor, send_keyboard}

  -- No contact, key or button is held.
  unfoldable pub is_idle : Host World → Bool
  is_idle h = nothing (h.contacts.active) && (nothing h.pressed_keys && nothing h.pressed_buttons)

  unfoldable pub rotate : Host World → Flow × Host World
  rotate h0 =
      let h = emit (status (text "direct_hid_rotating")) h0 in
      elim (reconnect_direct_session device describe_surfaces (link.over_usb) (link.udid) false
        (abort_tasks h.world)) [
          | ok _ w ↦ (
            continues,
            emit (status (text "direct_hid_rotated")) (record h {
              world = spawn_monitor w;
              contacts = no_contacts;
              tasks = monitor_task ∷ [];
            }),
          )
          | err e w ↦ (
            returns,
            emit (error (text "direct_hid_rotation_failed") e) (record h { world = w; tasks = [] }),
          )
        ]

  -- A check that failed: `saturating_add`, and the end of the loop at the threshold.
  unfoldable pub count_failure : Text → Text → Host World → Flow × Host World
  count_failure code m h =
      let failures : ℕ = min (h.health_failures + 1) 255 in
      let h' = record h { health_failures = failures } in
      if ltb failures failure_threshold then (continues, h') else (breaks, emit (error code m) h')

  unfoldable pub check_health : Host World → Flow × Host World
  unfolding count_failure
  check_health h = elim (services_in_time h.world) [
    | elapsed w ↦
        count_failure (text "hid_health_check_timeout")
          (text "Universal HID health check timed out") (record h { world = w })
    | in_time r ↦ elim r [
      | err e w ↦ count_failure (text "hid_health_check_failed") e (record h { world = w })
      | ok surfaces w ↦
          if has_main_touchscreen surfaces
          then (continues, record h { world = w; health_failures = 0 })
          else count_failure (text "touch_surface_unavailable") (describe_surfaces surfaces)
              (record h { world = w })
    ]
  ]

  -- The handler that the kind of a checked frame chooses.
  unfoldable pub choose :
      InputFrame F → List (List (InputMessage F)) → Bool → Host World → Flow × Host World
  choose f bursts free h =
      if text_eq (f.kind) (text "keyboard_batch")
      then handle_keyboard device describe_surfaces show link coordinates f bursts h
      else if text_eq (f.kind) (text "button_event")
      then handle_button device describe_surfaces show link coordinates f bursts h
      else if text_eq (f.kind) (text "paste_text")
      then handle_paste device describe_surfaces show link coordinates f free h
      else if text_eq (f.kind) (text "copy_selection")
      then handle_copy device describe_surfaces show link coordinates h
      else if text_eq (f.kind) (text "read_clipboard")
      then handle_read device describe_surfaces show link coordinates h
      else handle_touch device describe_surfaces show link coordinates f bursts h

  unfoldable pub handle_frame :
      InputFrame F → List (List (InputMessage F)) → Bool → Host World → Flow × Host World
  unfolding choose
  handle_frame f bursts free h =
      if not (text_eq (f.schema) schema_name) || not (is_kind (f.kind))
      then (
        breaks,
        emit (error (text "invalid_message") (text "unsupported schema or message kind")) h,
      )
      else if is_stale (f.seq) h.last_sequence
      then (
        breaks,
        emit (error (text "invalid_sequence") (text "message sequence must increase monotonically"))
            h,
      )
      else choose f bursts free (record h { last_sequence = newest (f.seq) h.last_sequence })

  -- One round of the loop. A timer whose guard does not hold wakes nothing.
  unfoldable pub round : Wake F → Host World → Flow × Host World
  unfolding handle_frame rotate check_health
  round closed h = (breaks, h)
  round (message (failure e) bursts free) h = (breaks, emit (error (text "bad_frame") e) h)
  round (message (frame f) bursts free) h = handle_frame f bursts free h
  round rotation_due h =
      if (link.over_usb) && ((link.direct) && is_idle h) then rotate h else (continues, h)
  round health_due h =
      if not ((link.over_usb) && (link.direct)) && is_idle h then check_health h else (continues, h)

  -- The ups that are sent under one timeout of three seconds: what an up answers is ignored, but one
  -- that takes too long is the last.
  unfoldable pub release_keys : List ℕ → World → World
  release_keys [] w = w
  release_keys (u ∷ us) w = elim (send_keyboard u up w) [
    | elapsed w' ↦ w'
    | in_time r ↦ release_keys us (state_of r)
  ]

  -- After the loop: the contacts, the synthetic chord and the keys are released.
  unfoldable pub clean_up : Host World → Host World
  unfolding release_keys
  clean_up h =
      let w = state_of (release_all device describe_surfaces (abort_tasks h.world)) in
      record h { world = release_keys (v_key ∷ command_key ∷ h.pressed_keys) w; tasks = [] }

  unfoldable pub run : List (Wake F) → Host World → Flow × Host World
  unfolding round clean_up
  run [] h = (continues, h)
  run (w ∷ later) h =
      let (flow, h') = round w h in
      elim flow [
        | continues ↦ run later h'
        | breaks ↦ (breaks, clean_up h')
        | returns ↦ (returns, h')
        | throws ↦ (throws, h')
      ]
