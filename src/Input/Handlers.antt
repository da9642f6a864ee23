-- ===== src/Input/Handlers.antt =====
-- The handlers of the loop in src/main.rs, one for each kind of message.
pub mod Keep
use i_usb_bridge.Prelude.{
  ℕ, Bool, true, false, not, ◌&&◌, ◌||◌, Option, none, some, List, [], ◌∷◌, ◌++◌, ltb, ◌==◌,
  if◌then◌else◌, any, keep, length, inl, inr,
}
use i_usb_bridge.Prelude.Text.{Text, text, text_eq}
use i_usb_bridge.Prelude.Action.{Result, ok, err, Action, within}
use i_usb_bridge.Session.Device.{Device, Contact, ButtonState, down, up, canceled, main_touchscreen}
use i_usb_bridge.Input.Message.{InputMessage, InputFrame, InputPoint}
use i_usb_bridge.Input.Slots.{max_slots}
use i_usb_bridge.Input.Touch.{
  Coordinates, Points, Contacts, has_bad_point, touch_batch, truncate_timestamp,
}
use i_usb_bridge.Input.Keyboard.{elem, set_keyboard_state}
use i_usb_bridge.Input.Clipboard.{Confirmation, confirmed, accepted_but_unconfirmed, paste_text}
use i_usb_bridge.Session.Event.{Event, warning, error, paste_complete, paste_failed}
use i_usb_bridge.Input.State.{
  Host, Flow, continues, breaks, returns, throws, emit, copy_task, read_task,
}
use i_usb_bridge.Input.Recovery.{Link, keyboard_channel, button_channel, touch_channel, send_failed}

abbrev pub Buttons : Type 0
Buttons = List (ℕ × ℕ)

unfoldable pub same_button : ℕ × ℕ → ℕ × ℕ → Bool
same_button (page, code) (page', code') = (page == page') && (code == code')

unfoldable pub remove_button : ℕ × ℕ → Buttons → Buttons
unfolding same_button
remove_button b = keep (λ b'. not (same_button b' b))

unfoldable pub insert_button : ℕ × ℕ → Buttons → Buttons
unfolding remove_button
insert_button b bs = b ∷ remove_button b bs

-- The set that the collected usages make: each once.
unfoldable pub collect : List ℕ → List ℕ
collect [] = []
collect (u ∷ us) = let rest = collect us in if elem u rest then rest else u ∷ rest

unfoldable pub button_state : Text → Option ButtonState
button_state t =
    if text_eq t (text "down")
    then some down
    else if text_eq t (text "up")
    then some up
    else if text_eq t (text "canceled")
    then some canceled
    else none

abbrev pub hold_button : ButtonState → ℕ × ℕ → Buttons → Buttons
hold_button down b bs = insert_button b bs
hold_button up b bs = remove_button b bs
hold_button canceled b bs = remove_button b bs

abbrev pub Bursts : Type 0 → Type 0
Bursts F = List (List (InputMessage F))

module _ {World F : Type 0} (device : Device World) (describe_surfaces : List ℕ → Text)
    (show : ℕ → Text) (link : Link) (coordinates : Coordinates F) where
  open device use {send_button, build_multitouch_report, send_report, lock_pasteboard}

  abbrev pub stop_with : Text → Text → Host World → Flow × Host World
  stop_with code message h = (breaks, emit (error code message) h)

  unfoldable pub handle_keyboard : InputFrame F → Bursts F → Host World → Flow × Host World
  unfolding collect
  handle_keyboard f bursts h =
      let next = collect (f.usages) in
      if ltb 30 (length (f.usages)) || any (λ u. ltb 239 u) (f.usages)
      then stop_with (text "invalid_keyboard_batch") (text "keyboard usage list is invalid") h
      else elim (set_keyboard_state device h.pressed_keys next h.world) [
        | ok _ w ↦ (continues, record h { world = w; pressed_keys = next })
        | err e w ↦
            send_failed device describe_surfaces show link keyboard_channel e bursts
              (record h { world = w })
      ]

  unfoldable pub handle_button : InputFrame F → Bursts F → Host World → Flow × Host World
  unfolding button_state
  handle_button f bursts h = elim (button_state (f.state)) [
    | none ↦
        stop_with (text "invalid_button_state") (text "button state must be down, up, or canceled")
          h
    | some state ↦
        if ltb 65535 (f.usage_page) || ltb 65535 (f.usage_code)
        then stop_with (text "invalid_button_usage")
            (text "button usage page and code must fit in 16 bits") h
        else elim (within (text "button operation timed out")
            (send_button (f.usage_page) (f.usage_code) state) h.world) [
              | ok _ w ↦ (
                continues,
                record h {
                  world = w;
                  pressed_buttons =
                      hold_button state (f.usage_page, f.usage_code) h.pressed_buttons;
                },
              )
              | err e w ↦
                  send_failed device describe_surfaces show link button_channel e bursts
                    (record h { world = w })
            ]
  ]

  -- `free` says that the clipboard gate was free within three seconds.
  unfoldable pub handle_paste : InputFrame F → Bool → Host World → Flow × Host World
  handle_paste f free h =
      if not free
      then (
        continues,
        emit (paste_failed (f.seq) (text "a clipboard operation is already in progress")) h,
      )
      else elim (paste_text device h.pressed_keys (f.pasted) h.world) [
        | ok c w ↦ elim c [
          | confirmed ↦ (continues, emit (paste_complete (f.seq)) (record h { world = w }))
          | accepted_but_unconfirmed m ↦ (
            continues,
            emit (paste_complete (f.seq))
                (emit (warning (text "clipboard_paste_unconfirmed") m) (record h { world = w })),
          )
        ]
        | err e w ↦ (continues, emit (paste_failed (f.seq) e) (record h { world = w }))
      ]

  -- `copy_selection` and `read_clipboard` only start a task.
  unfoldable pub handle_copy : Host World → Flow × Host World
  handle_copy h = (continues, record h { tasks = h.tasks ++ (copy_task h.pressed_keys ∷ []) })

  unfoldable pub handle_read : Host World → Flow × Host World
  handle_read h = (continues, record h { tasks = h.tasks ++ (read_task ∷ []) })

  abbrev is_empty_list : {A : Type 0} → List A → Bool
  is_empty_list [] = true
  is_empty_list (a ∷ more) = false

  -- The report of a batch, and what its sending comes to.
  unfoldable pub send_touch : List Contact → Option ℕ → Bursts F → Host World → Flow × Host World
  send_touch contacts timestamp bursts h =
      if is_empty_list contacts
      then (continues, h)
      else elim (build_multitouch_report contacts timestamp) [
        | inr _ ↦ (throws, h)
        | inl report ↦
            elim (within (text "touch operation timed out") (send_report main_touchscreen report)
              h.world) [
                | ok _ w ↦ (continues, record h { world = w })
                | err e w ↦
                    send_failed device describe_surfaces show link touch_channel e bursts
                      (record h { world = w })
              ]
      ]

  unfoldable pub handle_touch : InputFrame F → Bursts F → Host World → Flow × Host World
  unfolding send_touch
  handle_touch f bursts h =
      let (contacts, report) = touch_batch coordinates (f.points) h.contacts in
      if (length (f.points) == 0) || ltb max_slots (length (f.points))
      then stop_with (text "invalid_touch_batch") (text "touch batch must contain 1 to 5 points") h
      else if has_bad_point coordinates [] (f.points)
      then stop_with (text "invalid_touch_point")
          (text "touch point has a duplicate pointer id, invalid action, or invalid coordinate") h
      else send_touch report
          (elim (f.timestamp_ns) [ none ↦ none | some t ↦ some (truncate_timestamp t) ]) bursts
          (record h { contacts = contacts })
