-- ===== src/Input/Tests.antt =====
-- Concrete runs of the loop and the session of src/main.rs, on a device that answers every call.
use i_usb_bridge.Prelude.{
  map, ℕ, ◌≡◌, refl, sym, ap, ◌||◌, Bool, true, false, none, some, List, [], ◌∷◌, arith, ◌==◌,
  if◌then◌else◌, inl,
}
use i_usb_bridge.Prelude.Table.{lookup}
use i_usb_bridge.Prelude.Text.{Text, text, contains, ascii_lower, to_ascii_lowercase}
use i_usb_bridge.Prelude.Action.{ok, err, TimedResult, in_time, elapsed}
use i_usb_bridge.Mux.Serial.{same_udid, eq_ignore_ascii_case}
use i_usb_bridge.Session.Device.{Device, ButtonState, down, up, canceled}
use i_usb_bridge.Session.Errors.{is_recoverable_usb_transport_error}
use i_usb_bridge.Session.Reconnect.{
  has_main_touchscreen, attempt, attempts, release_all, reconnect_direct_session,
  connect_session_with_ddi_recovery,
}
use i_usb_bridge.Session.Reconnect.Ready.{
  IsReady, reconnect_direct_session-IsReady, connect_session_with_ddi_recovery-IsReady,
}
use i_usb_bridge.Session.Event.{clipboard_text}
use i_usb_bridge.Session.Reconnect.Spelled.{taken_for_another, reconnect_direct_session_dash}
use i_usb_bridge.Input.Message.{InputPoint, InputFrame, frame}
use i_usb_bridge.Input.Slots.{allocate_slot}
use i_usb_bridge.Input.Slots.Valid.{IsValid, Outcome, allocate_slot-Outcome, allocate_slot-IsValid}
use i_usb_bridge.Input.Touch.{Coordinates, touch_batch}
use i_usb_bridge.Input.Touch.Consistent.{IsConsistent, touch_batch-IsConsistent}
use i_usb_bridge.Input.Keyboard.{v_key, elem, difference, send_each, set_keyboard_state, chord}
use i_usb_bridge.Input.Keyboard.Held.{KeyboardLaws, set_keyboard_state-Holds, chord-Holds}
use i_usb_bridge.Input.Clipboard.{
  clipboard_text_matches, confirm_loop, confirm_pasteboard_text,
  write_pasteboard_text_with_confirmation,
}
use i_usb_bridge.Input.Clipboard.Confirmed.{IsRead, write_pasteboard_text_with_confirmation-IsRead}
use i_usb_bridge.Input.Clipboard.Tasks.{
  Changes, changes, texts_read, monitor_clipboard, monitor_clipboard-Changes,
}
use i_usb_bridge.Input.State.{Host, continues, breaks, no_contacts, monitor_task}
use i_usb_bridge.Input.Recovery.{Link, touch_channel, send_failed}
use i_usb_bridge.Input.Recovery.Cleared.{IsCleared, send_failed-IsCleared}
use i_usb_bridge.Input.Handlers.Keep.{no_contacts-IsConsistent}
use i_usb_bridge.Input.Loop.{message, is_idle, health_due, schema_name, run}
use i_usb_bridge.Input.Loop.Invariant.{Advances, run-Advances}
use i_usb_bridge.Input.Loop.Health.{AlwaysFails, IsChecked, checks, run-six_failures}

-- The world is the set of the keys that the device holds.
abbrev Keys : Type 0
Keys = ℕ → Bool

abbrev pressing : ℕ → ButtonState → Keys → Keys
pressing u down w k = if u == k then true else w k
pressing u up w k = if u == k then false else w k
pressing u canceled w k = w k

abbrev phone : Device Keys
phone = record {
  send_keyboard = λ u state w. in_time (ok tt (pressing u state w));
  send_button = λ page code state w. in_time (ok tt w);
  build_multitouch_report = λ contacts timestamp. inl [];
  send_report = λ id report w. in_time (ok tt w);
  list_connected_services = λ w. ok (257 ∷ []) w;
  services_in_time = λ w. elapsed w;
  lock_pasteboard = λ w. (true, w);
  set_text = λ t w. in_time (ok tt w);
  get_text = λ w. in_time (ok (some (text "hello")) w);
  device_provider = λ transport w. ok (text "00-ab") w;
  connect_hid_session = λ w. ok tt w;
  connect_session = λ w. ok tt w;
  remote_pairing_transport = λ w. ok (text "00-ab") w;
  connect_session_from_transport = λ w. ok tt w;
  mount_local_ddi = λ force w. ok tt w;
  drop_session = λ w. w;
  sleep = λ ms w. w;
  abort_tasks = λ w. w;
  spawn_monitor = λ w. w;
}

abbrev nothing_pressed : Keys
nothing_pressed k = false

abbrev no_surfaces : List ℕ → Text
no_surfaces surfaces = text "no touchscreen"

reconnect_direct_session-IsReady_example : IsReady phone no_surfaces nothing_pressed
unfolding reconnect_direct_session attempts attempt release_all has_main_touchscreen
    eq_ignore_ascii_case
reconnect_direct_session-IsReady_example =
    reconnect_direct_session-IsReady phone no_surfaces true (text "00-AB") true nothing_pressed
      nothing_pressed refl

connect_session_with_ddi_recovery-IsReady_example : IsReady phone no_surfaces nothing_pressed
unfolding connect_session_with_ddi_recovery has_main_touchscreen
connect_session_with_ddi_recovery-IsReady_example =
    connect_session_with_ddi_recovery-IsReady phone no_surfaces nothing_pressed nothing_pressed refl

allocate_slot-Outcome_example : Outcome ((7, 1) ∷ []) 9 (allocate_slot ((7, 1) ∷ []) 9)
allocate_slot-Outcome_example = allocate_slot-Outcome ((7, 1) ∷ []) 9

one_slot-IsValid : IsValid ((7, 1) ∷ [])
unfolding lookup
one_slot-IsValid = record { in_range = λ p i h. ground arith; distinct = λ p q i h k. ground arith }

allocate_slot-IsValid_example : IsValid (allocate_slot ((7, 1) ∷ []) 9).1
allocate_slot-IsValid_example = allocate_slot-IsValid ((7, 1) ∷ []) 9 one_slot-IsValid

-- Coordinates are numbers already.
abbrev plain : Coordinates ℕ
plain = record { is_finite = λ v. true; in_unit = λ v. true; to_report = λ v. v }

abbrev point : ℕ → Text → InputPoint ℕ
point id action = record { pointer_id = id; action = action; normalized_x = 3; normalized_y = 4 }

touch_batch-IsConsistent_example :
    IsConsistent
      (touch_batch plain (point 5 (text "down") ∷ point 6 (text "down") ∷ []) no_contacts).0
touch_batch-IsConsistent_example =
    touch_batch-IsConsistent plain (point 5 (text "down") ∷ point 6 (text "down") ∷ []) no_contacts
      no_contacts-IsConsistent

world_of_ok :
    {v w : Keys}
    → ◌≡◌ {A = TimedResult Keys (Unit {0})} (in_time (ok tt v)) (in_time (ok tt w))
    → v ≡ w
world_of_ok h = cc

phone-KeyboardLaws : KeyboardLaws phone (λ w k. w k)
phone-KeyboardLaws = record {
  on_down = λ u w w' h k. ap (λ (v : Keys). v k) (sym (world_of_ok h));
  on_up = λ u w w' h k. ap (λ (v : Keys). v k) (sym (world_of_ok h));
  on_sleep = λ ms w k. refl;
}

-- From the keys 4 and 5 to the keys 5 and 6.
abbrev before_change : Keys
before_change k = (k == 4) || (k == 5)

abbrev after_change : Keys
after_change = pressing 4 up (pressing 6 down before_change)

set_keyboard_state-Holds_example : after_change 4 ≡ elem 4 (5 ∷ 6 ∷ [])
unfolding set_keyboard_state send_each difference elem
set_keyboard_state-Holds_example =
    set_keyboard_state-Holds phone (λ w k. w k) phone-KeyboardLaws (4 ∷ 5 ∷ []) (5 ∷ 6 ∷ [])
      before_change after_change refl (λ k. ground arith) 4

abbrev after_chord : Keys
after_chord = pressing 227 up (
    pressing 4 down
      (pressing v_key up (pressing v_key down (pressing 4 up (pressing 227 down (λ k. k == 4))))))

chord-Holds_example : after_chord v_key ≡ elem v_key (4 ∷ [])
unfolding chord set_keyboard_state send_each difference elem
chord-Holds_example =
    chord-Holds phone (λ w k. w k) phone-KeyboardLaws v_key (4 ∷ []) (λ k. k == 4) after_chord refl
      (λ k. ground arith) v_key

write_pasteboard_text_with_confirmation-IsRead_example : IsRead phone (text "hello") nothing_pressed
unfolding write_pasteboard_text_with_confirmation confirm_pasteboard_text confirm_loop
    clipboard_text_matches
write_pasteboard_text_with_confirmation-IsRead_example =
    write_pasteboard_text_with_confirmation-IsRead phone (text "hello") nothing_pressed
      nothing_pressed refl

abbrev show_number : ℕ → Text
show_number n = n ∷ []

abbrev wireless : Link
wireless = record { over_usb = false; direct = false; udid = text "00-AB" }

abbrev start : Host Keys
start = record {
  world = nothing_pressed;
  contacts = no_contacts;
  pressed_keys = [];
  pressed_buttons = [];
  last_sequence = some 2;
  health_failures = 0;
  tasks = monitor_task ∷ [];
  events = [];
}

send_failed-IsCleared_example : IsCleared (
    send_failed {F = ℕ} phone no_surfaces show_number wireless touch_channel
      (text "Broken pipe")
      []
      (record start { pressed_keys = 4 ∷ [] }))
unfolding is_recoverable_usb_transport_error contains to_ascii_lowercase ascii_lower
send_failed-IsCleared_example =
    send_failed-IsCleared phone no_surfaces show_number wireless touch_channel (text "Broken pipe")
      [] (record start { pressed_keys = 4 ∷ [] }) refl

-- The phone reports its identifier with a dash.
reconnect_direct_session_dash_example :
    (same_udid (text "00-ab") (text "00ab") ≡ true)
    × ((w' : Keys) × (reconnect_direct_session phone no_surfaces true
            (text "00ab")
            true
            nothing_pressed
          ≡ err (taken_for_another (text "00") (text "ab")) w'))
reconnect_direct_session_dash_example =
    reconnect_direct_session_dash phone no_surfaces (text "00") (text "ab") (λ w. (w, refl)) true
      nothing_pressed

abbrev batch : InputFrame ℕ
batch = record {
  schema = schema_name;
  kind = text "touch_batch";
  points = point 5 (text "down") ∷ [];
  usages = [];
  usage_page = 0;
  usage_code = 0;
  state = [];
  pasted = [];
  seq = some 3;
  timestamp_ns = none;
}

run-Advances_example :
    Advances start
      (run phone no_surfaces show_number wireless plain
        (message (frame batch) [] true ∷ health_due ∷ [])
        start).1
run-Advances_example =
    run-Advances phone no_surfaces show_number wireless plain
      (message (frame batch) [] true ∷ health_due ∷ []) start

no_service : AlwaysFails phone no_surfaces show_number wireless plain
no_service w w' surfaces h = absurd (cc)

start-IsChecked : IsChecked phone no_surfaces show_number wireless plain start
unfolding is_idle
start-IsChecked = record { not_direct = refl; idle = refl }

run-six_failures_example :
    ((run phone no_surfaces show_number wireless plain (checks 6 []) start).0 ≡ breaks)
    × ((run phone no_surfaces show_number wireless plain (checks 5 []) start).0 ≡ continues)
run-six_failures_example =
    run-six_failures phone no_surfaces show_number wireless plain 5 [] start no_service
      start-IsChecked refl (omega arith)

monitor_clipboard-Changes_example :
    ((monitor_clipboard phone (true ∷ false ∷ true ∷ []) none nothing_pressed).0
      ≡ map clipboard_text
          (changes none (texts_read phone (true ∷ false ∷ true ∷ []) nothing_pressed)))
    × Changes phone none (monitor_clipboard phone (true ∷ false ∷ true ∷ []) none nothing_pressed).0
monitor_clipboard-Changes_example =
    monitor_clipboard-Changes phone (true ∷ false ∷ true ∷ []) none nothing_pressed
