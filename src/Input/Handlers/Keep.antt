-- ===== src/Input/Handlers/Keep.antt =====
-- What every handler of the loop in src/main.rs keeps, on each of its branches.
use i_usb_bridge.Prelude.{
  ℕ, ◌≤◌, ◌≡◌, ◌⊎◌, refl, inl, inr, Bool, true, false, ◌||◌, Option, List, [], ◌∷◌, ◌++◌, arith,
  ltb, ◌==◌, if◌then◌else◌, any, keep, length, All, Bool-cases, Option-cases,
}
use i_usb_bridge.Prelude.Table.{lookup}
use i_usb_bridge.Prelude.Bytes.{Bytes}
use i_usb_bridge.Prelude.Text.{Text, text}
use i_usb_bridge.Prelude.Action.{within, Result-cases}
use i_usb_bridge.Session.Device.{Device, Contact, ButtonState, down, up, canceled, main_touchscreen}
use i_usb_bridge.Session.Errors.{is_recoverable_usb_transport_error}
use i_usb_bridge.Session.Reconnect.{recover_hid_session}
use i_usb_bridge.Input.Message.{InputFrame}
use i_usb_bridge.Input.Slots.{max_slots}
use i_usb_bridge.Input.Touch.{Coordinates, Contacts, touch_batch, has_bad_point}
use i_usb_bridge.Input.Touch.Consistent.{IsConsistent, touch_batch-IsConsistent}
use i_usb_bridge.Input.Keyboard.{elem, set_keyboard_state}
use i_usb_bridge.Input.Clipboard.{confirmed, accepted_but_unconfirmed, paste_text}
use i_usb_bridge.Session.Event.{warning}
use i_usb_bridge.Input.State.{Host, no_contacts, clear_input, emit, monitor_task}
use i_usb_bridge.Input.Recovery.{
  Link, Channel, discard_stale_input_frames, finish_recovery, recover, send_failed,
  keyboard_channel, button_channel, touch_channel,
}
use i_usb_bridge.Input.Handlers.{
  Buttons, Bursts, remove_button, insert_button, hold_button, button_state, collect,
  handle_keyboard, handle_button, handle_paste, send_touch, handle_touch,
}

-- A usage that fits the keyboard report, and a button whose page and code fit sixteen bits.
abbrev pub IsKey : ℕ → Type 0
IsKey u = u ≤ 239

abbrev pub IsButton : ℕ × ℕ → Type 0
IsButton (page, code) = (page ≤ 65535) × (code ≤ 65535)

pub record IsHeld (contacts : Contacts) (keys : List ℕ) (buttons : Buttons) : Type 0 where
  pub consistent : IsConsistent contacts
  pub keys_fit : All IsKey keys
  pub buttons_fit : All IsButton buttons

-- What the loop holds is well formed.
abbrev pub IsWell : {World : Type 0} → Host World → Type 0
IsWell h = IsHeld h.contacts h.pressed_keys h.pressed_buttons

pub record Keeps {World : Type 0} (h h' : Host World) : Type 0 where
  pub sequence : h'.last_sequence ≡ h.last_sequence
  pub well : IsWell h → IsWell h'

pub no_contacts-IsConsistent : IsConsistent no_contacts
unfolding lookup
no_contacts-IsConsistent = record {
  valid = record { in_range = λ p i h. absurd (cc); distinct = λ p q i h k. absurd (cc) };
  matched = λ p c h. absurd (cc);
  held = λ p i h. absurd (cc);
}

All-keep :
    {A : Type 0} (P : A → Type 0) (test : A → Bool) (xs : List A) → All P xs → All P (keep test xs)
All-keep P test [] a = tt
All-keep P test (x ∷ xs) (p, a) = elim (Bool-cases (test x)) [
  | inl e ↦ rw (e, All) (p, All-keep P test xs a)
  | inr e ↦ rw (e, All) (All-keep P test xs a)
]

if-All :
    {A : Type 0} (P : A → Type 0) (b : Bool) (x : A) (xs : List A)
    → P x
    → All P xs
    → All P (if b then xs else x ∷ xs)
if-All P true x xs p a = a
if-All P false x xs p a = (p, a)

collect-All : (us : List ℕ) → All IsKey us → All IsKey (collect us)
unfolding collect
collect-All [] a = tt
collect-All (u ∷ us) (p, a) = if-All IsKey (elem u (collect us)) u (collect us) p (collect-All us a)

keys_fit_of : (us : List ℕ) → any (λ u. ltb 239 u) us ≡ false → All IsKey us
keys_fit_of [] h = tt
keys_fit_of (u ∷ us) h = (ground arith, keys_fit_of us (ground arith))

hold_button-All :
    (state : ButtonState) (b : ℕ × ℕ) (bs : Buttons)
    → IsButton b
    → All IsButton bs
    → All IsButton (hold_button state b bs)
unfolding insert_button remove_button
hold_button-All down b bs p a = (p, All-keep IsButton _ bs a)
hold_button-All up b bs p a = All-keep IsButton _ bs a
hold_button-All canceled b bs p a = All-keep IsButton _ bs a

module _ {World F : Type 0} (device : Device World) (describe_surfaces : List ℕ → Text)
    (show : ℕ → Text) (link : Link) where
  finish_recovery-Keeps :
      (channel : Channel) (message : Text) (bursts : Bursts F) (h : Host World)
      → Keeps h (finish_recovery device describe_surfaces show link channel message bursts h).1
  unfolding finish_recovery
  finish_recovery-Keeps channel message bursts h =
      elim (Option-cases (discard_stale_input_frames bursts).1) [
        | inl e ↦ rw (e, finish_recovery) (record { sequence = refl; well = λ v. v })
        | inr (m, e) ↦ rw (e, finish_recovery) (record { sequence = refl; well = λ v. v })
      ]

  recover-Keeps :
      (channel : Channel) (message : Text) (bursts : Bursts F) (h : Host World)
      → Keeps h (recover device describe_surfaces show link channel message bursts h).1
  unfolding recover clear_input
  recover-Keeps channel message bursts h =
      elim (Result-cases
        (recover_hid_session device describe_surfaces (link.over_usb) (link.udid) h.world)) [
          | inr (e, w, f) ↦ rw (f, recover) (record { sequence = refl; well = λ v. nothing_held })
          | inl (_, w, f) ↦
              let k = finish_recovery-Keeps channel message bursts (recovered w) in
              rw (f, recover) (record { sequence = k.sequence; well = λ v. k.well nothing_held })
        ]
    where
      nothing_held : IsHeld no_contacts [] []
      nothing_held = record {
        consistent = no_contacts-IsConsistent;
        keys_fit = tt;
        buttons_fit = tt;
      }

      recovered : World → Host World
      recovered w =
          record (clear_input (
            emit
              (warning (text "hid_transport_recovering")
                (channel.label ++ (text "通道暂时不可用，正在恢复: " ++ message)))
              h)) { world = w; tasks = monitor_task ∷ [] }

  send_failed-Keeps :
      (channel : Channel) (message : Text) (bursts : Bursts F) (h : Host World)
      → Keeps h (send_failed device describe_surfaces show link channel message bursts h).1
  unfolding send_failed
  send_failed-Keeps channel message bursts h =
      elim (Bool-cases (is_recoverable_usb_transport_error message)) [
        | inl e ↦ rw (e, send_failed) (recover-Keeps channel message bursts h)
        | inr e ↦ rw (e, send_failed) (record { sequence = refl; well = λ v. v })
      ]

  module _ (coordinates : Coordinates F) where
    pub handle_keyboard-Keeps :
        (f : InputFrame F) (bursts : Bursts F) (h : Host World)
        → Keeps h (handle_keyboard device describe_surfaces show link coordinates f bursts h).1
    unfolding handle_keyboard
    handle_keyboard-Keeps f bursts h =
        elim (Bool-cases (ltb 30 (length (f.usages)) || any (λ u. ltb 239 u) (f.usages))) [
          | inl bad ↦ rw (bad, handle_keyboard) (record { sequence = refl; well = λ v. v })
          | inr fine ↦
              elim (Result-cases
                (set_keyboard_state device h.pressed_keys (collect (f.usages)) h.world)) [
                  | inl (_, w, e) ↦
                      rw (fine, e, handle_keyboard)
                        (record {
                          sequence = refl;
                          well = λ v. record {
                            consistent = v.consistent;
                            keys_fit =
                                collect-All (f.usages) (keys_fit_of (f.usages) (ground arith));
                            buttons_fit = v.buttons_fit;
                          };
                        })
                  | inr (m, w, e) ↦
                      let k =
                        send_failed-Keeps keyboard_channel m bursts (record h { world = w }) in
                      rw (fine, e, handle_keyboard)
                        (record { sequence = k.sequence; well = k.well })
                ]
        ]

    pub handle_button-Keeps :
        (f : InputFrame F) (bursts : Bursts F) (h : Host World)
        → Keeps h (handle_button device describe_surfaces show link coordinates f bursts h).1
    unfolding handle_button
    handle_button-Keeps f bursts h = elim (Option-cases (button_state (f.state))) [
      | inl bad ↦ rw (bad, handle_button) (record { sequence = refl; well = λ v. v })
      | inr (state, known) ↦
          elim (Bool-cases (ltb 65535 (f.usage_page) || ltb 65535 (f.usage_code))) [
            | inl bad ↦ rw (known, bad, handle_button) (record { sequence = refl; well = λ v. v })
            | inr fine ↦
                elim (Result-cases (
                  within (text "button operation timed out")
                    (device.send_button (f.usage_page) (f.usage_code) state) h.world)) [
                      | inl (_, w, e) ↦
                          rw (known, fine, e, handle_button)
                            (record {
                              sequence = refl;
                              well = λ v. record {
                                consistent = v.consistent;
                                keys_fit = v.keys_fit;
                                buttons_fit =
                                    hold_button-All state (f.usage_page, f.usage_code)
                                      h.pressed_buttons (ground arith, ground arith) v.buttons_fit;
                              };
                            })
                      | inr (m, w, e) ↦
                          let k =
                            send_failed-Keeps button_channel m bursts (record h { world = w }) in
                          rw (known, fine, e, handle_button)
                            (record { sequence = k.sequence; well = k.well })
                    ]
          ]
    ]

    pub handle_paste-Keeps :
        (f : InputFrame F) (free : Bool) (h : Host World)
        → Keeps h (handle_paste device describe_surfaces show link coordinates f free h).1
    unfolding handle_paste
    handle_paste-Keeps f false h = record { sequence = refl; well = λ v. v }
    handle_paste-Keeps f true h =
        elim (Result-cases (paste_text device h.pressed_keys (f.pasted) h.world)) [
          | inl (confirmed, w, e) ↦ rw (e, handle_paste) (record { sequence = refl; well = λ v. v })
          | inl (accepted_but_unconfirmed m, w, e) ↦
              rw (e, handle_paste) (record { sequence = refl; well = λ v. v })
          | inr (m, w, e) ↦ rw (e, handle_paste) (record { sequence = refl; well = λ v. v })
        ]

    send_touch-Keeps :
        (contacts : List Contact) (timestamp : Option ℕ) (bursts : Bursts F) (h : Host World)
        → Keeps h
            (send_touch device describe_surfaces show link coordinates contacts timestamp bursts
              h).1
    unfolding send_touch
    send_touch-Keeps [] timestamp bursts h = record { sequence = refl; well = λ v. v }
    send_touch-Keeps (c ∷ cs) timestamp bursts h =
        sent (device.build_multitouch_report (c ∷ cs) timestamp) refl
      where
        sent :
            (built : Bytes ⊎ Text)
            → device.build_multitouch_report (c ∷ cs) timestamp ≡ built
            → Keeps h
                (send_touch device describe_surfaces show link coordinates
                  (c ∷ cs)
                  timestamp
                  bursts
                  h).1
        sent (inr m) b = rw (b, send_touch) (record { sequence = refl; well = λ v. v })
        sent (inl report) b =
            elim (Result-cases (
              within (text "touch operation timed out") (device.send_report main_touchscreen report)
                h.world)) [
                  | inl (_, w, e) ↦
                      rw (b, e, send_touch) (record { sequence = refl; well = λ v. v })
                  | inr (m, w, e) ↦
                      let k = send_failed-Keeps touch_channel m bursts (record h { world = w }) in
                      rw (b, e, send_touch) (record { sequence = k.sequence; well = k.well })
                ]

    pub handle_touch-Keeps :
        (f : InputFrame F) (bursts : Bursts F) (h : Host World)
        → Keeps h (handle_touch device describe_surfaces show link coordinates f bursts h).1
    unfolding handle_touch
    handle_touch-Keeps f bursts h =
        elim (Bool-cases ((length (f.points) == 0) || ltb max_slots (length (f.points)))) [
          | inl bad ↦ rw (bad, handle_touch) (record { sequence = refl; well = λ v. v })
          | inr fine ↦ elim (Bool-cases (has_bad_point coordinates [] (f.points))) [
            | inl bad ↦ rw (fine, bad, handle_touch) (record { sequence = refl; well = λ v. v })
            | inr good ↦
                let k =
                  send_touch-Keeps (touch_batch coordinates (f.points) h.contacts).1 _ bursts
                    (record h { contacts = (touch_batch coordinates (f.points) h.contacts).0 }) in
                rw (fine, good, handle_touch)
                  (record {
                    sequence = k.sequence;
                    well = λ v. k.well (record {
                      consistent =
                          touch_batch-IsConsistent coordinates (f.points) h.contacts v.consistent;
                      keys_fit = v.keys_fit;
                      buttons_fit = v.buttons_fit;
                    });
                  })
          ]
        ]
