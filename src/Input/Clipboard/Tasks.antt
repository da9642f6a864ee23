-- ===== src/Input/Clipboard/Tasks.antt =====
-- The background tasks on the pasteboard: `copy_selection`, `emit_clipboard_snapshot` and
-- `monitor_clipboard` of src/main.rs, with the events that they write.
use i_usb_bridge.Prelude.{
  ℕ, ◌≡◌, Bool, true, false, Option, none, some, List, [], ◌∷◌, ◌++◌, inl, inr, Bool-cases, map, ap,
  refl,
}
use i_usb_bridge.Prelude.Text.{Text, text, text_eq}
use i_usb_bridge.Prelude.Action.{Result, ok, err, Result-cases}
use i_usb_bridge.Session.Device.{Device}
use i_usb_bridge.Session.Event.{Event, clipboard_text, warning}
use i_usb_bridge.Input.Keyboard.{c_key, chord}
use i_usb_bridge.Input.Clipboard.{read_clipboard_text}

abbrev is_known : Option Text → Text → Bool
is_known none t = false
is_known (some last) t = text_eq last t

-- The texts that differ from the one before.
unfoldable pub changes : Option Text → List Text → List Text
changes last [] = []
changes last (t ∷ later) = elim (is_known last t) [
  | true ↦ changes last later
  | false ↦ t ∷ changes (some t) later
]

-- The sleeps before the snapshots that follow a copy, in milliseconds.
abbrev pub snapshot_delays : List ℕ
snapshot_delays = 120 ∷ 240 ∷ 480 ∷ 800 ∷ 1200 ∷ []

module _ {World : Type 0} (device : Device World) where
  open device use {sleep}

  unfoldable pub emit_clipboard_snapshot : World → Event × World
  emit_clipboard_snapshot w = elim (read_clipboard_text device w) [
    | ok t w' ↦ (clipboard_text t, w')
    | err e w' ↦ (warning (text "clipboard_read_failed") e, w')
  ]

  unfoldable pub snapshots : List ℕ → World → List Event × World
  unfolding emit_clipboard_snapshot
  snapshots [] w = ([], w)
  snapshots (delay ∷ later) w =
      let (event, w1) = emit_clipboard_snapshot (sleep delay w) in
      let (events, w2) = snapshots later w1 in (event ∷ events, w2)

  -- The events, and whether the chord was sent.
  unfoldable pub copy_selection : List ℕ → World → List Event × Result World (Unit {0})
  unfolding snapshots
  copy_selection pressed w = elim (chord device c_key pressed w) [
    | err e w' ↦ ([], err e w')
    | ok _ w' ↦ let (events, w1) = snapshots snapshot_delays w' in (events, ok tt w1)
  ]

  -- A poll: what is known and what is written after it.
  unfoldable pub poll : Bool → Option Text → World → Option Text × (List Event × World)
  poll false last w = (last, ([], w))
  poll true last w = elim (read_clipboard_text device w) [
    | err _ w' ↦ (last, ([], w'))
    | ok t w' ↦ elim (is_known last t) [
      | true ↦ (last, ([], w'))
      | false ↦ (some t, (clipboard_text t ∷ [], w'))
    ]
  ]

  -- The loop, for a list that says of each poll whether the lock of the operations is free.
  unfoldable pub monitor_clipboard : List Bool → Option Text → World → List Event × World
  unfolding poll
  monitor_clipboard [] last w = ([], w)
  monitor_clipboard (free ∷ later) last w =
      let (known, (written, w1)) = poll free last w in
      let (events, w2) = monitor_clipboard later known (sleep 800 w1) in (written ++ events, w2)

  -- No text is written twice in a row, and none that is known is written first.
  abbrev pub Changes : Option Text → List Event → Type 0
  Changes last [] = Unit
  Changes last (clipboard_text t ∷ later) = (is_known last t ≡ false) × Changes (some t) later
  Changes last (event ∷ later) = ⊥

  monitor_clipboard_repeats_none :
      (polls : List Bool) (last : Option Text) (w : World)
      → Changes last (monitor_clipboard polls last w).0
  unfolding monitor_clipboard
  monitor_clipboard_repeats_none [] last w = tt
  monitor_clipboard_repeats_none (false ∷ later) last w =
      monitor_clipboard_repeats_none later last _
  monitor_clipboard_repeats_none (true ∷ later) last w =
      elim (Result-cases (read_clipboard_text device w)) [
        | inr (e, v, f) ↦
            rw (monitor_clipboard, poll, f)
              (monitor_clipboard_repeats_none later last (sleep 800 v))
        | inl (t, v, f) ↦ elim (Bool-cases (is_known last t)) [
          | inl b ↦
              rw (monitor_clipboard, poll, f, b)
                (monitor_clipboard_repeats_none later last (sleep 800 v))
          | inr b ↦
              rw (monitor_clipboard, poll, f, b)
                (b, monitor_clipboard_repeats_none later (some t) (sleep 800 v))
        ]
      ]

  -- What the pasteboard holds at the polls that reach it and read a text, in their order.
  unfoldable pub texts_read : List Bool → World → List Text
  texts_read [] w = []
  texts_read (false ∷ later) w = texts_read later (sleep 800 w)
  texts_read (true ∷ later) w = elim (read_clipboard_text device w) [
    | err _ w' ↦ texts_read later (sleep 800 w')
    | ok t w' ↦ t ∷ texts_read later (sleep 800 w')
  ]

  monitor_clipboard_writes_changes :
      (polls : List Bool) (last : Option Text) (w : World)
      → (monitor_clipboard polls last w).0 ≡ map clipboard_text (changes last (texts_read polls w))
  unfolding monitor_clipboard texts_read changes
  monitor_clipboard_writes_changes [] last w = refl
  monitor_clipboard_writes_changes (false ∷ later) last w =
      monitor_clipboard_writes_changes later last _
  monitor_clipboard_writes_changes (true ∷ later) last w =
      elim (Result-cases (read_clipboard_text device w)) [
        | inr (e, v, f) ↦
            rw (monitor_clipboard, poll, texts_read, f)
              (monitor_clipboard_writes_changes later last (sleep 800 v))
        | inl (t, v, f) ↦ elim (Bool-cases (is_known last t)) [
          | inl b ↦
              rw (monitor_clipboard, poll, texts_read, changes, f, b)
                (monitor_clipboard_writes_changes later last (sleep 800 v))
          | inr b ↦
              rw (monitor_clipboard, poll, texts_read, changes, f, b)
                (ap (λ (events : List Event). clipboard_text t ∷ events)
                  (monitor_clipboard_writes_changes later (some t) (sleep 800 v)))
        ]
      ]

  -- The monitor writes exactly the texts that its polls read from the pasteboard, in their order,
  -- less those that equal the one read before; so no text is written twice in a row, and none that
  -- was known at first is written first, however often and whenever it polls.
  pub monitor_clipboard-Changes :
      (polls : List Bool) (last : Option Text) (w : World)
      → ((monitor_clipboard polls last w).0
          ≡ map clipboard_text (changes last (texts_read polls w)))
        × Changes last (monitor_clipboard polls last w).0
  monitor_clipboard-Changes polls last w =
      (monitor_clipboard_writes_changes polls last w, monitor_clipboard_repeats_none polls last w)
