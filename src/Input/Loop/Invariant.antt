-- ===== src/Input/Loop/Invariant.antt =====
-- What holds throughout the loop of `main` in src/main.rs, whatever wakes it.
use Prim.Native.String.{String}
use i_usb_bridge.Prelude.{
  ℕ, ◌+◌, min, ◌≤◌, ◌≡◌, refl, Bool, true, false, not, ◌&&◌, ◌||◌, Option, none, some, List, [],
  ◌∷◌, arith, ltb, if◌then◌else◌, Bool-cases, inl, inr,
}
use i_usb_bridge.Prelude.Text.{Text, text, text_eq}
use i_usb_bridge.Prelude.Action.{ok, err, TimedResult, in_time, elapsed, Result-cases}
use i_usb_bridge.Session.Device.{Device}
use i_usb_bridge.Session.Reconnect.{has_main_touchscreen, reconnect_direct_session}
use i_usb_bridge.Input.Message.{InputFrame, frame, failure}
use i_usb_bridge.Input.Touch.{Coordinates}
use i_usb_bridge.Input.State.{Host, Flow, continues, breaks, returns, throws}
use i_usb_bridge.Input.Recovery.{Link}
use i_usb_bridge.Input.Handlers.{Bursts, handle_copy, handle_read}
use i_usb_bridge.Input.Handlers.Keep.{
  IsWell, Keeps, no_contacts-IsConsistent, handle_keyboard-Keeps, handle_button-Keeps,
  handle_paste-Keeps, handle_touch-Keeps,
}
use i_usb_bridge.Input.Loop.{
  Wake, message, closed, rotation_due, health_due, schema_name, is_kind, is_stale, newest, is_idle,
  rotate, count_failure, check_health, choose, handle_frame, round, clean_up, run,
  failure_threshold,
}

-- The last sequence number never falls, and is not forgotten.
abbrev pub Grows : Option ℕ → Option ℕ → Type 0
Grows none after = Unit
Grows (some a) none = ⊥
Grows (some a) (some b) = a ≤ b

pub record Advances {World : Type 0} (h h' : Host World) : Type 0 where
  pub sequence : Grows h.last_sequence h'.last_sequence
  pub well : IsWell h → IsWell h'

Grows-refl : (o : Option ℕ) → Grows o o
Grows-refl none = tt
Grows-refl (some a) = omega arith

Grows-trans : (a b c : Option ℕ) → Grows a b → Grows b c → Grows a c
Grows-trans none b c h k = tt
Grows-trans (some a) none c h k = absurd h
Grows-trans (some a) (some b) none h k = absurd k
Grows-trans (some a) (some b) (some c) h k = omega arith

Grows-newest : (seq last : Option ℕ) → is_stale seq last ≡ false → Grows last (newest seq last)
unfolding is_stale
Grows-newest none last h = Grows-refl last
Grows-newest (some s) none h = tt
Grows-newest (some s) (some p) h = ground arith

module _ {World : Type 0} where
  later : (h h1 h2 : Host World) → Advances h h1 → Advances h1 h2 → Advances h h2
  later h h1 h2 a b = record {
    sequence = Grows-trans h.last_sequence h1.last_sequence h2.last_sequence a.sequence b.sequence;
    well = λ v. b.well (a.well v);
  }

  Keeps-Advances : (h h' : Host World) → Keeps h h' → Advances h h'
  Keeps-Advances h h' k = record {
    sequence = rw k.sequence (Grows-refl h.last_sequence);
    well = k.well;
  }

  if-Keeps :
      (b : Bool) {h : Host World} (x y : Flow × Host World)
      → Keeps h x.1
      → Keeps h y.1
      → Keeps h (if b then x else y).1
  if-Keeps true x y k l = k
  if-Keeps false x y k l = l

module _ {World F : Type 0} (device : Device World) (describe_surfaces : List ℕ → Text)
    (show : ℕ → Text) (link : Link) (coordinates : Coordinates F) where
  choose-Keeps :
      (f : InputFrame F) (bursts : Bursts F) (free : Bool) (h : Host World)
      → Keeps h (choose device describe_surfaces show link coordinates f bursts free h).1
  unfolding choose handle_copy handle_read
  choose-Keeps f bursts free h =
      if-Keeps (is "keyboard_batch") _ _
        (handle_keyboard-Keeps device describe_surfaces show link coordinates f bursts h)
        (if-Keeps (is "button_event") _ _
          (handle_button-Keeps device describe_surfaces show link coordinates f bursts h)
          (if-Keeps (is "paste_text") _ _
            (handle_paste-Keeps device describe_surfaces show link coordinates f free h)
            (if-Keeps (is "copy_selection") _ _ (record { sequence = refl; well = λ v. v })
              (if-Keeps (is "read_clipboard") _ _ (record { sequence = refl; well = λ v. v })
                (handle_touch-Keeps device describe_surfaces show link coordinates f bursts h)))))
    where
      is : String → Bool
      is kind = text_eq (f.kind) (text kind)

  handle_frame-Advances :
      (f : InputFrame F) (bursts : Bursts F) (free : Bool) (h : Host World)
      → Advances h (handle_frame device describe_surfaces show link coordinates f bursts free h).1
  unfolding handle_frame
  handle_frame-Advances f bursts free h =
      elim (Bool-cases (not (text_eq (f.schema) schema_name) || not (is_kind (f.kind)))) [
        | inl bad ↦
            rw (bad, handle_frame) (Keeps-Advances h _ (record { sequence = refl; well = λ v. v }))
        | inr fine ↦ elim (Bool-cases (is_stale (f.seq) h.last_sequence)) [
          | inl stale ↦
              rw (fine, stale, handle_frame)
                (Keeps-Advances h _ (record { sequence = refl; well = λ v. v }))
          | inr new ↦
              let h1 : Host World = record h { last_sequence = newest (f.seq) h.last_sequence } in
              rw (fine, new, handle_frame)
                (later h h1 _
                  (record { sequence = Grows-newest (f.seq) h.last_sequence new; well = λ v. v })
                  (Keeps-Advances h1 _ (choose-Keeps f bursts free h1)))
        ]
      ]

  check_health-Keeps :
      (h : Host World) → Keeps h (check_health device describe_surfaces show link coordinates h).1
  unfolding check_health count_failure
  check_health-Keeps h = go (device.services_in_time h.world) refl
    where
      counted :
          (code m : Text) (h1 : Host World)
          → Keeps h1 (count_failure device describe_surfaces show link coordinates code m h1).1
      counted code m h1 =
          elim (Bool-cases (ltb (min (h1.health_failures + 1) 255) failure_threshold)) [
            | inl e ↦ rw (e, count_failure) (record { sequence = refl; well = λ v. v })
            | inr e ↦ rw (e, count_failure) (record { sequence = refl; well = λ v. v })
          ]

      go :
          (t : TimedResult World (List ℕ))
          → device.services_in_time h.world ≡ t
          → Keeps h (check_health device describe_surfaces show link coordinates h).1
      go (elapsed w) e =
          let k = counted _ _ (record h { world = w }) in
          rw (e, check_health) (record { sequence = k.sequence; well = k.well })
      go (in_time (err m w)) e =
          let k = counted _ _ (record h { world = w }) in
          rw (e, check_health) (record { sequence = k.sequence; well = k.well })
      go (in_time (ok surfaces w)) e = elim (Bool-cases (has_main_touchscreen surfaces)) [
        | inl p ↦ rw (e, p, check_health) (record { sequence = refl; well = λ v. v })
        | inr p ↦
            let k = counted _ _ (record h { world = w }) in
            rw (e, p, check_health) (record { sequence = k.sequence; well = k.well })
      ]

  rotate-Keeps :
      (h : Host World) → Keeps h (rotate device describe_surfaces show link coordinates h).1
  unfolding rotate
  rotate-Keeps h =
      elim (Result-cases (
        reconnect_direct_session device describe_surfaces (link.over_usb) (link.udid) false
          (device.abort_tasks h.world))) [
            | inl (_, w, e) ↦
                rw (e, rotate)
                  (record {
                    sequence = refl;
                    well = λ v. record {
                      consistent = no_contacts-IsConsistent;
                      keys_fit = v.keys_fit;
                      buttons_fit = v.buttons_fit;
                    };
                  })
            | inr (m, w, e) ↦ rw (e, rotate) (record { sequence = refl; well = λ v. v })
          ]

  round-Advances :
      (wake : Wake F) (h : Host World)
      → Advances h (round device describe_surfaces show link coordinates wake h).1
  unfolding round
  round-Advances closed h = Keeps-Advances h _ (record { sequence = refl; well = λ v. v })
  round-Advances (message (failure e) bursts free) h =
      Keeps-Advances h _ (record { sequence = refl; well = λ v. v })
  round-Advances (message (frame f) bursts free) h = handle_frame-Advances f bursts free h
  round-Advances rotation_due h = Keeps-Advances h _ (
      if-Keeps
        (link.over_usb && (link.direct && is_idle device describe_surfaces show link coordinates h))
        (rotate device describe_surfaces show link coordinates h) (continues, h) (rotate-Keeps h)
        (record { sequence = refl; well = λ v. v }))
  round-Advances health_due h = Keeps-Advances h _ (
      if-Keeps
        (not (link.over_usb && link.direct)
          && is_idle device describe_surfaces show link coordinates h)
        (check_health device describe_surfaces show link coordinates h) (continues, h)
        (check_health-Keeps h) (record { sequence = refl; well = λ v. v }))

  -- Whatever wakes the loop, for any number of rounds and through its clean-up: the last sequence
  -- number never falls, and what the loop holds stays well formed, that is, its contacts and slots
  -- agree, each key is a usage of at most 239, and each button's page and code fit sixteen bits.
  pub run-Advances :
      (wakes : List (Wake F)) (h : Host World)
      → Advances h (run device describe_surfaces show link coordinates wakes h).1
  unfolding run clean_up
  run-Advances [] h = Keeps-Advances h _ (record { sequence = refl; well = λ v. v })
  run-Advances (wake ∷ wakes) h =
      go (next.0) refl (round-Advances wake h) (run-Advances wakes (next.1))
    where
      next : Flow × Host World
      next = round device describe_surfaces show link coordinates wake h

      go :
          (flow : Flow)
          → next.0 ≡ flow
          → Advances h next.1
          → Advances next.1 (run device describe_surfaces show link coordinates wakes next.1).1
          → Advances h (run device describe_surfaces show link coordinates (wake ∷ wakes) h).1
      go continues e a ih = rw (e, run) (later h (next.1) _ a ih)
      go breaks e a ih = rw (e, run) (record { sequence = a.sequence; well = a.well })
      go returns e a ih = rw (e, run) a
      go throws e a ih = rw (e, run) a
