-- ===== src/Input/Keyboard/Held.antt =====
-- Which keys the device holds after `set_keyboard_state` and the chords of src/main.rs.
use i_usb_bridge.Prelude.{
  ℕ, ◌≡◌, refl, ◌∙◌, inl, inr, Bool, true, false, not, ◌&&◌, ◌||◌, List, [], ◌∷◌, arith, ◌==◌,
  if◌then◌else◌, keep, Bool-cases,
}
use i_usb_bridge.Prelude.Text.{Text}
use i_usb_bridge.Prelude.Action.{Result, ok, err, TimedResult, in_time, elapsed, within}
use i_usb_bridge.Session.Device.{Device, down, up}
use i_usb_bridge.Input.Keyboard.{
  elem, difference, send_each, set_keyboard_state, chord, command_key,
}

-- What the device promises: a key that is sent down and acknowledged is held, one that is sent up is
-- not, no other key changes, and waiting changes none.
pub record KeyboardLaws {World : Type 0} (device : Device World) (held : World → ℕ → Bool)
    : Type 0 where
  pub on_down :
      (u : ℕ) (w w' : World)
      → device.send_keyboard u down w ≡ in_time (ok tt w')
      → (k : ℕ) → held w' k ≡ (if u == k then true else held w k)
  pub on_up :
      (u : ℕ) (w w' : World)
      → device.send_keyboard u up w ≡ in_time (ok tt w')
      → (k : ℕ) → held w' k ≡ (if u == k then false else held w k)
  pub on_sleep : (ms : ℕ) (w : World) (k : ℕ) → held (device.sleep ms w) k ≡ held w k

elem-cons : (k u : ℕ) (us : List ℕ) → elem k (u ∷ us) ≡ ((u == k) || elem k us)
unfolding elem
elem-cons k u us = refl

elem-nil : (k : ℕ) → elem k [] ≡ false
unfolding elem
elem-nil k = refl

-- The keys of one list that are not in another.
elem-keep :
    (from us : List ℕ) (k : ℕ)
    → elem k (keep (λ u. not (elem u from)) us) ≡ (elem k us && not (elem k from))
elem-keep from [] k = rw elem-nil
elem-keep from (u ∷ us) k = elim (Bool-cases (elem u from)) [
  | inl e ↦ rw (e, keep) (ground (arith, elem-keep from us k, elem-cons k u us))
  | inr e ↦
      rw (e, keep)
        (ground (
          arith,
          elem-keep from us k,
          elem-cons k u us,
          elem-cons k u (keep (λ v. not (elem v from)) us),
        ))
]

elem-difference :
    (to from : List ℕ) (k : ℕ) → elem k (difference to from) ≡ (elem k to && not (elem k from))
unfolding difference
elem-difference to from k = elem-keep from to k

-- A key that was sent: the call came back in time, and the rest went on from there.
sent_inv :
    {World : Type 0} (message : Text) (r : TimedResult World (Unit {0})) (w : World)
    (f : World → Result World (Unit {0})) (w' : World)
    → (elim (within message (λ _. r) w) [ ok _ v ↦ f v | err e v ↦ err e v ]) ≡ ok tt w'
    → (v : World) × (r ≡ in_time (ok tt v)) × (f v ≡ ok tt w')
sent_inv message (elapsed v) w f w' h = absurd (cc)
sent_inv message (in_time (err e v)) w f w' h = absurd (cc)
sent_inv message (in_time (ok _ v)) w f w' h = (v, refl, h)

module _ {World : Type 0} (device : Device World) (held : World → ℕ → Bool)
    (laws : KeyboardLaws device held) where
  send_each-down :
      (us : List ℕ) (w w' : World)
      → send_each device down us w ≡ ok tt w'
      → (k : ℕ) → held w' k ≡ (elem k us || held w k)
  unfolding send_each
  send_each-down [] w w' h k = let same : w ≡ w' = cc in rw (← same) (ground (arith, elem-nil k))
  send_each-down (u ∷ us) w w' h k =
      let (v, e, h') =
        sent_inv _ (device.send_keyboard u down w) w (send_each device down us) w' h in
      ground (arith, send_each-down us v w' h' k, laws.on_down u w v e k, elem-cons k u us)

  send_each-up :
      (us : List ℕ) (w w' : World)
      → send_each device up us w ≡ ok tt w'
      → (k : ℕ) → held w' k ≡ (not (elem k us) && held w k)
  unfolding send_each
  send_each-up [] w w' h k = let same : w ≡ w' = cc in rw (← same) (ground (arith, elem-nil k))
  send_each-up (u ∷ us) w w' h k =
      let (v, e, h') = sent_inv _ (device.send_keyboard u up w) w (send_each device up us) w' h in
      ground (arith, send_each-up us v w' h' k, laws.on_up u w v e k, elem-cons k u us)

  then_inv :
      (r : Result World (Unit {0})) (f : World → Result World (Unit {0})) (w' : World)
      → (elim r [ ok _ v ↦ f v | err e v ↦ err e v ]) ≡ ok tt w'
      → (v : World) × (r ≡ ok tt v) × (f v ≡ ok tt w')
  then_inv (ok _ v) f w' h = (v, refl, h)
  then_inv (err e v) f w' h = absurd (cc)

  -- The keys of a list are those that the device holds.
  abbrev pub Holds : List ℕ → World → Type 0
  Holds keys w = (k : ℕ) → held w k ≡ elem k keys

  -- On a device that keeps `KeyboardLaws`, when it holds the keys of `from` and
  -- `set_keyboard_state` from them to `to` succeeds, it holds exactly the keys of `to`.
  pub set_keyboard_state-Holds :
      (from to : List ℕ) (w w' : World)
      → set_keyboard_state device from to w ≡ ok tt w'
      → Holds from w
      → Holds to w'
  unfolding set_keyboard_state
  set_keyboard_state-Holds from to w w' h before k =
      let (v, e, f) =
        then_inv (send_each device down (difference to from) w)
          (send_each device up (difference from to)) w' h in
      ground (
        arith,
        send_each-down (difference to from) w v e k,
        send_each-up (difference from to) v w' f k,
        elem-difference to from k,
        elem-difference from to k,
        before k,
      )

  pause-Holds : (keys : List ℕ) (ms : ℕ) (w : World) → Holds keys w → Holds keys (device.sleep ms w)
  pause-Holds keys ms w h k = laws.on_sleep ms w k ∙ h k

  -- On a device that keeps `KeyboardLaws`, when it holds the keys of `pressed` and a chord of
  -- Command and a key succeeds, it holds exactly the keys of `pressed` again.
  pub chord-Holds :
      (key : ℕ) (pressed : List ℕ) (w w' : World)
      → chord device key pressed w ≡ ok tt w'
      → Holds pressed w
      → Holds pressed w'
  unfolding chord
  chord-Holds key pressed w w' h before =
      let one = command_key ∷ [] in
      let two = command_key ∷ key ∷ [] in
      let (v, e, h1) = then_inv (set_keyboard_state device pressed one w) _ w' h in
      let (v1, e1, h2) = then_inv (set_keyboard_state device one two (device.sleep 60 v)) _ w' h1 in
      let (v2, e2, h3) =
        then_inv (set_keyboard_state device two one (device.sleep 80 v1)) _ w' h2 in
      set_keyboard_state-Holds one pressed _ w' h3 (
        pause-Holds one 60 v2 (
          set_keyboard_state-Holds two one _ v2 e2 (
            pause-Holds two 80 v1 (
              set_keyboard_state-Holds one two _ v1 e1
                (pause-Holds one 60 v (set_keyboard_state-Holds pressed one w v e before))))))
