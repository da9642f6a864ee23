-- ===== src/Input/Keyboard.antt =====
-- `set_keyboard_state`, and the chords of `paste_text` and `copy_selection`, of src/main.rs.
pub mod Held
use i_usb_bridge.Prelude.{
  ℕ, Bool, true, false, not, ◌||◌, List, [], ◌∷◌, ◌==◌, if◌then◌else◌, any, keep,
}
use i_usb_bridge.Prelude.Text.{Text, text}
use i_usb_bridge.Prelude.Action.{
  Result, ok, err, Action, Timed, ◌>>=◌, ◌>>◌, return, within, state_of, timed_state_of,
}
use i_usb_bridge.Session.Device.{Device, ButtonState, down, up}

unfoldable pub elem : ℕ → List ℕ → Bool
elem u us = any (λ v. v == u) us

-- `HashSet::difference`
unfoldable pub difference : List ℕ → List ℕ → List ℕ
unfolding elem
difference to from = keep (λ u. not (elem u from)) to

-- Left Command, C and V.
abbrev pub command_key : ℕ
command_key = 0xe3

abbrev pub c_key : ℕ
c_key = 0x06

abbrev pub v_key : ℕ
v_key = 0x19

module _ {World : Type 0} (device : Device World) where
  open device use {send_keyboard, sleep}

  unfoldable pub send_each : ButtonState → List ℕ → Action World (Unit {0})
  send_each state [] w = ok tt w
  send_each state (u ∷ us) w =
      elim (within (text "keyboard operation timed out") (send_keyboard u state) w) [
        | ok _ w' ↦ send_each state us w'
        | err e w' ↦ err e w'
      ]

  unfoldable pub set_keyboard_state : List ℕ → List ℕ → Action World (Unit {0})
  unfolding send_each difference
  set_keyboard_state from to w = elim (send_each down (difference to from) w) [
    | ok _ w' ↦ send_each up (difference from to) w'
    | err e w' ↦ err e w'
  ]

  abbrev pub pause : ℕ → Action World (Unit {0})
  pause ms w = ok tt (sleep ms w)

  -- Command down, the key down and up, and back to the keys that the desktop holds.
  unfoldable pub chord : ℕ → List ℕ → Action World (Unit {0})
  chord key pressed = do
    set_keyboard_state pressed (command_key ∷ [])
    pause 60
    set_keyboard_state (command_key ∷ []) (command_key ∷ key ∷ [])
    pause 80
    set_keyboard_state (command_key ∷ key ∷ []) (command_key ∷ [])
    pause 60
    set_keyboard_state (command_key ∷ []) pressed

  unfoldable pub press_again : List ℕ → World → World
  press_again [] w = w
  press_again (u ∷ us) w = press_again us (timed_state_of (send_keyboard u down w))

  -- The clean-up of `paste_text` after a chord that failed.
  unfoldable pub release_chord : List ℕ → World → World
  unfolding press_again
  release_chord pressed w =
      press_again pressed
        (timed_state_of (send_keyboard command_key up (timed_state_of (send_keyboard v_key up w))))
