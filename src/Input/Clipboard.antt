-- ===== src/Input/Clipboard.antt =====
-- The pasteboard operations of src/main.rs.
pub mod Confirmed
pub mod Tasks
use i_usb_bridge.Prelude.{
  ℕ, Bool, true, false, Option, none, some, List, [], ◌∷◌, ltb, if◌then◌else◌,
}
use i_usb_bridge.Prelude.Text.{Text, text, text_eq}
use i_usb_bridge.Prelude.Action.{Result, ok, err, Action, ◌>>=◌, ◌>>◌, return, within}
use i_usb_bridge.Session.Device.{Device}
use i_usb_bridge.Input.Keyboard.{chord, release_chord, v_key, c_key}

pub data Confirmation : Type 0 where
  confirmed : Confirmation
  accepted_but_unconfirmed : Text → Confirmation

unfoldable pub clipboard_text_matches : Text → Option Text → Bool
clipboard_text_matches expected none = false
clipboard_text_matches expected (some observed) = text_eq observed expected

-- `PASTEBOARD_WRITE_CONFIRM_DELAYS_MS`
abbrev pub confirm_delays : List ℕ
confirm_delays = 0 ∷ 80 ∷ 160 ∷ 320 ∷ []

abbrev pub unconfirmed_message : Text
unconfirmed_message =
    text
      "pasteboard SET was accepted but exact PULL confirmation was unavailable; pasted once with protected key release"

module _ {World : Type 0} (device : Device World) where
  open device use {lock_pasteboard, set_text, get_text, sleep}

  unfoldable pub acquire_pasteboard : Action World (Unit {0})
  acquire_pasteboard w =
      let (locked, w') = lock_pasteboard w in
      if locked then ok tt w' else err (text "pasteboard service is busy") w'

  unfoldable pub confirm_loop : Text → List ℕ → Action World Bool
  confirm_loop expected [] w = ok false w
  confirm_loop expected (delay ∷ later) w0 =
      let w : World = if ltb 0 delay then sleep delay w0 else w0 in
      elim (within (text "pasteboard confirmation timed out") get_text w) [
        | err e w' ↦ err e w'
        | ok observed w' ↦ elim (clipboard_text_matches expected observed) [
          | true ↦ ok true w'
          | false ↦ confirm_loop expected later w'
        ]
      ]

  unfoldable pub confirm_pasteboard_text : Text → Action World Bool
  unfolding confirm_loop
  confirm_pasteboard_text expected = confirm_loop expected confirm_delays

  unfoldable pub write_pasteboard_text_with_confirmation : Text → Action World Confirmation
  write_pasteboard_text_with_confirmation wanted = do
    within (text "pasteboard operation timed out") (set_text wanted)
    matched ← confirm_pasteboard_text wanted
    return (if matched then confirmed else accepted_but_unconfirmed unconfirmed_message)

  unfoldable pub paste_text : List ℕ → Text → Action World Confirmation
  paste_text pressed wanted = do
    acquire_pasteboard
    confirmation ← write_pasteboard_text_with_confirmation wanted
    λ w. elim (chord device v_key pressed w) [
      | ok _ w' ↦ ok confirmation w'
      | err e w' ↦ err e (release_chord device pressed w')
    ]

  unfoldable pub read_clipboard_text : Action World Text
  read_clipboard_text = do
    acquire_pasteboard
    observed ← within (text "pasteboard operation timed out") get_text
    return (elim observed [ none ↦ [] | some t ↦ t ])
