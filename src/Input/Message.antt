-- ===== src/Input/Message.antt =====
-- `InputFrame`, `InputPoint`, `InputMessage` and `read_frame` of src/main.rs. `F` is the type of the
-- coordinates; the JSON reader is a parameter.
use i_usb_bridge.Prelude.{ℕ, ◌*◌, ◌||◌, Option, none, some, List, ltb, ◌==◌, if◌then◌else◌}
use i_usb_bridge.Prelude.Bytes.{Bytes, from_le_bytes}
use i_usb_bridge.Prelude.Text.{Text}
use i_usb_bridge.Mux.Frame.{read_exact}

pub record InputPoint (F : Type 0) : Type 0 where
  pub pointer_id : ℕ
  pub action : Text
  pub normalized_x : F
  pub normalized_y : F

pub record InputFrame (F : Type 0) : Type 0 where
  pub schema : Text
  pub kind : Text
  pub points : List (InputPoint F)
  pub usages : List ℕ
  pub usage_page : ℕ
  pub usage_code : ℕ
  pub state : Text
  pub pasted : Text
  pub seq : Option ℕ
  pub timestamp_ns : Option ℕ

pub data InputMessage (F : Type 0) : Type 0 where
  frame : InputFrame F → InputMessage F
  failure : Text → InputMessage F

-- `Ok(None)` is `finished`.
pub data FrameRead (A : Type 0) : Type 0 where
  finished : FrameRead A
  got : A → Bytes → FrameRead A
  bad_frame : FrameRead A

abbrev pub max_payload : ℕ
max_payload = 4 * 1024 * 1024

module _ {A : Type 0} (from_slice : Bytes → Option A) where
  abbrev pub read_payload : ℕ → Bytes → FrameRead A
  read_payload size rest =
      if (size == 0) || ltb max_payload size then bad_frame else elim (read_exact size rest) [
        | none ↦ bad_frame
        | some (payload, rest') ↦ elim (from_slice payload) [
          | none ↦ bad_frame
          | some a ↦ got a rest'
        ]
      ]

  unfoldable pub read_frame : Bytes → FrameRead A
  read_frame input = elim (read_exact 4 input) [
    | none ↦ finished
    | some (header, rest) ↦ read_payload (from_le_bytes header) rest
  ]
