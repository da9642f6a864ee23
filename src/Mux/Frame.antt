-- ===== src/Mux/Frame.antt =====
-- `read_plist_frame` and `write_frame` of src/raw_usbmux.rs. The bytes that a socket gives before
-- it ends are a list; the XML reader and writer of the plist crate are parameters.
pub mod Roundtrip
use i_usb_bridge.Prelude.{
  ℕ, ◌+◌, ◌-◌, ◌%◌, ◌^◌, Bool, true, false, ◌||◌, Option, none, some, List, [], ◌∷◌, ◌++◌, ltb,
  if◌then◌else◌, length, take, drop,
}
use i_usb_bridge.Prelude.Bytes.{Bytes, u32_mod, to_le_bytes32, from_le_bytes}
use i_usb_bridge.Mux.Plist.{Value, Dictionary, dictionary}

-- `read_exact`: none when the stream ends first.
unfoldable pub read_exact : ℕ → Bytes → Option (Bytes × Bytes)
read_exact n input = if ltb (length input) n then none else some (take n input, drop n input)

pub data FrameRead : Type 0 where
  frame : ℕ → Dictionary → Bytes → FrameRead
  unexpected_eof : FrameRead
  invalid_data : FrameRead

abbrev pub max_frame : ℕ
max_frame = 2 ^ 20

module _ (from_xml : Bytes → Option Value) where
  abbrev pub decode_body : ℕ → Bytes → Bytes → FrameRead
  decode_body tag body rest = elim (from_xml body) [
    | some (dictionary d) ↦ frame tag d rest
    | _ ↦ invalid_data
  ]

  -- The length and the tag of the header are known.
  unfoldable pub read_sized : ℕ → ℕ → Bytes → FrameRead
  read_sized len tag rest =
      if ltb len 16 || ltb max_frame len then invalid_data else elim (read_exact (len - 16) rest) [
        | none ↦ unexpected_eof
        | some (body, rest') ↦ decode_body tag body rest'
      ]

  unfoldable pub read_body : Bytes → Bytes → FrameRead
  unfolding read_sized
  read_body h rest = read_sized (from_le_bytes (take 4 h)) (from_le_bytes (take 4 (drop 12 h))) rest

  unfoldable pub read_plist_frame : Bytes → FrameRead
  read_plist_frame input = elim (read_exact 16 input) [
    | none ↦ unexpected_eof
    | some (h, rest) ↦ read_body h rest
  ]

module _ (to_xml : Value → Option Bytes) where
  unfoldable pub write_frame : ℕ → Dictionary → Option Bytes
  write_frame tag d = elim (to_xml (dictionary d)) [
    | none ↦ none
    | some body ↦ some (
        to_le_bytes32 ((16 + length body) % u32_mod)
        ++ (to_le_bytes32 1 ++ (to_le_bytes32 8 ++ (to_le_bytes32 tag ++ body))))
  ]
