-- ===== src/Mux/Frame/Roundtrip.antt =====
-- What `write_frame` of src/raw_usbmux.rs writes, `read_plist_frame` reads.
use i_usb_bridge.Prelude.{
  ℕ, ◌+◌, ◌-◌, ◌≤◌, ◌<◌, ◌%◌, ◌≡◌, ap₂, ◌∙◌, Option, some, ◌++◌, arith, length, take, drop,
  length-append, take-length-append, drop-length-append,
}
use i_usb_bridge.Prelude.Bytes.{Bytes, u32_mod, to_le_bytes32, from_le_bytes}
use i_usb_bridge.Mux.Plist.{Value, Dictionary, dictionary}
use i_usb_bridge.Mux.Frame.{
  read_exact, frame, decode_body, read_sized, read_body, read_plist_frame, write_frame, max_frame,
}

-- The sixteen bytes in front of a body.
abbrev header : ℕ → ℕ → Bytes
header tag size =
    to_le_bytes32 ((16 + size) % u32_mod)
    ++ (to_le_bytes32 1 ++ (to_le_bytes32 8 ++ to_le_bytes32 tag))

read_exact-append : (xs ys : Bytes) → read_exact (length xs) (xs ++ ys) ≡ some (xs, ys)
unfolding read_exact
read_exact-append xs ys =
    ground (arith, length-append xs ys, take-length-append xs ys, drop-length-append xs ys)

module _ (from_xml : Bytes → Option Value) where
  read_sized-frame :
      (tag : ℕ) (d : Dictionary) (body rest : Bytes)
      → 16 + length body ≤ max_frame
      → from_xml body ≡ some (dictionary d)
      → read_sized from_xml (16 + length body) tag (body ++ rest) ≡ frame tag d rest
  unfolding read_sized
  read_sized-frame tag d body rest h e =
      let inner : 16 + length body - 16 ≡ length body = omega arith in
      let decoded : decode_body from_xml tag body rest ≡ frame tag d rest = rw (e, decode_body) in
      rw (inner, read_exact-append body rest) (ground arith)

  read_body-frame :
      (tag : ℕ) (d : Dictionary) (body rest : Bytes)
      → tag < u32_mod
      → 16 + length body ≤ max_frame
      → from_xml body ≡ some (dictionary d)
      → read_body from_xml (header tag (length body)) (body ++ rest) ≡ frame tag d rest
  unfolding read_body
  read_body-frame tag d body rest ht h e =
      ap₂ (λ len t. read_sized from_xml len t (body ++ rest))
        {x = from_le_bytes (take 4 (header tag (length body)))} {y = 16 + length body}
        {u = from_le_bytes (take 4 (drop 12 (header tag (length body))))} {v = tag} (omega arith)
        (omega arith)
      ∙ read_sized-frame tag d body rest h e

  -- A frame that `write_frame` wrote is read back by `read_plist_frame`, with its tag, its
  -- dictionary and exactly the bytes behind it, if the XML reader undoes the XML writer on that
  -- dictionary, the tag fits 32 bits and the frame is at most 2 ^ 20 bytes long.
  pub read_plist_frame-write_frame :
      (to_xml : Value → Option Bytes) (tag : ℕ) (d : Dictionary) (body rest : Bytes)
      → tag < u32_mod
      → to_xml (dictionary d) ≡ some body
      → from_xml body ≡ some (dictionary d)
      → 16 + length body ≤ max_frame
      → (bytes : Bytes) × (write_frame to_xml tag d ≡ some bytes)
        × (read_plist_frame from_xml (bytes ++ rest) ≡ frame tag d rest)
  unfolding write_frame read_plist_frame
  read_plist_frame-write_frame to_xml tag d body rest ht w e h = (
    header tag (length body) ++ body,
    rw (w, write_frame),
    (let start : read_exact 16 ((header tag (length body) ++ body) ++ rest)
            ≡ some (header tag (length body), body ++ rest) =
          read_exact-append (header tag (length body)) (body ++ rest) in
        rw (start, read_plist_frame) (read_body-frame tag d body rest ht h e)),
  )
