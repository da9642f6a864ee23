-- ===== src/Mux/Packet.antt =====
-- The packet layer of src/raw_usbmux.rs: `version_payload`, `send_packet`, and one round of the
-- loop of `feed_packets`, which takes a packet off the bytes received.
pub mod Roundtrip
use i_usb_bridge.Prelude.{
  ℕ, ◌+◌, ◌%◌, ◌≡◌, refl, Bool, true, false, ◌||◌, List, [], ◌∷◌, ◌++◌, arith, ltb, leb, ◌==◌,
  if◌then◌else◌, length, take, drop,
}
use i_usb_bridge.Prelude.Bytes.{
  Bytes, u16_mod, u32_mod, to_be_bytes16, to_be_bytes32, from_be_bytes,
}
use i_usb_bridge.Mux.State.{MuxState, IoResult, WritePacket, mux_magic, dev_mru}

unfoldable pub version_payload : ℕ → ℕ → Bytes
version_payload major minor = to_be_bytes32 major ++ (to_be_bytes32 minor ++ to_be_bytes32 0)

-- The packet that `send_packet` writes at a version and sequence number.
unfoldable pub encode_packet : ℕ → ℕ → ℕ → Bytes → Bytes
encode_packet version seq proto body =
    let header : ℕ = if leb 2 version then 16 else 8 in
    to_be_bytes32 proto
    ++ (to_be_bytes32 ((header + length body) % u32_mod)
        ++ ((if leb 2 version
              then to_be_bytes32 mux_magic ++ (to_be_bytes16 seq ++ to_be_bytes16 0xffff)
              else [])
            ++ body))

module _ {W : Type 0} (write_packet : WritePacket W) where
  unfoldable pub send_packet : MuxState W → ℕ → Bytes → IoResult × MuxState W
  unfolding encode_packet
  send_packet s proto body =
      let packet = encode_packet s.version s.tx_seq proto body in
      let (r, w) = write_packet s.writer packet in
      (
        r,
        record s {
          writer = w;
          tx_seq = if leb 2 s.version then (s.tx_seq + 1) % u16_mod else s.tx_seq;
        },
      )

-- What a round of the loop finds in the bytes that wait: too few of them, a length out of range,
-- a packet too short for its header, or a packet with the bytes behind it.
pub data Round : Type 0 where
  more_needed : Round
  bad_length : Round
  skipped : Bytes → Round
  packet : ℕ → Bytes → Bytes → Round

unfoldable pub packet_length : Bytes → ℕ
packet_length pending = from_be_bytes (take 4 (drop 4 pending))

-- The header is eight or sixteen bytes, by the version.
unfoldable pub cut : ℕ → Bytes → Bytes → Round
cut version one rest =
    if leb 2 version
    then (if ltb (length one) 16
        then skipped rest
        else packet (from_be_bytes (take 4 one)) (drop 16 one) rest)
    else packet (from_be_bytes (take 4 one)) (drop 8 one) rest

unfoldable pub next_packet : ℕ → Bytes → Round
next_packet version pending =
    let len : ℕ = packet_length pending in
    if ltb (length pending) 8
    then more_needed
    else if ltb len 8 || ltb dev_mru len
    then bad_length
    else if ltb (length pending) len
    then more_needed
    else cut version (take len pending) (drop len pending)
