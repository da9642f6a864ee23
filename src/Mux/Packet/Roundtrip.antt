-- ===== src/Mux/Packet/Roundtrip.antt =====
-- What `send_packet` writes is what the loop of `feed_packets` takes off the wire.
use i_usb_bridge.Prelude.{
  ℕ, ◌+◌, ◌≤◌, ◌<◌, ◌≡◌, ◌++◌, arith, leb, if◌then◌else◌, length, take, drop, Bool-cases, inl, inr,
  length-append, take-length-append, drop-length-append,
}
use i_usb_bridge.Prelude.Bytes.{Bytes, u32_mod, from_be_bytes}
use i_usb_bridge.Mux.State.{dev_mru}
use i_usb_bridge.Mux.Packet.{packet, encode_packet, next_packet, packet_length, cut}

abbrev pub header_size : ℕ → ℕ
header_size version = if leb 2 version then 16 else 8

length-encode_packet :
    (version seq proto : ℕ) (body : Bytes)
    → length (encode_packet version seq proto body) ≡ header_size version + length body
unfolding encode_packet
length-encode_packet version seq proto body = elim (Bool-cases (leb 2 version)) [
  | inl e ↦ rw e (omega arith)
  | inr e ↦ rw e (omega arith)
]

packet_length-encode_packet :
    (version seq proto : ℕ) (body rest : Bytes)
    → header_size version + length body < u32_mod
    → packet_length (encode_packet version seq proto body ++ rest)
      ≡ header_size version + length body
unfolding encode_packet packet_length
packet_length-encode_packet version seq proto body rest h0 = elim (Bool-cases (leb 2 version)) [
  | inl e ↦ let h : 16 + length body < u32_mod = rw e at h0 in rw e (omega arith)
  | inr e ↦ let h : 8 + length body < u32_mod = rw e at h0 in rw e (omega arith)
]

module _ (version seq proto : ℕ) (body rest : Bytes) where
  take-encode_packet :
      take (header_size version + length body) (encode_packet version seq proto body ++ rest)
      ≡ encode_packet version seq proto body
  take-encode_packet =
      rw (← length-encode_packet version seq proto body)
        (take-length-append (encode_packet version seq proto body) rest)

  drop-encode_packet :
      drop (header_size version + length body) (encode_packet version seq proto body ++ rest) ≡ rest
  drop-encode_packet =
      rw (← length-encode_packet version seq proto body)
        (drop-length-append (encode_packet version seq proto body) rest)

  proto-encode_packet :
      proto < u32_mod → from_be_bytes (take 4 (encode_packet version seq proto body)) ≡ proto
  unfolding encode_packet
  proto-encode_packet h = omega arith

  body-encode_packet : drop (header_size version) (encode_packet version seq proto body) ≡ body
  unfolding encode_packet
  body-encode_packet = elim (Bool-cases (leb 2 version)) [ inl e ↦ rw e | inr e ↦ rw e ]

  -- The loop of `feed_packets` takes a packet that `send_packet` built off the front of the bytes
  -- received, at the same protocol version on both sides: its protocol number, its body, and
  -- exactly the bytes behind it, if the number fits 32 bits and the packet is at most `DEV_MRU`
  -- bytes long.
  pub next_packet-encode_packet :
      proto < u32_mod
      → header_size version + length body ≤ dev_mru
      → next_packet version (encode_packet version seq proto body ++ rest) ≡ packet proto body rest
  unfolding next_packet cut
  next_packet-encode_packet hp h = ground (
    arith,
    length-append (encode_packet version seq proto body) rest,
    length-encode_packet version seq proto body,
    packet_length-encode_packet version seq proto body rest (omega arith),
    take-encode_packet,
    drop-encode_packet,
    proto-encode_packet hp,
    body-encode_packet,
  )
