-- ===== src/Mux/Feed.antt =====
-- `feed_packets` of src/raw_usbmux.rs: the loop over the bytes received.
pub mod Chunks
use i_usb_bridge.Prelude.{
  ℕ, zero, suc, ◌+◌, ◌≡◌, refl, Bool, true, false, ◌&&◌, List, [], ◌∷◌, ◌++◌, arith, leb, ◌==◌,
  if◌then◌else◌, length, take,
}
use i_usb_bridge.Prelude.Bytes.{Bytes, from_be_bytes}
use i_usb_bridge.Mux.State.{MuxState, WritePacket, proto_version, proto_tcp}
use i_usb_bridge.Mux.Packet.{
  Round, more_needed, bad_length, skipped, packet, next_packet, send_packet,
}
use i_usb_bridge.Mux.Tcp.{feed_tcp}

module _ {W : Type 0} (write_packet : WritePacket W) where
  -- The `match proto` of the loop.
  unfoldable pub dispatch : MuxState W → ℕ → Bytes → MuxState W
  dispatch s proto body =
      let major : ℕ = from_be_bytes (take 4 body) in
      let s' = record s { version = major } in
      if (proto == proto_version) && leb 12 (length body)
      then (if leb 2 major then (send_packet write_packet s' 2 (7 ∷ [])).1 else s')
      else if proto == proto_tcp
      then feed_tcp write_packet s body
      else s

  -- Each round takes at least eight bytes, so the number of bytes is enough fuel.
  unfoldable pub feed_loop : ℕ → MuxState W → Bytes → MuxState W × Bytes
  feed_loop zero s pending = (s, pending)
  feed_loop (suc fuel) s pending = elim (next_packet s.version pending) [
    | more_needed ↦ (s, pending)
    | bad_length ↦ (s, [])
    | skipped rest ↦ feed_loop fuel s rest
    | packet proto body rest ↦ feed_loop fuel (dispatch s proto body) rest
  ]

  unfoldable pub feed_packets : MuxState W → Bytes → MuxState W × Bytes
  feed_packets s pending = feed_loop (length pending) s pending
