-- ===== src/Mux/Open/Ports.antt =====
-- Source ports and the table of connections in `open_connection` of src/raw_usbmux.rs.
use i_usb_bridge.Prelude.{
  ℕ, zero, suc, ◌≡◌, inl, inr, refl, ap, ◌∙◌, Bool, true, false, ◌||◌, some, List, [], ◌∷◌, ◌++◌,
  arith, ◌==◌, if◌then◌else◌, Bool-cases, Option-cases, ==_refl, take,
}
use i_usb_bridge.Prelude.Bytes.{Bytes, from_be_bytes}
use i_usb_bridge.Prelude.Table.{lookup, lookup-insert}
use i_usb_bridge.Mux.State.{MuxState, WritePacket, IoResult, done, io_error, syn, syn_ack}
use i_usb_bridge.Mux.Packet.{
  Round, more_needed, bad_length, skipped, packet, next_packet, send_packet,
}
use i_usb_bridge.Mux.Tcp.{send_tcp, feed_tcp, parse_segment, receive}
use i_usb_bridge.Mux.Feed.{dispatch, feed_loop, feed_packets}
use i_usb_bridge.Mux.Open.{
  Reader, register, receive_bytes, wait_open, open_connection, Opened, opened, refused,
}

-- Receiving packets neither adds to nor takes from the table of connections.
module _ {W : Type 0} (write_packet : WritePacket W) where
  connections-send_packet :
      (s : MuxState W) (proto : ℕ) (body : Bytes)
      → (send_packet write_packet s proto body).1.connections ≡ s.connections
  unfolding send_packet
  connections-send_packet s proto body = refl

  pub connections-send_tcp :
      (s : MuxState W) (id flags : ℕ) (payload : Bytes)
      → (send_tcp write_packet s id flags payload).1.connections ≡ s.connections
  unfolding send_tcp
  connections-send_tcp s id flags payload = connections-send_packet _ _ _

  connections-feed_tcp :
      (s : MuxState W) (body : Bytes) → (feed_tcp write_packet s body).connections ≡ s.connections
  unfolding feed_tcp
  connections-feed_tcp s body = elim (Option-cases (parse_segment body)) [
    | inl e ↦ rw (e, feed_tcp)
    | inr (g, e) ↦ elim (Option-cases (lookup (g.dport) s.connections)) [
      | inl f ↦ rw (e, f, feed_tcp)
      | inr (id, f) ↦ elim (Bool-cases ((receive (s.store id).state g).1 || (g.flags == syn_ack))) [
        | inl b ↦ rw (e, f, b, feed_tcp) (connections-send_tcp _ _ _ _)
        | inr b ↦ rw (e, f, b, feed_tcp)
      ]
    ]
  ]

  connections-dispatch :
      (s : MuxState W) (proto : ℕ) (body : Bytes)
      → (dispatch write_packet s proto body).connections ≡ s.connections
  unfolding dispatch
  connections-dispatch s proto body = ground (
    arith,
    connections-feed_tcp s body,
    connections-send_packet (record s { version = from_be_bytes (take 4 body) }) 2 (7 ∷ []),
  )

  connections-feed_loop :
      (fuel : ℕ) (s : MuxState W) (pending : Bytes)
      → (feed_loop write_packet fuel s pending).0.connections ≡ s.connections
  unfolding feed_loop
  connections-feed_loop zero s pending = refl
  connections-feed_loop (suc fuel) s pending =
      go (next_packet s.version pending) refl (connections-feed_loop fuel)
    where
      go :
          (r : Round)
          → next_packet s.version pending ≡ r
          → ((s : MuxState W) (b : Bytes)
              → (feed_loop write_packet fuel s b).0.connections ≡ s.connections)
          → (feed_loop write_packet (suc fuel) s pending).0.connections ≡ s.connections
      go more_needed e ih = rw (e, feed_loop)
      go bad_length e ih = rw (e, feed_loop)
      go (skipped rest) e ih = rw (e, feed_loop) (ih s rest)
      go (packet proto body rest) e ih =
          rw (e, feed_loop)
            (ih (dispatch write_packet s proto body) rest ∙ connections-dispatch s proto body)

  pub connections-receive_bytes :
      (r : Reader W) (bytes : Bytes)
      → (receive_bytes write_packet r bytes).mux.connections ≡ r.mux.connections
  unfolding receive_bytes feed_packets
  connections-receive_bytes r bytes = connections-feed_loop _ r.mux (r.buffer ++ bytes)

  connections-wait_open :
      (id : ℕ) (later : List Bytes) (r : Reader W)
      → (wait_open write_packet id later r).mux.connections ≡ r.mux.connections
  unfolding wait_open
  connections-wait_open id [] r = refl
  connections-wait_open id (bytes ∷ later) r =
      ends ((r.mux.store id).state.connected || (r.mux.store id).state.closed) (
        connections-wait_open id later (receive_bytes write_packet r bytes)
        ∙ connections-receive_bytes r bytes)
    where
      next : Reader W
      next = wait_open write_packet id later (receive_bytes write_packet r bytes)

      ends :
          (b : Bool)
          → next.mux.connections ≡ r.mux.connections
          → (if b then r else next).mux.connections ≡ r.mux.connections
      ends true h = refl
      ends false h = h

  -- Whatever comes of `open_connection` (the device answers, refuses or stays silent, or the SYN is
  -- not sent), its source port stands in the table of connections afterwards, with the new
  -- connection; a connection that was not opened is not taken out again.
  pub open_connection-registered :
      (r : Reader W) (dport : ℕ) (received : List Bytes)
      → lookup r.mux.next_sport (open_connection write_packet r dport received).1.mux.connections
        ≡ some r.mux.allocated
  unfolding open_connection register
  open_connection-registered r dport received = outcome (send_tcp write_packet s0 id syn []).0 refl
    where
      id : ℕ
      id = r.mux.allocated

      s0 : MuxState W
      s0 = register r.mux dport

      r1 : Reader W
      r1 = record r { mux = (send_tcp write_packet s0 id syn []).1 }

      r2 : Reader W
      r2 = wait_open write_packet id received r1

      begun : lookup r.mux.next_sport r1.mux.connections ≡ some id
      begun =
          ap (lookup r.mux.next_sport) (connections-send_tcp s0 id syn [])
          ∙ lookup-insert r.mux.next_sport r.mux.next_sport id r.mux.connections
          ∙ rw (==_refl r.mux.next_sport)

      waited : lookup r.mux.next_sport r2.mux.connections ≡ some id
      waited = ap (lookup r.mux.next_sport) (connections-wait_open id received r1) ∙ begun

      choice :
          (b : Bool)
          → let out : Opened × Reader W = if b then (opened id, r2) else (refused, r2) in
            lookup r.mux.next_sport out.1.mux.connections ≡ some id
      choice true = waited
      choice false = waited

      outcome :
          (sent : IoResult)
          → (send_tcp write_packet s0 id syn []).0 ≡ sent
          → lookup r.mux.next_sport
              (open_connection write_packet r dport received).1.mux.connections
            ≡ some id
      outcome io_error e = rw (e, open_connection) begun
      outcome done e = rw (e, open_connection) (choice (r2.mux.store id).state.connected)
