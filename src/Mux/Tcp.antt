-- ===== src/Mux/Tcp.antt =====
-- The TCP layer of src/raw_usbmux.rs: `feed_tcp` and `send_tcp`.
pub mod Reassembly
pub mod History
pub mod Roundtrip
pub mod Pieces
pub mod Complete
pub mod Delivery
use i_usb_bridge.Prelude.{
  ℕ, zero, suc, ◌+◌, ◌-◌, ◌*◌, ◌/◌, ◌%◌, ◌≡◌, refl, Bool, true, false, not, ◌&&◌, ◌||◌, Option,
  none, some, List, [], ◌∷◌, ◌++◌, arith, ltb, leb, ◌==◌, if◌then◌else◌, length, get_or, take, drop,
  bit_and,
}
use i_usb_bridge.Prelude.Bytes.{Bytes, u32_mod, to_be_bytes16, to_be_bytes32, from_be_bytes}
use i_usb_bridge.Prelude.Table.{lookup, insert, remove}
use i_usb_bridge.Mux.State.{
  ConnectionState, MuxConnection, MuxState, IoResult, WritePacket, proto_tcp, syn, rst, ack_flag,
  syn_ack, update,
}
use i_usb_bridge.Mux.Packet.{send_packet}

-- The fields that `feed_tcp` reads off a body.
pub record Segment : Type 0 where
  pub dport : ℕ
  pub seq : ℕ
  pub ack : ℕ
  pub flags : ℕ
  pub win : ℕ
  pub payload : Bytes

unfoldable pub parse_segment : Bytes → Option Segment
parse_segment body =
    let offset : ℕ = get_or body 12 0 / 16 * 4 in
    if ltb (length body) 20
    then none
    else some (record {
      dport = from_be_bytes (take 2 (drop 2 body));
      seq = from_be_bytes (take 4 (drop 4 body));
      ack = from_be_bytes (take 4 (drop 8 body));
      flags = get_or body 13 0;
      win = from_be_bytes (take 2 (drop 14 body)) * 256;
      payload = if leb offset (length body) then drop offset body else [];
    })

unfoldable pub wrapping_add : ℕ → ℕ → ℕ
wrapping_add a b = (a + b) % u32_mod

unfoldable pub wrapping_sub : ℕ → ℕ → ℕ
wrapping_sub a b = (a + u32_mod - b) % u32_mod

-- Appends a payload to the inbox and moves the acknowledgement past it.
unfoldable pub deliver : ConnectionState → Bytes → ConnectionState
unfolding wrapping_add
deliver cs p = record cs {
  inbox = cs.inbox ++ p;
  tx_ack = wrapping_add cs.tx_ack (length p % u32_mod);
}

-- The inner loop: deliver what waits at the acknowledged position, until nothing does. Each round
-- takes an entry out of `pending`, so its length is enough fuel.
unfoldable pub drain : ℕ → ConnectionState → ConnectionState
drain zero cs = cs
drain (suc fuel) cs = elim (lookup cs.tx_ack cs.pending) [
  | none ↦ cs
  | some p ↦ drain fuel (deliver (record cs { pending = remove cs.tx_ack cs.pending }) p)
]

-- `pending.entry(seq).or_insert_with(..)`
unfoldable pub hold : ConnectionState → ℕ → Bytes → ConnectionState
hold cs seq p = elim (lookup seq cs.pending) [
  | none ↦ record cs { pending = insert seq p cs.pending }
  | some _ ↦ cs
]

-- The branch of a payload on an open connection.
unfoldable pub accept : ConnectionState → ℕ → Bytes → ConnectionState
accept cs seq p =
    let now = deliver cs p in
    if seq == cs.tx_ack
    then drain (length now.pending) now
    else if ltb (wrapping_sub seq cs.tx_ack) 0x8000_0000
    then hold cs seq p
    else cs

abbrev pub is_empty : Bytes → Bool
is_empty [] = true
is_empty (b ∷ bs) = false

abbrev pub has_flag : ℕ → ℕ → Bool
has_flag flags bit = not (bit_and flags bit == 0)

-- The locked part of `feed_tcp`, with `send_ack`.
unfoldable pub receive : ConnectionState → Segment → ConnectionState × Bool
receive cs0 g =
    let cs = record cs0 { rx_ack = g.ack; rx_win = g.win } in
    let got = accept cs g.seq g.payload in
    if not cs.connected
    then (if g.flags == syn_ack
        then (
          record cs {
            connected = true;
            tx_seq = wrapping_add cs.tx_seq 1;
            tx_ack = wrapping_add g.seq 1;
          },
          false,
        )
        else (record cs { refused = has_flag g.flags rst; closed = true }, false))
    else if has_flag g.flags rst
    then (record cs { closed = true }, false)
    else if not (is_empty g.payload)
    then (got, true)
    else (cs, false)

-- `std::mem::take(&mut cs.inbox)` in `bridge_stream`: the bytes for the client's socket.
unfoldable pub take_inbox : ConnectionState → Bytes × ConnectionState
take_inbox cs = (cs.inbox, record cs { inbox = [] })

-- The body that `send_tcp` builds.
unfoldable pub encode_segment : MuxConnection → ℕ → Bytes → Bytes
encode_segment conn flags payload =
    to_be_bytes16 conn.sport
    ++ (to_be_bytes16 conn.dport
        ++ (to_be_bytes32 conn.state.tx_seq
            ++ (to_be_bytes32 conn.state.tx_ack
                ++ (0x50 ∷ flags ∷ (to_be_bytes16 (131072 / 256) ++ (0 ∷ 0 ∷ 0 ∷ 0 ∷ payload))))))

module _ {W : Type 0} (write_packet : WritePacket W) where
  unfoldable pub send_tcp : MuxState W → ℕ → ℕ → Bytes → IoResult × MuxState W
  send_tcp s id flags payload =
      let conn = s.store id in
      let cs = conn.state in
      let sent = record cs {
        tx_seq =
            if is_empty payload
            then cs.tx_seq
            else wrapping_add cs.tx_seq (length payload % u32_mod);
      } in
      send_packet write_packet
        (record s { store = update s.store id (record conn { state = sent }) }) proto_tcp
        (encode_segment conn flags payload)

  unfoldable pub feed_tcp : MuxState W → Bytes → MuxState W
  feed_tcp s body = elim (parse_segment body) [
    | none ↦ s
    | some g ↦ elim (lookup g.dport s.connections) [
      | none ↦ s
      | some id ↦
          let conn = s.store id in
          let (cs, send_ack) = receive conn.state g in
          let s' = record s { store = update s.store id (record conn { state = cs }) } in
          if send_ack || (g.flags == syn_ack) then (send_tcp s' id ack_flag []).1 else s'
    ]
  ]
