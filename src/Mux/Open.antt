-- ===== src/Mux/Open.antt =====
-- `open_connection` of src/raw_usbmux.rs. While it waits the reader thread goes on: each list of
-- bytes is what that thread receives between two looks at the connection, and the end of the list
-- is the deadline of ten seconds. The threads of other clients do not run meanwhile.
pub mod Ports
pub mod Distinct
use i_usb_bridge.Prelude.{
  ℕ, ◌+◌, ◌%◌, Bool, true, false, ◌||◌, List, [], ◌∷◌, ◌++◌, ltb, if◌then◌else◌, max,
}
use i_usb_bridge.Prelude.Bytes.{Bytes, u16_mod}
use i_usb_bridge.Prelude.Table.{insert}
use i_usb_bridge.Mux.State.{
  MuxState, IoResult, done, io_error, WritePacket, syn, new_connection, update,
}
use i_usb_bridge.Mux.Tcp.{send_tcp}
use i_usb_bridge.Mux.Feed.{feed_packets}

-- The mux and the bytes that wait in the reader thread.
pub record Reader (W : Type 0) : Type 0 where
  pub mux : MuxState W
  pub buffer : Bytes

-- `next.wrapping_add(1).max(1)`
unfoldable pub next_port : ℕ → ℕ
next_port sport = max ((sport + 1) % u16_mod) 1

-- The part under the two locks: a source port, and a connection under it.
unfoldable pub register : {W : Type 0} → MuxState W → ℕ → MuxState W
unfolding next_port
register s dport = record s {
  store =
      update s.store s.allocated
        (record { state = new_connection; sport = s.next_sport; dport = dport });
  allocated = s.allocated + 1;
  connections = insert s.next_sport s.allocated s.connections;
  next_sport = next_port s.next_sport;
}

pub data Opened : Type 0 where
  opened : ℕ → Opened
  refused : Opened
  send_failed : Opened

module _ {W : Type 0} (write_packet : WritePacket W) where
  -- The reader thread receives some bytes.
  unfoldable pub receive_bytes : Reader W → Bytes → Reader W
  receive_bytes r bytes =
      let (s, left) = feed_packets write_packet r.mux (r.buffer ++ bytes) in
      record { mux = s; buffer = left }

  unfoldable pub wait_open : ℕ → List Bytes → Reader W → Reader W
  wait_open id [] r = r
  wait_open id (bytes ∷ later) r =
      let cs = (r.mux.store id).state in
      let next = wait_open id later (receive_bytes r bytes) in
      if cs.connected || cs.closed then r else next

  unfoldable pub open_connection : Reader W → ℕ → List Bytes → Opened × Reader W
  open_connection r dport received =
      let id : ℕ = r.mux.allocated in
      let (sent, s) = send_tcp write_packet (register r.mux dport) id syn [] in
      let r' = record r { mux = s } in
      elim sent [
        | io_error ↦ (send_failed, r')
        | done ↦
            let r'' = wait_open id received r' in
            if (r''.mux.store id).state.connected then (opened id, r'') else (refused, r'')
      ]
