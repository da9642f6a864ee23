-- ===== src/Mux/Bridge.antt =====
-- `bridge_stream` of src/raw_usbmux.rs: the loop between a client's socket and a connection. A turn
-- says what the socket, the reader thread and the stop flag do in one round of the loop. The threads
-- of other clients do not run meanwhile.
pub mod Ports
use i_usb_bridge.Prelude.{ℕ, Bool, not, ◌&&◌, List, [], ◌∷◌, ◌++◌, ◌==◌, if◌then◌else◌}
use i_usb_bridge.Prelude.Bytes.{Bytes}
use i_usb_bridge.Prelude.Table.{remove}
use i_usb_bridge.Mux.State.{done, io_error, WritePacket, rst, ack_flag, update}
use i_usb_bridge.Mux.Tcp.{send_tcp, take_inbox, is_empty}
use i_usb_bridge.Mux.Open.{Reader, receive_bytes}

pub data SocketRead : Type 0 where
  end_of_file : SocketRead
  bytes_read : Bytes → SocketRead
  timed_out : SocketRead
  failed : SocketRead

pub record Turn : Type 0 where
  pub stop : Bool
  pub received : Bytes
  pub read : SocketRead
  pub window_waits : List Bytes
  pub write_ok : Bool

-- `breaks` leaves the loop for the clean-up, `fails` returns an error at once, and `waits` is a
-- round that never gets a window.
pub data Exit : Type 0 where
  goes_on breaks fails waits : Exit

-- The reader, and what the client's socket has been given.
pub record Bridge (W : Type 0) : Type 0 where
  pub reader : Reader W
  pub client : Bytes

module _ {W : Type 0} (write_packet : WritePacket W) (id : ℕ) where
  unfoldable pub no_window : Reader W → Bool
  no_window r = let cs = (r.mux.store id).state in (cs.rx_win == 0) && not cs.closed

  unfoldable pub wait_window : List Bytes → Reader W → Reader W
  wait_window [] r = r
  wait_window (bytes ∷ later) r =
      let next = wait_window later (receive_bytes write_packet r bytes) in
      if no_window r then next else r

  -- The end of a round: hand the inbox to the client, or leave when the connection is closed.
  unfoldable pub flush : Bool → Bridge W → Exit × Bridge W
  unfolding take_inbox
  flush write_ok b =
      let s = b.reader.mux in
      let conn = s.store id in
      let (bytes, cs) = take_inbox conn.state in
      let r = record (b.reader) {
        mux = record s { store = update s.store id (record conn { state = cs }) };
      } in
      if not (is_empty bytes)
      then (if write_ok
          then (goes_on, record { reader = r; client = b.client ++ bytes })
          else (fails, record b { reader = r }))
      else if conn.state.closed
      then (breaks, b)
      else (goes_on, b)

  -- The branch of bytes read from the socket, before the inbox is looked at.
  unfoldable pub forward : List Bytes → Bytes → Reader W → Exit × Reader W
  unfolding wait_window no_window
  forward waits_for bytes r0 =
      let r = wait_window waits_for r0 in
      let (sent, s) = send_tcp write_packet r.mux id ack_flag bytes in
      if no_window r
      then (waits, r)
      else if (r.mux.store id).state.closed
      then (breaks, r)
      else elim sent [
        | done ↦ (goes_on, record r { mux = s })
        | io_error ↦ (fails, record r { mux = s })
      ]

  unfoldable pub round : Turn → Bridge W → Exit × Bridge W
  unfolding forward flush
  round t b0 =
      let b = record b0 { reader = receive_bytes write_packet (b0.reader) (t.received) } in
      if t.stop then (breaks, b) else elim (t.read) [
        | end_of_file ↦ (breaks, b)
        | failed ↦ (fails, b)
        | timed_out ↦ flush (t.write_ok) b
        | bytes_read bytes ↦
            let (exit, r) = forward (t.window_waits) bytes (b.reader) in
            elim exit [
              | goes_on ↦ flush (t.write_ok) (record b { reader = r })
              | breaks ↦ (breaks, record b { reader = r })
              | fails ↦ (fails, record b { reader = r })
              | waits ↦ (waits, record b { reader = r })
            ]
      ]

  -- After the loop: RST to the device, and the source port is free again.
  unfoldable pub clean_up : Bridge W → Bridge W
  clean_up b =
      let s = (send_tcp write_packet (b.reader.mux) id rst []).1 in
      record b {
        reader = record (b.reader) {
          mux = record s { connections = remove ((s.store id).sport) s.connections };
        };
      }

  unfoldable pub bridge_loop : List Turn → Bridge W → Exit × Bridge W
  unfolding round clean_up
  bridge_loop [] b = (goes_on, b)
  bridge_loop (t ∷ later) b =
      let (exit, b') = round t b in
      elim exit [
        | goes_on ↦ bridge_loop later b'
        | breaks ↦ (breaks, clean_up b')
        | fails ↦ (fails, b')
        | waits ↦ (waits, b')
      ]

  -- `timeouts_set`: do `set_read_timeout` and `set_write_timeout` succeed?
  unfoldable pub bridge_stream : Bool → List Turn → Bridge W → Exit × Bridge W
  bridge_stream timeouts_set turns b = if timeouts_set then bridge_loop turns b else (fails, b)
