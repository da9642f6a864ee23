-- ===== src/Mux/Bridge/Ports.antt =====
-- What `bridge_stream` of src/raw_usbmux.rs does with the source port of its connection.
use i_usb_bridge.Prelude.{
  ℕ, ◌≡◌, ◌≢◌, refl, ◌∙◌, Bool, true, false, none, List, [], ◌∷◌, arith, Bool-cases, inl, inr,
}
use i_usb_bridge.Prelude.Bytes.{Bytes}
use i_usb_bridge.Prelude.Table.{lookup, remove, lookup-remove}
use i_usb_bridge.Mux.State.{MuxState, IoResult, done, io_error, WritePacket, rst, ack_flag}
use i_usb_bridge.Mux.Tcp.{send_tcp, take_inbox}
use i_usb_bridge.Mux.Open.{Reader, receive_bytes}
use i_usb_bridge.Mux.Open.Ports.{connections-send_tcp, connections-receive_bytes}
use i_usb_bridge.Mux.Bridge.{
  Bridge, Turn, SocketRead, end_of_file, bytes_read, timed_out, failed, Exit, goes_on, breaks,
  fails, waits, no_window, wait_window, flush, forward, round, clean_up, bridge_stream, bridge_loop,
}

module _ {W : Type 0} (write_packet : WritePacket W) (id : ℕ) where
  -- The table of connections is that of the start, unless the loop was left for its clean-up: then
  -- the connection's port is not in the table.
  pub data Ended (b : Bridge W) : Exit × Bridge W → Type 0 where
    freed :
        (b' : Bridge W)
        → lookup (b'.reader.mux.store id).sport b'.reader.mux.connections ≡ none
        → Ended b (breaks, b')
    kept :
        (exit : Exit) (b' : Bridge W)
        → exit ≢ breaks
        → b'.reader.mux.connections ≡ b.reader.mux.connections
        → Ended b (exit, b')

  connections-wait_window :
      (later : List Bytes) (r : Reader W)
      → (wait_window write_packet id later r).mux.connections ≡ r.mux.connections
  unfolding wait_window
  connections-wait_window [] r = refl
  connections-wait_window (bytes ∷ later) r = elim (Bool-cases (no_window write_packet id r)) [
    | inl e ↦
        rw (e, wait_window)
          (connections-wait_window later (receive_bytes write_packet r bytes)
            ∙ connections-receive_bytes write_packet r bytes)
    | inr e ↦ rw (e, wait_window)
  ]

  connections-flush :
      (write_ok : Bool) (b : Bridge W)
      → (flush write_packet id write_ok b).1.reader.mux.connections ≡ b.reader.mux.connections
  unfolding flush take_inbox
  connections-flush write_ok b = ground arith

  connections-forward :
      (later : List Bytes) (bytes : Bytes) (r : Reader W)
      → (forward write_packet id later bytes r).1.mux.connections ≡ r.mux.connections
  unfolding forward
  connections-forward later bytes r = elim (Bool-cases (no_window write_packet id r1)) [
    | inl e ↦ rw (e, forward) h
    | inr e ↦ elim (Bool-cases ((r1.mux.store id).state.closed)) [
      | inl f ↦ rw (e, f, forward) h
      | inr f ↦ go e f (sent.0) refl
    ]
  ]
    where
      r1 : Reader W
      r1 = wait_window write_packet id later r

      h : r1.mux.connections ≡ r.mux.connections
      h = connections-wait_window later r

      sent : IoResult × MuxState W
      sent = send_tcp write_packet r1.mux id ack_flag bytes

      go :
          no_window write_packet id r1 ≡ false
          → (r1.mux.store id).state.closed ≡ false
          → (outcome : IoResult) → sent.0 ≡ outcome
          → (forward write_packet id later bytes r).1.mux.connections ≡ r.mux.connections
      go e f done g =
          rw (e, f, g, forward) (connections-send_tcp write_packet r1.mux id ack_flag bytes ∙ h)
      go e f io_error g =
          rw (e, f, g, forward) (connections-send_tcp write_packet r1.mux id ack_flag bytes ∙ h)

  connections-round :
      (t : Turn) (b : Bridge W)
      → (round write_packet id t b).1.reader.mux.connections ≡ b.reader.mux.connections
  unfolding round
  connections-round t b = elim (Bool-cases (t.stop)) [
    | inl e ↦ rw (e, round) h
    | inr e ↦ go e (t.read) refl
  ]
    where
      b1 : Bridge W
      b1 = record b { reader = receive_bytes write_packet (b.reader) (t.received) }

      h : b1.reader.mux.connections ≡ b.reader.mux.connections
      h = connections-receive_bytes write_packet (b.reader) (t.received)

      sent : Bytes → Exit × Reader W
      sent bytes = forward write_packet id (t.window_waits) bytes (b1.reader)

      forwarded : (bytes : Bytes) → (sent bytes).1.mux.connections ≡ b.reader.mux.connections
      forwarded bytes = connections-forward (t.window_waits) bytes (b1.reader) ∙ h

      after :
          (bytes : Bytes)
          → t.stop ≡ false
          → t.read ≡ bytes_read bytes
          → (exit : Exit) → (sent bytes).0 ≡ exit
          → (round write_packet id t b).1.reader.mux.connections ≡ b.reader.mux.connections
      after bytes e f goes_on g =
          rw (e, f, g, round)
            (connections-flush (t.write_ok) (record b1 { reader = (sent bytes).1 })
              ∙ forwarded bytes)
      after bytes e f breaks g = rw (e, f, g, round) (forwarded bytes)
      after bytes e f fails g = rw (e, f, g, round) (forwarded bytes)
      after bytes e f waits g = rw (e, f, g, round) (forwarded bytes)

      go :
          t.stop ≡ false
          → (read : SocketRead) → t.read ≡ read
          → (round write_packet id t b).1.reader.mux.connections ≡ b.reader.mux.connections
      go e end_of_file f = rw (e, f, round) h
      go e failed f = rw (e, f, round) h
      go e timed_out f = rw (e, f, round) (connections-flush (t.write_ok) b1 ∙ h)
      go e (bytes_read bytes) f = after bytes e f (sent bytes).0 refl

  bridge_loop-Ended :
      (turns : List Turn) (b : Bridge W) → Ended b (bridge_loop write_packet id turns b)
  unfolding bridge_loop clean_up
  bridge_loop-Ended [] b = kept goes_on b (λ e. absurd (cc)) refl
  bridge_loop-Ended (t ∷ later) b =
      go (next.0) refl (bridge_loop-Ended later (next.1)) (connections-round t b)
    where
      next : Exit × Bridge W
      next = round write_packet id t b

      same :
          (out : Exit × Bridge W)
          → Ended next.1 out
          → next.1.reader.mux.connections ≡ b.reader.mux.connections
          → Ended b out
      same _ (freed b' e) h = freed b' e
      same _ (kept exit b' n e) h = kept exit b' n (e ∙ h)

      go :
          (exit : Exit)
          → next.0 ≡ exit
          → Ended next.1 (bridge_loop write_packet id later next.1)
          → next.1.reader.mux.connections ≡ b.reader.mux.connections
          → Ended b (bridge_loop write_packet id (t ∷ later) b)
      go goes_on e rest h = rw (e, bridge_loop) (same _ rest h)
      go fails e rest h = rw (e, bridge_loop) (kept fails next.1 (λ e. absurd (cc)) h)
      go waits e rest h = rw (e, bridge_loop) (kept waits next.1 (λ e. absurd (cc)) h)
      go breaks e rest h = rw (e, bridge_loop) (freed (clean_up write_packet id next.1) removed)
        where
          s : MuxState W
          s = (send_tcp write_packet (next.1.reader.mux) id rst []).1

          removed : lookup (s.store id).sport (remove (s.store id).sport s.connections) ≡ none
          removed =
              ground (arith, lookup-remove (s.store id).sport (s.store id).sport s.connections)

  -- However `bridge_stream` goes, while no other client's thread runs: when its loop is left for the
  -- clean-up, the connection's source port is not in the table of connections afterwards; on every
  -- other way out, a timeout that cannot be set, a socket error and a failed send among them, the
  -- table is the one that the bridge began with.
  pub bridge_stream-Ended :
      (timeouts_set : Bool) (turns : List Turn) (b : Bridge W)
      → Ended b (bridge_stream write_packet id timeouts_set turns b)
  unfolding bridge_stream
  bridge_stream-Ended true turns b = bridge_loop-Ended turns b
  bridge_stream-Ended false turns b = kept fails b (λ e. absurd (cc)) refl
