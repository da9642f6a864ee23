-- ===== src/Mux/Tcp/History.antt =====
-- Histories of one connection of src/raw_usbmux.rs: segments arrive, and the bridge thread takes
-- the inbox for the client's socket.
use i_usb_bridge.Prelude.{
  ℕ, ◌+◌, ◌%◌, ◌<◌, ◌≡◌, refl, sym, ap, ◌∙◌, false, List, [], ◌∷◌, ◌++◌, append-nil, arith, length,
  All,
}
use i_usb_bridge.Prelude.Bytes.{Bytes, u32_mod}
use i_usb_bridge.Mux.State.{ConnectionState, syn_ack}
use i_usb_bridge.Mux.Tcp.{Segment, receive, take_inbox, wrapping_add}
use i_usb_bridge.Mux.Tcp.Reassembly.{Tracks, Honest, receive-Tracks}

pub data Arrival : Type 0 where
  arrives : Segment → Arrival
  reads : Arrival

-- One step, with the bytes that the client has been given so far.
unfoldable pub step : Bytes × ConnectionState → Arrival → Bytes × ConnectionState
step (out, cs) (arrives g) = (out, (receive cs g).0)
step (out, cs) reads = let (bytes, cs') = take_inbox cs in (out ++ bytes, cs')

unfoldable pub run : Bytes × ConnectionState → List Arrival → Bytes × ConnectionState
run s [] = s
run s (a ∷ more) = run (step s a) more

module _ (stream : Bytes) (base : ℕ) where
  abbrev pub HonestArrival : Arrival → Type 0
  HonestArrival (arrives g) = Honest stream base g
  HonestArrival reads = Unit

  pub step-Tracks :
      (s : Bytes × ConnectionState) (a : Arrival)
      → length stream < u32_mod
      → HonestArrival a
      → Tracks stream base s.0 s.1
      → Tracks stream base (step s a).0 (step s a).1
  unfolding step take_inbox
  step-Tracks (out, cs) (arrives g) h honest t = receive-Tracks stream base out cs g h honest t
  step-Tracks (out, cs) reads h honest t = record {
    rest = t.rest;
    split = t.split ∙ sym (ap (λ b. b ++ t.rest) (append-nil (out ++ cs.inbox)));
    acked = t.acked ∙ sym (ap (λ b. (base + length b) % u32_mod) (append-nil (out ++ cs.inbox)));
    held = t.held;
    established = t.established;
  }

  run-Tracks :
      (s : Bytes × ConnectionState) (more : List Arrival)
      → length stream < u32_mod
      → All HonestArrival more
      → Tracks stream base s.0 s.1
      → Tracks stream base (run s more).0 (run s more).1
  unfolding run
  run-Tracks s [] h honest t = t
  run-Tracks s (a ∷ more) h honest t =
      run-Tracks (step s a) more h honest.1 (step-Tracks s a h honest.0 t)

-- The answer SYN|ACK opens the connection at the device's first sequence number.
pub handshake-Tracks :
    (stream : Bytes) (cs : ConnectionState) (g : Segment)
    → cs.connected ≡ false
    → cs.inbox ≡ []
    → cs.pending ≡ []
    → g.flags ≡ syn_ack
    → Tracks stream (g.seq + 1) [] (receive cs g).0
unfolding receive wrapping_add
handshake-Tracks stream cs g c i p f =
    simp (c, f)
      (record {
        rest = stream;
        split = rw i;
        acked = rw i (omega arith);
        held = rw p tt;
        established = refl;
      })

-- After the handshake the bytes given to the client, followed by those in the inbox, are always a
-- prefix of the device's stream, whatever the order, the repetition and the cutting of the segments
-- that arrive, as long as each is empty or part of the stream at its sequence number and the stream
-- is shorter than 2 ^ 32 bytes; and the acknowledgement number counts exactly those bytes.
pub run-delivers_prefix :
    (stream : Bytes) (cs : ConnectionState) (g : Segment) (more : List Arrival)
    → length stream < u32_mod
    → cs.connected ≡ false
    → cs.inbox ≡ []
    → cs.pending ≡ []
    → g.flags ≡ syn_ack
    → All (HonestArrival stream (g.seq + 1)) more
    → let (out, cs') = run ([], (receive cs g).0) more in
      ((rest : Bytes) × (stream ≡ (out ++ cs'.inbox) ++ rest))
      × (cs'.tx_ack ≡ (g.seq + 1 + length (out ++ cs'.inbox)) % u32_mod)
run-delivers_prefix stream cs g more h c i p f honest = ((t.rest, t.split), t.acked)
  where
    t :
        Tracks stream
          (g.seq + 1)
          (run ([], (receive cs g).0) more).0
          (run ([], (receive cs g).0) more).1
    t =
        run-Tracks stream (g.seq + 1) ([], (receive cs g).0) more h honest
          (handshake-Tracks stream cs g c i p f)
