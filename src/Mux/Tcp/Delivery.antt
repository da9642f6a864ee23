-- ===== src/Mux/Tcp/Delivery.antt =====
-- The whole stream through `feed_tcp` of src/raw_usbmux.rs: pieces arrive and the inbox is read.
use i_usb_bridge.Prelude.{
  ℕ, ◌+◌, ◌^◌, ◌<◌, ◌≡◌, ◌⊎◌, refl, sym, ap, ◌∙◌, inl, inr, false, some, List, [], ◌∷◌, ◌++◌,
  append-nil, arith, length, All, length-append,
}
use i_usb_bridge.Prelude.Bytes.{Bytes}
use i_usb_bridge.Prelude.Table.{lookup}
use i_usb_bridge.Mux.State.{ConnectionState, rst, syn_ack}
use i_usb_bridge.Mux.Tcp.{Segment, receive, has_flag, is_empty, accept, take_inbox, wrapping_add}
use i_usb_bridge.Mux.Tcp.Reassembly.{Tracks, PartOf, receive_established}
use i_usb_bridge.Mux.Tcp.History.{Arrival, arrives, reads, step, run, step-Tracks, handshake-Tracks}
use i_usb_bridge.Mux.Tcp.Pieces.{
  joined, NonEmpty, piece_at, piece_at-within, piece_at-NonEmpty, piece_at-drop, IsBoundary-zero,
}
use i_usb_bridge.Mux.Tcp.Complete.{position, Collects, HasNoGap, accept-Collects}

module _ (ps : List Bytes) (base : ℕ) where
  -- A segment that carries a piece at its place, and does not reset the connection.
  pub record IsPiece (g : Segment) : Type 0 where
    pub offset : ℕ
    pub at : piece_at ps offset ≡ some (g.payload)
    pub numbered : g.seq ≡ position ps base offset
    pub no_reset : has_flag (g.flags) rst ≡ false

  abbrev pub PieceArrival : Arrival → Type 0
  PieceArrival (arrives g) = IsPiece g
  PieceArrival reads = Unit

  -- The piece at an offset is among the arrivals.
  abbrev pub Arrived : ℕ → List Arrival → Type 0
  Arrived off [] = ⊥
  Arrived off (arrives g ∷ more) = (g.seq ≡ position ps base off) ⊎ Arrived off more
  Arrived off (reads ∷ more) = Arrived off more

  module _ (small : length (joined ps) < 2 ^ 31) (solid : All NonEmpty ps) where
    record Both (S : ℕ → Type 0) (s : Bytes × ConnectionState) : Type 0 where
      tracks : Tracks (joined ps) base s.0 s.1
      count : ℕ
      collects : Collects ps base S count s.1
      gapless : HasNoGap s.1

    part_of : (g : Segment) → IsPiece g → PartOf (joined ps) base (g.seq) (g.payload)
    part_of g i =
        let (rest, e) = piece_at-drop ps i.offset (g.payload) i.at in
        record {
          offset = i.offset;
          rest = rest;
          numbered = i.numbered;
          within = omega (arith, piece_at-within ps i.offset (g.payload) i.at);
          here = e;
        }

    payload_some : (g : Segment) → IsPiece g → is_empty (g.payload) ≡ false
    payload_some g i = has_byte (g.payload) (piece_at-NonEmpty ps i.offset (g.payload) solid i.at)
      where
        has_byte : (p : Bytes) → 0 < length p → is_empty p ≡ false
        has_byte [] h = absurd (omega arith)
        has_byte (b ∷ p) h = refl

    noted-Collects :
        (S : ℕ → Type 0) (n : ℕ) (cs : ConnectionState) (ack win : ℕ)
        → Collects ps base S n cs
        → Collects ps base S n (record cs { rx_ack = ack; rx_win = win })
    noted-Collects S n cs ack win c = record {
      boundary = c.boundary;
      acked = c.acked;
      kept = c.kept;
      covers = c.covers;
    }

    arrives-Both :
        (S : ℕ → Type 0) (s : Bytes × ConnectionState) (g : Segment)
        → IsPiece g
        → Both S s
        → Both (λ off. S off ⊎ (g.seq ≡ position ps base off)) (step s (arrives g))
    unfolding step
    arrives-Both S (out, cs) g i b = record {
      tracks =
          step-Tracks (joined ps) base (out, cs) (arrives g) (omega arith) (inr (part_of g i))
            b.tracks;
      count = done.0.0;
      collects = rw same (rw (← i.numbered) at done.0.1);
      gapless = rw same (rw (← i.numbered) at done.1);
    }
      where
        noted : ConnectionState
        noted = record cs { rx_ack = g.ack; rx_win = g.win }

        done :
            ((m : ℕ) × Collects ps base
                (λ off. S off ⊎ (position ps base i.offset ≡ position ps base off))
                m
                (accept noted (position ps base i.offset) (g.payload)))
            × HasNoGap (accept noted (position ps base i.offset) (g.payload))
        done =
            accept-Collects ps base small solid S b.count noted i.offset (g.payload) i.at
              (noted-Collects S b.count cs (g.ack) (g.win) b.collects) b.gapless

        same : (receive cs g).0 ≡ accept noted (g.seq) (g.payload)
        same = receive_established cs g (b.tracks.established) ∙ simp (i.no_reset, payload_some g i)

    reads-Both : (S : ℕ → Type 0) (s : Bytes × ConnectionState) → Both S s → Both S (step s reads)
    unfolding step take_inbox
    reads-Both S (out, cs) b = record {
      tracks = step-Tracks (joined ps) base (out, cs) reads (omega arith) tt b.tracks;
      count = b.count;
      collects = record {
        boundary = b.collects.boundary;
        acked = b.collects.acked;
        kept = b.collects.kept;
        covers = b.collects.covers;
      };
      gapless = b.gapless;
    }

    narrow :
        (S T : ℕ → Type 0) (s : Bytes × ConnectionState)
        → ((off : ℕ) → T off → S off)
        → Both S s
        → Both T s
    narrow S T s f b = record {
      tracks = b.tracks;
      count = b.count;
      collects = record {
        boundary = b.collects.boundary;
        acked = b.collects.acked;
        kept = b.collects.kept;
        covers = λ off p at t. b.collects.covers off p at (f off t);
      };
      gapless = b.gapless;
    }

    run-Both :
        (S : ℕ → Type 0) (s : Bytes × ConnectionState) (more : List Arrival)
        → All PieceArrival more
        → Both S s
        → Both (λ off. S off ⊎ Arrived off more) (run s more)
    unfolding run
    run-Both S s [] h b = narrow S _ s (λ off t. elim t [ inl x ↦ x | inr y ↦ absurd y ]) b
    run-Both S s (reads ∷ more) h b = run-Both S (step s reads) more h.1 (reads-Both S s b)
    run-Both S s (arrives g ∷ more) h b =
        narrow _ _ _
          (λ off t. elim t [
            | inl x ↦ inl (inl x)
            | inr y ↦ elim y [ inl z ↦ inl (inr z) | inr z ↦ inr z ]
          ])
          (run-Both (λ off. S off ⊎ (g.seq ≡ position ps base off)) (step s (arrives g)) more h.1
            (arrives-Both S s g h.0 b))

    -- When every piece has come, nothing of the stream is left.
    all_arrived :
        (S : ℕ → Type 0) (s : Bytes × ConnectionState)
        → ((off : ℕ) (p : Bytes) → piece_at ps off ≡ some p → S off)
        → Both S s
        → s.0 ++ s.1.inbox ≡ joined ps
    all_arrived S (out, cs) every b = elim (b.collects.boundary) [
      | inl e ↦
          let total = length-append (out ++ cs.inbox) (b.tracks.rest) in
          let whole = ap length (b.tracks.split) in
          let none_left : length (b.tracks.rest) ≡ 0 =
            omega (arith, e, total, whole, b.tracks.acked, b.collects.acked) in
          sym (b.tracks.split ∙ ap (λ r. (out ++ cs.inbox) ++ r) (empty _ none_left) ∙ append-nil _)
      | inr (q, e) ↦ elim (b.collects.covers b.count q e (every b.count q e)) [
        | inl f ↦ absurd (omega arith)
        | inr f ↦ absurd (gap b.count q cs (b.collects.acked) (b.gapless) f)
      ]
    ]
      where
        empty : (r : Bytes) → length r ≡ 0 → r ≡ []
        empty [] h = refl
        empty (x ∷ r) h = absurd (omega arith)

        gap :
            (n : ℕ) (q : Bytes) (cs : ConnectionState)
            → cs.tx_ack ≡ position ps base n
            → HasNoGap cs
            → lookup (position ps base n) cs.pending ≡ some q
            → ⊥
        gap n q cs e h f = ground (arith)

-- Nothing is lost: after the handshake, when each piece of the device's stream has arrived at least
-- once, in any order and any number of times, with the client's reads anywhere between, the bytes
-- given to the client followed by those in the inbox are the whole stream, for any cutting of a
-- stream of fewer than 2 ^ 31 bytes into non-empty pieces.
pub run-delivers_whole :
    (ps : List Bytes) (cs : ConnectionState) (g : Segment) (more : List Arrival)
    → length (joined ps) < 2 ^ 31
    → All NonEmpty ps
    → cs.connected ≡ false
    → cs.inbox ≡ []
    → cs.pending ≡ []
    → g.flags ≡ syn_ack
    → All (PieceArrival ps (g.seq + 1)) more
    → ((off : ℕ) (p : Bytes) → piece_at ps off ≡ some p → Arrived ps (g.seq + 1) off more)
    → let (out, cs') = run ([], (receive cs g).0) more in out ++ cs'.inbox ≡ joined ps
run-delivers_whole ps cs g more small solid c i p f pieces every =
    all_arrived ps (g.seq + 1) small solid _ (run ([], (receive cs g).0) more)
      (λ off q e. inr (every off q e))
      (run-Both ps (g.seq + 1) small solid (λ off. ⊥) ([], (receive cs g).0) more pieces
        (record {
          tracks = handshake-Tracks (joined ps) cs g c i p f;
          count = 0;
          collects = begun.0;
          gapless = begun.1;
        }))
  where
    begun : Collects ps (g.seq + 1) (λ off. ⊥) 0 (receive cs g).0 × HasNoGap (receive cs g).0
    begun =
        unfold receive wrapping_add lookup in
        simp (c, f)
          (
            record {
              boundary = IsBoundary-zero ps;
              acked = omega arith;
              kept = rw p tt;
              covers = λ off q e h. absurd h;
            },
            rw p,
          )
