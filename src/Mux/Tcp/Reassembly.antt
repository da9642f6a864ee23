-- ===== src/Mux/Tcp/Reassembly.antt =====
-- Reassembly in `feed_tcp` of src/raw_usbmux.rs: what the inbox holds when the device sends parts
-- of one byte stream, in any order, overlapping or again.
use i_usb_bridge.Prelude.{
  ℕ, zero, suc, ◌+◌, ◌%◌, ◌≤◌, ◌<◌, ◌≡◌, ◌⊎◌, sym, ap, ◌∙◌, true, [], ◌++◌, append_assoc, arith,
  ltb, ◌==◌, if◌then◌else◌, length, drop, All, Bool-cases, Option-cases, inl, inr, length-append,
  drop-length-append, ==_iff,
}
use i_usb_bridge.Prelude.Bytes.{Bytes, u32_mod}
use i_usb_bridge.Prelude.Table.{lookup, remove, All-lookup, All-remove, All-insert}
use i_usb_bridge.Mux.State.{ConnectionState, rst}
use i_usb_bridge.Mux.Tcp.{
  Segment, wrapping_add, wrapping_sub, deliver, drain, hold, accept, receive, is_empty, has_flag,
}

-- What `feed_tcp` does with a segment once the connection is established.
pub receive_established :
    (cs : ConnectionState) (g : Segment)
    → cs.connected ≡ true
    → let noted = record cs { rx_ack = g.ack; rx_win = g.win } in
      (receive cs g).0 ≡ (
        if has_flag g.flags rst
        then record noted { closed = true }
        else if is_empty g.payload
        then noted
        else accept noted g.seq g.payload)
unfolding receive
receive_established cs g h = ground arith

module _ (stream : Bytes) (base : ℕ) where
  -- The sequence number of an offset into the stream.
  abbrev pub position : ℕ → ℕ
  position n = (base + n) % u32_mod

  -- The bytes `p` with the sequence number `seq` are a part of the stream.
  pub record PartOf (seq : ℕ) (p : Bytes) : Type 0 where
    pub offset : ℕ
    pub rest : Bytes
    pub numbered : seq ≡ position offset
    pub within : offset ≤ length stream
    pub here : drop offset stream ≡ p ++ rest

  abbrev pub Held : ℕ × Bytes → Type 0
  Held (seq, p) = PartOf seq p

  -- `out` was taken from the inbox before; with the inbox it is the start of the stream, up to the
  -- acknowledged position, and all that waits is part of the stream.
  pub record Tracks (out : Bytes) (cs : ConnectionState) : Type 0 where
    pub rest : Bytes
    pub split : stream ≡ (out ++ cs.inbox) ++ rest
    pub acked : cs.tx_ack ≡ position (length (out ++ cs.inbox))
    pub held : All Held cs.pending
    pub established : cs.connected ≡ true

  position_injective :
      (m n : ℕ)
      → length stream < u32_mod
      → m ≤ length stream
      → n ≤ length stream
      → position m ≡ position n
      → m ≡ n
  position_injective m n h hm hn e = omega arith

  deliver-Tracks :
      (out : Bytes) (cs : ConnectionState) (p : Bytes)
      → length stream < u32_mod
      → PartOf cs.tx_ack p
      → Tracks out cs
      → Tracks out (deliver cs p)
  unfolding deliver wrapping_add
  deliver-Tracks out cs p h part t = record {
    rest = part.rest;
    split = split';
    acked = acked';
    held = t.held;
    established = t.established;
  }
    where
      taken : ℕ
      taken = length (out ++ cs.inbox)

      shorter : taken + length t.rest ≡ length stream
      shorter = sym (length-append (out ++ cs.inbox) t.rest) ∙ ap length (sym t.split)

      same : part.offset ≡ taken
      same =
          position_injective part.offset taken h part.within (omega (arith, shorter))
            (sym part.numbered ∙ t.acked)

      next : t.rest ≡ p ++ part.rest
      next =
          sym (drop-length-append (out ++ cs.inbox) t.rest)
          ∙ ap (drop taken) (sym t.split)
          ∙ ap (λ k. drop k stream) (sym same)
          ∙ part.here

      split' : stream ≡ (out ++ (cs.inbox ++ p)) ++ part.rest
      split' = t.split ∙ ap (λ r. (out ++ cs.inbox) ++ r) next ∙ simp append_assoc

      acked' :
          (cs.tx_ack + length p % u32_mod) % u32_mod ≡ position (length (out ++ (cs.inbox ++ p)))
      acked' = omega (
        arith,
        t.acked,
        length-append out cs.inbox,
        length-append out (cs.inbox ++ p),
        length-append cs.inbox p,
      )

  drain-Tracks :
      (fuel : ℕ) (out : Bytes) (cs : ConnectionState)
      → length stream < u32_mod
      → Tracks out cs
      → Tracks out (drain fuel cs)
  unfolding drain
  drain-Tracks zero out cs h t = t
  drain-Tracks (suc fuel) out cs h t = elim (Option-cases (lookup cs.tx_ack cs.pending)) [
    | inl e ↦ rw (e, drain) t
    | inr (p, e) ↦
        rw (e, drain)
          (drain-Tracks fuel out _ h (
            deliver-Tracks out (record cs { pending = remove cs.tx_ack cs.pending }) p h
              (All-lookup Held cs.tx_ack cs.pending p t.held e)
              (record {
                rest = t.rest;
                split = t.split;
                acked = t.acked;
                held = All-remove Held cs.tx_ack cs.pending t.held;
                established = t.established;
              })))
  ]

  hold-Tracks :
      (out : Bytes) (cs : ConnectionState) (seq : ℕ) (p : Bytes)
      → PartOf seq p
      → Tracks out cs
      → Tracks out (hold cs seq p)
  unfolding hold
  hold-Tracks out cs seq p part t = elim (Option-cases (lookup seq cs.pending)) [
    | inr (q, e) ↦ rw (e, hold) t
    | inl e ↦
        rw (e, hold)
          (record {
            rest = t.rest;
            split = t.split;
            acked = t.acked;
            held = All-insert Held seq p cs.pending part t.held;
            established = t.established;
          })
  ]

  accept-Tracks :
      (out : Bytes) (cs : ConnectionState) (seq : ℕ) (p : Bytes)
      → length stream < u32_mod
      → PartOf seq p
      → Tracks out cs
      → Tracks out (accept cs seq p)
  unfolding accept
  accept-Tracks out cs seq p h part t = elim (Bool-cases (seq == cs.tx_ack)) [
    | inl e ↦ rw e (
        drain-Tracks _ out _ h
          (deliver-Tracks out cs p h (rw ((==_iff seq cs.tx_ack).0 e) at part) t))
    | inr e ↦ elim (Bool-cases (ltb (wrapping_sub seq cs.tx_ack) 0x8000_0000)) [
      | inl f ↦ rw (e, f) (hold-Tracks out cs seq p part t)
      | inr f ↦ rw (e, f) t
    ]
  ]

  noted-Tracks :
      (out : Bytes) (cs : ConnectionState) (ack win : ℕ)
      → Tracks out cs
      → Tracks out (record cs { rx_ack = ack; rx_win = win })
  noted-Tracks out cs ack win t = record {
    rest = t.rest;
    split = t.split;
    acked = t.acked;
    held = t.held;
    established = t.established;
  }

  closed-Tracks :
      (out : Bytes) (cs : ConnectionState)
      → Tracks out cs
      → Tracks out (record cs { closed = true })
  closed-Tracks out cs t = record {
    rest = t.rest;
    split = t.split;
    acked = t.acked;
    held = t.held;
    established = t.established;
  }

  -- A segment is empty, or part of the stream.
  abbrev pub Honest : Segment → Type 0
  Honest g = (g.payload ≡ []) ⊎ PartOf g.seq g.payload

  pub receive-Tracks :
      (out : Bytes) (cs : ConnectionState) (g : Segment)
      → length stream < u32_mod
      → Honest g
      → Tracks out cs
      → Tracks out (receive cs g).0
  receive-Tracks out cs g h honest t =
      rw (receive_established cs g t.established) (elim (Bool-cases (has_flag g.flags rst)) [
        | inl e ↦ rw e (closed-Tracks out _ noted)
        | inr e ↦ elim honest [
          | inl f ↦ rw (e, f) noted
          | inr part ↦ elim (Bool-cases (is_empty g.payload)) [
            | inl f ↦ rw (e, f) noted
            | inr f ↦ rw (e, f) (accept-Tracks out _ g.seq g.payload h part noted)
          ]
        ]
      ])
    where
      noted : Tracks out (record cs { rx_ack = g.ack; rx_win = g.win })
      noted = noted-Tracks out cs g.ack g.win t
