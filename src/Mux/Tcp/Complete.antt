-- ===== src/Mux/Tcp/Complete.antt =====
-- Reassembly in `feed_tcp` of src/raw_usbmux.rs loses nothing: once each piece of the stream has
-- arrived, in any order and any number of times, the whole stream is delivered.
use i_usb_bridge.Prelude.{
  ℕ, zero, suc, ◌+◌, ◌-◌, ◌%◌, ◌^◌, ◌≤◌, ◌<◌, ◌≡◌, ◌≢◌, ◌⊎◌, refl, sym, ◌∙◌, inl, inr, false, none,
  some, List, [], ◌∷◌, arith, ltb, ◌==◌, length, All, Bool-cases, Option-cases, ==_iff,
}
use i_usb_bridge.Prelude.Bytes.{Bytes, u32_mod}
use i_usb_bridge.Prelude.Table.{
  Table, lookup, remove, lookup-insert, lookup-remove, length-remove, All-lookup, All-remove,
  All-insert,
}
use i_usb_bridge.Mux.State.{ConnectionState}
use i_usb_bridge.Mux.Tcp.{wrapping_add, wrapping_sub, deliver, drain, hold, accept}
use i_usb_bridge.Mux.Tcp.Pieces.{
  joined, NonEmpty, piece_at, piece_at-within, piece_at-NonEmpty, IsBoundary, IsBoundary-next,
}

-- One round of `drain`.
drain-none :
    (fuel : ℕ) (cs : ConnectionState)
    → lookup cs.tx_ack cs.pending ≡ none
    → drain (suc fuel) cs ≡ cs
unfolding drain
drain-none fuel cs e = rw (e, drain)

drain-some :
    (fuel : ℕ) (cs : ConnectionState) (p : Bytes)
    → lookup cs.tx_ack cs.pending ≡ some p
    → drain (suc fuel) cs
      ≡ drain fuel (deliver (record cs { pending = remove cs.tx_ack cs.pending }) p)
unfolding drain
drain-some fuel cs p e = rw (e, drain)

lookup_nil : (m : Table Bytes) (k : ℕ) → length m ≤ 0 → lookup k m ≡ none
unfolding lookup
lookup_nil [] k h = refl
lookup_nil (x ∷ m) k h = absurd (omega arith)

abbrev pub HasNoGap : ConnectionState → Type 0
HasNoGap cs = lookup cs.tx_ack cs.pending ≡ none

-- The loop of `drain` has enough fuel: it ends with nothing waiting at the acknowledged position.
pub drain-HasNoGap :
    (fuel : ℕ) (cs : ConnectionState) → length cs.pending ≤ fuel → HasNoGap (drain fuel cs)
unfolding drain
drain-HasNoGap zero cs h = lookup_nil cs.pending cs.tx_ack h
drain-HasNoGap (suc fuel) cs h = elim (Option-cases (lookup cs.tx_ack cs.pending)) [
  | inl e ↦ rw (drain-none fuel cs e) e
  | inr (p, e) ↦
      let shorter = length-remove cs.tx_ack p cs.pending e in
      rw (drain-some fuel cs p e) (drain-HasNoGap fuel _ (unfold deliver in omega arith))
]

module _ (ps : List Bytes) (base : ℕ) where
  abbrev pub position : ℕ → ℕ
  position n = (base + n) % u32_mod

  abbrev Kept : ℕ × Bytes → Type 0
  Kept (k, p) = (off : ℕ) × (k ≡ position off) × (piece_at ps off ≡ some p)

  -- `n` bytes are acknowledged, and each piece that came (`S` holds of its offset) is among them or
  -- waits in `pending`.
  pub record Collects (S : ℕ → Type 0) (n : ℕ) (cs : ConnectionState) : Type 0 where
    pub boundary : IsBoundary ps n
    pub acked : cs.tx_ack ≡ position n
    pub kept : All Kept cs.pending
    pub covers :
        (off : ℕ) (p : Bytes)
        → piece_at ps off ≡ some p
        → S off
        → (off < n) ⊎ (lookup (position off) cs.pending ≡ some p)

  module _ (small : length (joined ps) < 2 ^ 31) (solid : All NonEmpty ps) where
    offset_eq :
        (m n : ℕ)
        → m ≤ length (joined ps)
        → n ≤ length (joined ps)
        → position m ≡ position n
        → m ≡ n
    offset_eq m n hm hn e = omega arith

    boundary-le : (n : ℕ) → IsBoundary ps n → n ≤ length (joined ps)
    boundary-le n (inl e) = omega arith
    boundary-le n (inr (q, e)) = omega (arith, piece_at-within ps n q e)

    deliver-Collects :
        (S : ℕ → Type 0) (n : ℕ) (cs : ConnectionState) (pending : Table Bytes) (q : Bytes)
        → piece_at ps n ≡ some q
        → Collects S n cs
        → All Kept pending
        → ((k : ℕ) (p : Bytes)
            → k ≢ position n
            → lookup k cs.pending ≡ some p
            → lookup k pending ≡ some p)
        → Collects S (n + length q) (deliver (record cs { pending = pending }) q)
    unfolding deliver wrapping_add
    deliver-Collects S n cs pending q here c kept same = record {
      boundary = IsBoundary-next ps n q solid here;
      acked = omega (arith, c.acked, piece_at-within ps n q here);
      kept = kept;
      covers = λ off p at seen. elim (c.covers off p at seen) [
        | inl before ↦ inl (omega arith)
        | inr waits ↦ elim (Bool-cases (off == n)) [
          | inl e ↦ inl (omega (arith, (==_iff off n).0 e, piece_at-NonEmpty ps n q solid here))
          | inr e ↦ inr (
              same (position off) p
                (λ f. ground (
                  arith,
                  offset_eq off n (omega (arith, piece_at-within ps off p at))
                      (omega (arith, piece_at-within ps n q here)) f,
                ))
                waits)
        ]
      ];
    }

    -- What `pending` holds at an offset is the piece there.
    Kept-at :
        (n : ℕ) (k : ℕ) (p : Bytes)
        → k ≡ position n
        → n ≤ length (joined ps)
        → Kept (k, p)
        → piece_at ps n ≡ some p
    Kept-at n k p e h (off, f, at) =
        let same : off ≡ n =
          offset_eq off n (omega (arith, piece_at-within ps off p at)) h (sym f ∙ e) in
        rw (← same) at

    drain-Collects :
        (fuel : ℕ) (S : ℕ → Type 0) (n : ℕ) (cs : ConnectionState)
        → Collects S n cs
        → (m : ℕ) × Collects S m (drain fuel cs)
    unfolding drain
    drain-Collects zero S n cs c = (n, c)
    drain-Collects (suc fuel) S n cs c = elim (Option-cases (lookup cs.tx_ack cs.pending)) [
      | inl e ↦ rw (drain-none fuel cs e) (n, c)
      | inr (p, e) ↦ rw (drain-some fuel cs p e) (
          drain-Collects fuel S (n + length p) _ (
            deliver-Collects S n cs (remove cs.tx_ack cs.pending) p
              (Kept-at n cs.tx_ack p c.acked (boundary-le n c.boundary)
                (All-lookup Kept cs.tx_ack cs.pending p c.kept e))
              c (All-remove Kept cs.tx_ack cs.pending c.kept)
              (λ k q ne f. ground (arith, lookup-remove cs.tx_ack k cs.pending, c.acked))))
    ]

    widen :
        (S T : ℕ → Type 0) (n : ℕ) (cs : ConnectionState)
        → ((off : ℕ) (p : Bytes)
            → piece_at ps off ≡ some p
            → T off
            → (S off) ⊎ ((off < n) ⊎ (lookup (position off) cs.pending ≡ some p)))
        → Collects S n cs
        → Collects T n cs
    widen S T n cs f c = record {
      boundary = c.boundary;
      acked = c.acked;
      kept = c.kept;
      covers = λ off p at t. elim (f off p at t) [ inl s ↦ c.covers off p at s | inr h ↦ h ];
    }

    -- A piece that is held.
    hold-Collects :
        (S : ℕ → Type 0) (n : ℕ) (cs : ConnectionState) (o : ℕ) (p : Bytes)
        → piece_at ps o ≡ some p
        → Collects S n cs
        → Collects (λ off. S off ⊎ (position o ≡ position off)) n (hold cs (position o) p)
    unfolding hold
    hold-Collects S n cs o p here c = elim (Option-cases (lookup (position o) cs.pending)) [
      | inr (q, e) ↦
          rw (e, hold)
            (widen S _ n cs
              (λ off r at t. elim t [
                | inl s ↦ inl s
                | inr f ↦
                    let q_here =
                      Kept-at off (position o) q f (omega (arith, piece_at-within ps off r at))
                        (All-lookup Kept (position o) cs.pending q c.kept e) in
                    inr (inr (ground (arith)))
              ])
              c)
      | inl e ↦
          rw (e, hold)
            (record {
              boundary = c.boundary;
              acked = c.acked;
              kept = All-insert Kept (position o) p cs.pending (o, refl, here) c.kept;
              covers = λ off r at t. elim t [
                | inl s ↦ elim (c.covers off r at s) [
                  | inl before ↦ inl before
                  | inr waits ↦
                      inr (ground (arith, lookup-insert (position o) (position off) p cs.pending))
                ]
                | inr f ↦
                    let r_here =
                      Kept-at o (position off) r (sym f)
                        (omega (arith, piece_at-within ps o p here)) (off, refl, at) in
                    inr (ground (arith, lookup-insert (position o) (position off) p cs.pending))
              ];
            })
    ]

    hold-HasNoGap :
        (cs : ConnectionState) (seq : ℕ) (p : Bytes)
        → (seq == cs.tx_ack) ≡ false
        → HasNoGap cs
        → HasNoGap (hold cs seq p)
    unfolding hold
    hold-HasNoGap cs seq p e h = elim (Option-cases (lookup seq cs.pending)) [
      | inr (q, f) ↦ rw (f, hold) h
      | inl f ↦ rw (f, hold) (ground (arith, lookup-insert seq cs.tx_ack p cs.pending))
    ]

    abbrev Now : (ℕ → Type 0) → ℕ → ℕ → Type 0
    Now S o off = S off ⊎ (position o ≡ position off)

    -- Outside the window of 2 ^ 31 an offset is one that was passed.
    behind :
        (o n tx : ℕ)
        → o ≤ length (joined ps)
        → n ≤ length (joined ps)
        → tx ≡ position n
        → ltb (wrapping_sub (position o) tx) 0x8000_0000 ≡ false
        → o < n
    unfolding wrapping_sub
    behind o n tx ho hn e f =
        let far : 0x8000_0000 ≤ (position o + u32_mod - tx) % u32_mod = ground arith in omega arith

    -- A piece that arrives is delivered, held, or was delivered before.
    pub accept-Collects :
        (S : ℕ → Type 0) (n : ℕ) (cs : ConnectionState) (o : ℕ) (p : Bytes)
        → piece_at ps o ≡ some p
        → Collects S n cs
        → HasNoGap cs
        → ((m : ℕ) × Collects (Now S o) m (accept cs (position o) p))
          × HasNoGap (accept cs (position o) p)
    unfolding accept
    accept-Collects S n cs o p here c gapless = elim (Bool-cases (position o == cs.tx_ack)) [
      | inl e ↦
          let same : o ≡ n =
            offset_eq o n (omega (arith, piece_at-within ps o p here)) (boundary-le n c.boundary)
              ((==_iff (position o) cs.tx_ack).0 e ∙ c.acked) in
          let at_n : piece_at ps n ≡ some p = rw (← same) here in
          let delivered =
            widen S (Now S o) (n + length p) (deliver cs p)
              (λ off r at t. elim t [
                | inl s ↦ inl s
                | inr f ↦ inr (
                    inl (
                      omega (
                        arith,
                        same,
                        piece_at-NonEmpty ps n p solid at_n,
                        offset_eq o off (omega (arith, piece_at-within ps o p here))
                            (omega (arith, piece_at-within ps off r at)) f,
                      )))
              ])
              (deliver-Collects S n cs cs.pending p at_n c c.kept (λ k q ne f. f)) in
          rw e (
            drain-Collects _ (Now S o) (n + length p) (deliver cs p) delivered,
            drain-HasNoGap _ (deliver cs p) (omega arith),
          )
      | inr e ↦ elim (Bool-cases (ltb (wrapping_sub (position o) cs.tx_ack) 0x8000_0000)) [
        | inl f ↦
            rw (e, f)
              ((n, hold-Collects S n cs o p here c), hold-HasNoGap cs (position o) p e gapless)
        | inr f ↦
            rw (e, f)
              (
                (
                  n,
                  widen S (Now S o) n cs
                      (λ off r at t. elim t [
                        | inl s ↦ inl s
                        | inr g ↦
                            let same =
                              offset_eq o off (omega (arith, piece_at-within ps o p here))
                                (omega (arith, piece_at-within ps off r at)) g in
                            inr (
                              inl (
                                omega (
                                  arith,
                                  same,
                                  behind o n cs.tx_ack (omega (arith, piece_at-within ps o p here))
                                      (boundary-le n c.boundary) c.acked f,
                                )))
                      ])
                      c,
                ),
                gapless,
              )
      ]
    ]
