-- ===== src/Mux/Feed/Chunks.antt =====
-- `feed_packets` of src/raw_usbmux.rs does not depend on how the bytes are cut into USB reads.
use mathlib.Core.Bool.{false≢true}
use i_usb_bridge.Prelude.{
  ℕ, zero, suc, ◌≤◌, ◌<◌, ◌≡◌, refl, sym, ap, ap₂, ◌∙◌, Bool, true, false, [], ◌∷◌, ◌++◌, arith,
  length, take, drop, length-append, length-drop, take-append, drop-append,
}
use i_usb_bridge.Prelude.Bytes.{Bytes, from_be_bytes}
use i_usb_bridge.Mux.State.{MuxState, WritePacket, dev_mru}
use i_usb_bridge.Mux.Packet.{
  Round, more_needed, bad_length, skipped, packet, next_packet, packet_length, cut,
}
use i_usb_bridge.Mux.Feed.{dispatch, feed_loop, feed_packets}

-- The bytes start with a whole packet of a legal length.
record IsComplete (a : Bytes) : Type 0 where
  header : 8 ≤ length a
  legal : 8 ≤ packet_length a
  small : packet_length a ≤ dev_mru
  whole : packet_length a ≤ length a

-- A round that takes a packet off.
data Takes : Round → Bytes → Type 0 where
  takes_packet : (p : ℕ) (b r : Bytes) → Takes (packet p b r) r
  takes_skipped : (r : Bytes) → Takes (skipped r) r

Takes-IsComplete :
    (v : ℕ) (a : Bytes) (round : Round) (r : Bytes)
    → next_packet v a ≡ round
    → Takes round r
    → IsComplete a × (cut v (take (packet_length a) a) (drop (packet_length a) a) ≡ round)
unfolding next_packet
Takes-IsComplete v a _ _ h (takes_packet p b r) = ground arith
Takes-IsComplete v a _ _ h (takes_skipped r) = ground arith

Takes-shorter :
    (v : ℕ) (a : Bytes) (round : Round) (r : Bytes)
    → next_packet v a ≡ round
    → Takes round r
    → length r < length a
Takes-shorter v a round r h t = rest_is round t (Takes-IsComplete v a round r h t)
  where
    rest_is :
        (round : Round)
        → Takes round r
        → IsComplete a × (cut v (take (packet_length a) a) (drop (packet_length a) a) ≡ round)
        → length r < length a
    rest_is _ (takes_packet p b r) (c, e) =
        unfold cut in ground (arith, length-drop (packet_length a) a)
    rest_is _ (takes_skipped r) (c, e) =
        unfold cut in ground (arith, length-drop (packet_length a) a)

cut-append_packet :
    (v : ℕ) (one rest c : Bytes) (p : ℕ) (b r : Bytes)
    → cut v one rest ≡ packet p b r
    → cut v one (rest ++ c) ≡ packet p b (r ++ c)
unfolding cut
cut-append_packet v one rest c p b r h = ground arith

cut-append_skipped :
    (v : ℕ) (one rest c r : Bytes)
    → cut v one rest ≡ skipped r
    → cut v one (rest ++ c) ≡ skipped (r ++ c)
unfolding cut
cut-append_skipped v one rest c r h = ground arith

next_packet_of_complete :
    (v : ℕ) (a : Bytes)
    → IsComplete a
    → next_packet v a ≡ cut v (take (packet_length a) a) (drop (packet_length a) a)
unfolding next_packet
next_packet_of_complete v a c = ground arith

packet_length-append : (a c : Bytes) → 8 ≤ length a → packet_length (a ++ c) ≡ packet_length a
unfolding packet_length
packet_length-append a c h =
    ap (λ l. from_be_bytes (take 4 l)) (drop-append 4 a c (omega arith))
    ∙ ap from_be_bytes (take-append 4 (drop 4 a) c (omega (arith, length-drop 4 a)))

-- More bytes behind a whole packet only lengthen the rest.
next_packet-append :
    (v : ℕ) (a c : Bytes)
    → IsComplete a
    → next_packet v (a ++ c) ≡ cut v (take (packet_length a) a) (drop (packet_length a) a ++ c)
next_packet-append v a c k =
    next_packet_of_complete v (a ++ c) (record {
      header = omega (arith, k.header, length-append a c);
      legal = omega (arith, k.legal, same);
      small = omega (arith, k.small, same);
      whole = omega (arith, k.whole, same, length-append a c);
    })
    ∙ ap (λ n. cut v (take n (a ++ c)) (drop n (a ++ c))) same
    ∙ ap₂ (cut v) (take-append (packet_length a) a c k.whole)
        (drop-append (packet_length a) a c k.whole)
  where
    same : packet_length (a ++ c) ≡ packet_length a
    same = packet_length-append a c k.header

packet-append :
    (v : ℕ) (a c : Bytes) (p : ℕ) (b r : Bytes)
    → next_packet v a ≡ packet p b r
    → next_packet v (a ++ c) ≡ packet p b (r ++ c)
packet-append v a c p b r h =
    let (k, e) = Takes-IsComplete v a _ r h (takes_packet p b r) in
    next_packet-append v a c k ∙ cut-append_packet v _ _ c p b r e

skipped-append :
    (v : ℕ) (a c r : Bytes)
    → next_packet v a ≡ skipped r
    → next_packet v (a ++ c) ≡ skipped (r ++ c)
skipped-append v a c r h =
    let (k, e) = Takes-IsComplete v a _ r h (takes_skipped r) in
    next_packet-append v a c k ∙ cut-append_skipped v _ _ c r e

module _ {W : Type 0} (write_packet : WritePacket W) where
  feed_loop-nil : (f : ℕ) (s : MuxState W) → feed_loop write_packet f s [] ≡ (s, [])
  unfolding feed_loop next_packet
  feed_loop-nil zero s = refl
  feed_loop-nil (suc f) s = refl

  -- One round, for each of its findings.
  module _ (f : ℕ) (s : MuxState W) (a : Bytes) where
    feed_loop-more :
        next_packet s.version a ≡ more_needed → feed_loop write_packet (suc f) s a ≡ (s, a)
    unfolding feed_loop
    feed_loop-more e = rw (e, feed_loop)

    feed_loop-skipped :
        {r : Bytes}
        → next_packet s.version a ≡ skipped r
        → feed_loop write_packet (suc f) s a ≡ feed_loop write_packet f s r
    unfolding feed_loop
    feed_loop-skipped e = rw (e, feed_loop)

    feed_loop-packet :
        {p : ℕ} {b r : Bytes}
        → next_packet s.version a ≡ packet p b r
        → feed_loop write_packet (suc f) s a
          ≡ feed_loop write_packet f (dispatch write_packet s p b) r
    unfolding feed_loop
    feed_loop-packet e = rw (e, feed_loop)

    feed_loop-bad :
        next_packet s.version a ≡ bad_length → feed_loop write_packet (suc f) s a ≡ (s, [])
    unfolding feed_loop
    feed_loop-bad e = rw (e, feed_loop)

  -- Any fuel that the number of bytes allows gives the same result.
  feed_loop-fuel :
      (f g : ℕ) (s : MuxState W) (a : Bytes)
      → length a ≤ f
      → length a ≤ g
      → feed_loop write_packet f s a ≡ feed_loop write_packet g s a
  feed_loop-fuel f g s [] hf hg = feed_loop-nil f s ∙ sym (feed_loop-nil g s)
  feed_loop-fuel zero g s (x ∷ a) hf hg = absurd (omega arith)
  feed_loop-fuel (suc f) zero s (x ∷ a) hf hg = absurd (omega arith)
  feed_loop-fuel (suc f) (suc g) s (x ∷ a) hf hg =
      go (next_packet s.version (x ∷ a)) refl (feed_loop-fuel f g)
    where
      go :
          (r : Round)
          → next_packet s.version (x ∷ a) ≡ r
          → ((s : MuxState W) (b : Bytes)
              → length b ≤ f
              → length b ≤ g
              → feed_loop write_packet f s b ≡ feed_loop write_packet g s b)
          → feed_loop write_packet (suc f) s (x ∷ a) ≡ feed_loop write_packet (suc g) s (x ∷ a)
      go more_needed e ih = feed_loop-more f s (x ∷ a) e ∙ sym (feed_loop-more g s (x ∷ a) e)
      go bad_length e ih = feed_loop-bad f s (x ∷ a) e ∙ sym (feed_loop-bad g s (x ∷ a) e)
      go (skipped r) e ih =
          let less = Takes-shorter s.version (x ∷ a) _ r e (takes_skipped r) in
          feed_loop-skipped f s (x ∷ a) e
          ∙ ih s r (omega arith) (omega arith)
          ∙ sym (feed_loop-skipped g s (x ∷ a) e)
      go (packet p b r) e ih =
          let less = Takes-shorter s.version (x ∷ a) _ r e (takes_packet p b r) in
          feed_loop-packet f s (x ∷ a) e
          ∙ ih _ r (omega arith) (omega arith)
          ∙ sym (feed_loop-packet g s (x ∷ a) e)

  -- The loop over these bytes finds no length out of range.
  unfoldable pub in_sync : ℕ → MuxState W → Bytes → Bool
  in_sync zero s pending = true
  in_sync (suc fuel) s pending = elim (next_packet s.version pending) [
    | more_needed ↦ true
    | bad_length ↦ false
    | skipped rest ↦ in_sync fuel s rest
    | packet proto body rest ↦ in_sync fuel (dispatch write_packet s proto body) rest
  ]

  -- The result of a run over `a`, then over `b`.
  abbrev Resumes : ℕ → ℕ → MuxState W → Bytes → Bytes → Type 0
  Resumes f g s a b =
      let (s', left) = feed_loop write_packet f s a in
      feed_loop write_packet g s (a ++ b)
      ≡ feed_loop write_packet (length (left ++ b)) s' (left ++ b)

  resume :
      (f g : ℕ) (s : MuxState W) (a b : Bytes)
      → length a ≤ f
      → length (a ++ b) ≤ g
      → in_sync f s a ≡ true
      → Resumes f g s a b
  unfolding in_sync
  resume f g s [] b hf hg h =
      rw (feed_loop-nil f s) (feed_loop-fuel g (length b) s b hg (omega arith))
  resume zero g s (x ∷ a) b hf hg h = absurd (omega arith)
  resume (suc f) zero s (x ∷ a) b hf hg h = absurd (omega arith)
  resume (suc f) (suc g) s (x ∷ a) b hf hg h0 =
      go (next_packet s.version (x ∷ a)) refl h0 (resume f g)
    where
      go :
          (r : Round)
          → next_packet s.version (x ∷ a) ≡ r
          → in_sync (suc f) s (x ∷ a) ≡ true
          → ((s : MuxState W) (c d : Bytes)
              → length c ≤ f
              → length (c ++ d) ≤ g
              → in_sync f s c ≡ true
              → Resumes f g s c d)
          → Resumes (suc f) (suc g) s (x ∷ a) b
      go more_needed e h ih =
          rw (feed_loop-more f s (x ∷ a) e)
            (feed_loop-fuel (suc g) (length (x ∷ (a ++ b))) s (x ∷ (a ++ b)) hg (omega arith))
      go bad_length e h ih = absurd (false≢true (rw (e, in_sync) at h))
      go (skipped r) e h ih =
          let less = Takes-shorter s.version (x ∷ a) _ r e (takes_skipped r) in
          rw
            (
              feed_loop-skipped g s (x ∷ (a ++ b)) (skipped-append s.version (x ∷ a) b r e),
              feed_loop-skipped f s (x ∷ a) e,
            )
            (ih s r b (omega arith) (omega (arith, length-append r b, length-append a b))
              (rw (e, in_sync) at h))
      go (packet p c r) e h ih =
          let less = Takes-shorter s.version (x ∷ a) _ r e (takes_packet p c r) in
          rw
            (
              feed_loop-packet g s (x ∷ (a ++ b)) (packet-append s.version (x ∷ a) b p c r e),
              feed_loop-packet f s (x ∷ a) e,
            )
            (ih _ r b (omega arith) (omega (arith, length-append r b, length-append a b))
              (rw (e, in_sync) at h))

  -- However the bytes from the device are cut into USB reads, the outcome is the same: feeding `a`
  -- and then `b` behind what is left over gives the state and the left-over bytes of feeding `a`
  -- and `b` at once, as long as the loop over `a` finds no packet length out of range.
  pub feed_packets-append :
      (s : MuxState W) (a b : Bytes)
      → in_sync (length a) s a ≡ true
      → let (s', left) = feed_packets write_packet s a in
        feed_packets write_packet s (a ++ b) ≡ feed_packets write_packet s' (left ++ b)
  unfolding feed_packets
  feed_packets-append s a b h =
      resume (length a) (length (a ++ b)) s a b (omega arith) (omega arith) h
