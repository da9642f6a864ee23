-- ===== src/Mux/Open/Distinct.antt =====
-- The source ports that `open_connection` of src/raw_usbmux.rs gives out, one after the other.
use i_usb_bridge.Prelude.{
  ℕ, ◌+◌, ◌≤◌, ◌<◌, ◌≡◌, ◌≢◌, ◌⊎◌, inl, inr, ◌∙◌, some, List, [], ◌∷◌, arith, ◌==◌, if◌then◌else◌,
  length, ==_refl, ==_iff, Bool-cases,
}
use i_usb_bridge.Prelude.Bytes.{u16_mod}
use i_usb_bridge.Prelude.Table.{lookup, lookup-insert}
use i_usb_bridge.Mux.State.{MuxState}
use i_usb_bridge.Mux.Open.{next_port, register}

-- A port that can be given out.
abbrev pub IsPort : ℕ → Type 0
IsPort port = (1 ≤ port) × (port < u16_mod)

-- How far the counter is from a port that it has passed: less than a round of 65535 ports.
abbrev Passed : ℕ → ℕ → ℕ → Type 0
Passed port steps next = (next ≡ port + steps) ⊎ (next + 65535 ≡ port + steps)

next_port-Passed :
    (port steps next : ℕ)
    → IsPort port
    → IsPort next
    → steps < 65535
    → Passed port steps next
    → Passed port (steps + 1) (next_port next) × IsPort (next_port next)
unfolding next_port
next_port-Passed port steps next p n h k = ground arith

module _ {W : Type 0} where
  -- Connections to the given device ports are registered, one after the other.
  unfoldable pub register_all : MuxState W → List ℕ → MuxState W
  register_all s [] = s
  register_all s (dport ∷ later) = register_all (register s dport) later

  register_all_keeps :
      (port id steps : ℕ) (s : MuxState W) (dports : List ℕ)
      → IsPort port
      → IsPort s.next_sport
      → 1 ≤ steps
      → steps + length dports ≤ 65535
      → Passed port steps s.next_sport
      → lookup port s.connections ≡ some id
      → lookup port (register_all s dports).connections ≡ some id
  unfolding register_all register
  register_all_keeps port id steps s [] p n a b k e = e
  register_all_keeps port id steps s (dport ∷ later) p n a b k e =
      let (k', n') = next_port-Passed port steps s.next_sport p n (omega arith) k in
      register_all_keeps port id (steps + 1) (register s dport) later p n' (omega arith)
        (omega arith) k' (lookup-insert s.next_sport port s.allocated s.connections ∙ other)
    where
      differs : s.next_sport ≢ port
      differs h = absurd (ground arith)

      other :
          (if s.next_sport == port then some s.allocated else lookup port s.connections) ≡ some id
      other = elim (Bool-cases (s.next_sport == port)) [
        | inl h ↦ absurd (differs ((==_iff s.next_sport port).0 h))
        | inr h ↦ rw h e
      ]

  -- From a counter between 1 and 65535, a connection that is registered stays in the table under its
  -- source port while up to 65534 further connections are registered: none of them is given the same
  -- port, also where the counter wraps.
  pub register_keeps :
      (s : MuxState W) (dport : ℕ) (dports : List ℕ)
      → IsPort s.next_sport
      → length dports ≤ 65534
      → lookup s.next_sport (register_all (register s dport) dports).connections ≡ some s.allocated
  unfolding register
  register_keeps s dport dports p h =
      let (k, n) =
        next_port-Passed s.next_sport 0 s.next_sport p p (omega arith) (inl (omega arith)) in
      register_all_keeps s.next_sport s.allocated 1 (register s dport) dports p n (omega arith)
        (omega arith) k
        (lookup-insert s.next_sport s.next_sport s.allocated s.connections
          ∙ rw (==_refl s.next_sport))
