-- ===== src/Prelude/Action.antt =====
-- Fallible calls on an outside state, with `do`; and calls under a timeout.
use mathlib.Core.Path.{◌≡◌, refl}
use mathlib.Core.Logic.{◌⊎◌, inl, inr}
use i_usb_bridge.Prelude.Text.{Text}

-- What a call returns, with the state after it. An error is its text.
pub data Result (World A : Type 0) : Type 0 where
  ok : A → World → Result World A
  err : Text → World → Result World A

abbrev pub Action : Type 0 → Type 0 → Type 0
Action World A = World → Result World A

-- `tokio::time::timeout(..)`
pub data TimedResult (World A : Type 0) : Type 0 where
  in_time : Result World A → TimedResult World A
  elapsed : World → TimedResult World A

abbrev pub Timed : Type 0 → Type 0 → Type 0
Timed World A = World → TimedResult World A

infixl 5 ◌>>=◌ ◌>>◌
abbrev pub ◌>>=◌ : {World A B : Type 0} → Action World A → (A → Action World B) → Action World B
◌>>=◌ m f w = elim (m w) [ ok a w' ↦ f a w' | err e w' ↦ err e w' ]

abbrev pub ◌>>◌ : {World B : Type 0} → Action World (Unit {0}) → Action World B → Action World B
m >> k = m >>= λ _. k

abbrev pub return : {World A : Type 0} → A → Action World A
return a w = ok a w

-- `.map_err(|_| message)??`
abbrev pub within : {World A : Type 0} → Text → Timed World A → Action World A
within message m w = elim (m w) [ elapsed w' ↦ err message w' | in_time r ↦ r ]

-- `let _ = ..`: only the effect.
abbrev pub state_of : {World A : Type 0} → Result World A → World
state_of (ok a w) = w
state_of (err e w) = w

abbrev pub timed_state_of : {World A : Type 0} → TimedResult World A → World
timed_state_of (in_time r) = state_of r
timed_state_of (elapsed w) = w

-- To split on what a call returns and keep the equation.
pub Result-cases :
    {World A : Type 0} (r : Result World A)
    → ((a : A) × (w : World) × (r ≡ ok a w)) ⊎ ((e : Text) × (w : World) × (r ≡ err e w))
Result-cases (ok a w) = inl (a, w, refl)
Result-cases (err e w) = inr (e, w, refl)

pub err-ne-ok :
    {World A : Type 0} {e : Text} {a : A} {v w : World}
    → ◌≡◌ {A = Result World A} (err e v) (ok a w)
    → ⊥
err-ne-ok h = cc

pub ok-injective :
    {World A : Type 0} {a b : A} {v w : World} → ◌≡◌ {A = Result World A} (ok a v) (ok b w) → v ≡ w
ok-injective h = cc

-- A sequence that succeeds is two calls that succeed.
pub bind_inv :
    {World A B : Type 0} (r : Result World A) (f : A → Action World B) (w' : World) (b : B)
    → (elim r [ ok a v ↦ f a v | err e v ↦ err e v ]) ≡ ok b w'
    → (a : A) × (v : World) × (r ≡ ok a v) × (f a v ≡ ok b w')
bind_inv (ok a v) f w' b h = (a, v, refl, h)
bind_inv (err e v) f w' b h = absurd (err-ne-ok h)

pub ok_value :
    {World A : Type 0} {a b : A} {v w : World} → ◌≡◌ {A = Result World A} (ok a v) (ok b w) → a ≡ b
ok_value h = cc

-- A sequence that fails fails at its first call or behind it.
pub bind_err :
    {World A B : Type 0} (r : Result World A) (f : A → Action World B) (w' : World) (x : Text)
    → (elim r [ ok a v ↦ f a v | err e v ↦ err e v ]) ≡ err x w'
    → (r ≡ err x w') ⊎ ((a : A) × (v : World) × (r ≡ ok a v) × (f a v ≡ err x w'))
bind_err (ok a v) f w' x h = inr (a, v, refl, h)
bind_err (err e v) f w' x h = inl (cc)
