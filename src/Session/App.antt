-- ===== src/Session/App.antt =====
-- The state that src/main.rs itself keeps outside the loop: `RAW_CAPTURE_MUX`, and the events
-- written so far; with the calls on the rest of the world lifted to it.
use i_usb_bridge.Prelude.{ℕ, Option, List, [], ◌∷◌, ◌++◌, ◌≡◌, refl, ap, ◌∙◌}
use i_usb_bridge.Prelude.Text.{Text}
use i_usb_bridge.Prelude.Action.{
  Result, ok, err, TimedResult, in_time, elapsed, Action, Timed, err-ne-ok, ok_value, ok-injective,
}
use i_usb_bridge.Session.Event.{Event}

pub record App (World : Type 0) : Type 0 where
  pub world : World
  pub capture : Option ℕ
  pub events : List Event
  -- That of the session obtained last.
  pub auth_mode : Text

module _ {World : Type 0} where
  abbrev pub say : Event → App World → App World
  say e a = record a { events = a.events ++ (e ∷ []) }

  abbrev pub at_world : {A : Type 0} → App World → Result World A → Result (App World) A
  at_world a (ok x w) = ok x (record a { world = w })
  at_world a (err e w) = err e (record a { world = w })

  abbrev pub lift : {A : Type 0} → Action World A → Action (App World) A
  lift m a = at_world a (m a.world)

  abbrev pub at_world_timed :
      {A : Type 0} → App World → TimedResult World A → TimedResult (App World) A
  at_world_timed a (in_time r) = in_time (at_world a r)
  at_world_timed a (elapsed w) = elapsed (record a { world = w })

  abbrev pub lift_timed : {A : Type 0} → Timed World A → Timed (App World) A
  lift_timed m a = at_world_timed a (m a.world)

  abbrev pub on_world : (World → World) → App World → App World
  on_world f a = record a { world = f a.world }

  pub lift_ok :
      {A : Type 0} (m : Action World A) (a a' : App World) (x : A)
      → lift m a ≡ ok x a'
      → m a.world ≡ ok x a'.world
  lift_ok m a a' x h = returned (m a.world) refl
    where
      returned : (r : Result World _) → m a.world ≡ r → m a.world ≡ ok x a'.world
      returned (err e w) f = absurd (err-ne-ok (rw f at h))
      returned (ok y w) f =
          let k : ◌≡◌ {A = Result (App World) _} (ok y (record a { world = w })) (ok x a') =
            rw f at h in
          f
          ∙ (ap (λ z. ok z w) (ok_value k) ∙ ap (λ (b : App World). ok x b.world) (ok-injective k))
