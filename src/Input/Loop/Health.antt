-- ===== src/Input/Loop/Health.antt =====
-- The health checks of the loop of `main` in src/main.rs: how many failures end it.
use i_usb_bridge.Prelude.{
  ℕ, zero, suc, ◌+◌, min, ◌<◌, ◌≡◌, refl, ◌∙◌, true, false, ◌&&◌, List, [], ◌∷◌, arith, ltb,
  if◌then◌else◌, Bool-cases, inl, inr, lt→ltb,
}
use i_usb_bridge.Prelude.Text.{Text}
use i_usb_bridge.Prelude.Action.{ok, err, TimedResult, in_time, elapsed}
use i_usb_bridge.Session.Device.{Device}
use i_usb_bridge.Session.Reconnect.{has_main_touchscreen}
use i_usb_bridge.Input.Touch.{Coordinates}
use i_usb_bridge.Input.State.{Host, Flow, continues, breaks}
use i_usb_bridge.Input.Recovery.{Link}
use i_usb_bridge.Input.Loop.{Wake, health_due, is_idle, count_failure, check_health, round, run}

-- As many health checks, one after the other, and then the rest.
abbrev pub checks : {F : Type 0} → ℕ → List (Wake F) → List (Wake F)
checks zero wakes = wakes
checks (suc n) wakes = health_due ∷ checks n wakes

module _ {World F : Type 0} (device : Device World) (describe_surfaces : List ℕ → Text)
    (show : ℕ → Text) (link : Link) (coordinates : Coordinates F) where
  -- The service list never shows the main touchscreen: it may fail, or not come in time.
  abbrev pub AlwaysFails : Type 0
  AlwaysFails =
      (w w' : World) (surfaces : List ℕ)
      → device.services_in_time w ≡ in_time (ok surfaces w')
      → has_main_touchscreen surfaces ≡ false

  -- The checks are on, and the loop holds nothing.
  pub record IsChecked (h : Host World) : Type 0 where
    pub not_direct : (link.over_usb && link.direct) ≡ false
    pub idle : is_idle device describe_surfaces show link coordinates h ≡ true

  -- A failed check: one failure more, and the loop ends at six.
  record Counted (h : Host World) (out : Flow × Host World) : Type 0 where
    counted : out.1.health_failures ≡ suc h.health_failures
    flow : out.0 ≡ (if ltb (suc h.health_failures) 6 then continues else breaks)
    still :
        is_idle device describe_surfaces show link coordinates out.1
        ≡ is_idle device describe_surfaces show link coordinates h

  count_failure-Counted :
      (code m : Text) (h : Host World)
      → h.health_failures < 6
      → Counted h (count_failure device describe_surfaces show link coordinates code m h)
  unfolding is_idle count_failure
  count_failure-Counted code m h l = elim (Bool-cases (ltb (suc h.health_failures) 6)) [
    | inl e ↦
        rw (one_more, e, count_failure) (record { counted = refl; flow = rw e refl; still = refl })
    | inr e ↦
        rw (one_more, e, count_failure) (record { counted = refl; flow = rw e refl; still = refl })
  ]
    where
      one_more : min (h.health_failures + 1) 255 ≡ suc h.health_failures
      one_more = omega arith

  check_health-Counted :
      (h : Host World)
      → AlwaysFails
      → h.health_failures < 6
      → Counted h (check_health device describe_surfaces show link coordinates h)
  unfolding is_idle check_health
  check_health-Counted h fails l = go (device.services_in_time h.world) refl
    where
      again :
          (code m : Text) (w : World)
          → Counted h (
              count_failure device describe_surfaces show link coordinates code m
                (record h { world = w }))
      again code m w =
          let c = count_failure-Counted code m (record h { world = w }) l in
          record { counted = c.counted; flow = c.flow; still = c.still }

      go :
          (t : TimedResult World (List ℕ))
          → device.services_in_time h.world ≡ t
          → Counted h (check_health device describe_surfaces show link coordinates h)
      go (elapsed w) e = rw (e, check_health) (again _ _ w)
      go (in_time (err m w)) e = rw (e, check_health) (again _ _ w)
      go (in_time (ok surfaces w)) e =
          rw (e, fails h.world w surfaces e, check_health) (again _ _ w)

  round-Counted :
      (h : Host World)
      → AlwaysFails
      → IsChecked h
      → h.health_failures < 6
      → Counted h (round device describe_surfaces show link coordinates health_due h)
  unfolding round
  round-Counted h fails c l = rw (c.not_direct, c.idle, round) (check_health-Counted h fails l)

  -- With checks that all fail, on an idle loop that has counted no failure and is not on direct USB:
  -- six in a row end the loop, whatever would come after them, and with five or fewer it goes on.
  pub run-six_failures :
      (n : ℕ) (wakes : List (Wake F)) (h : Host World)
      → AlwaysFails
      → IsChecked h
      → h.health_failures ≡ 0
      → n < 6
      → ((run device describe_surfaces show link coordinates (checks 6 wakes) h).0 ≡ breaks)
        × ((run device describe_surfaces show link coordinates (checks n []) h).0 ≡ continues)
  unfolding run
  run-six_failures n wakes h fails c z l = (ends 5 h c (omega arith), goes n h c (omega arith))
    where
      after :
          (h1 : Host World) (k : IsChecked h1) (l : h1.health_failures < 6)
          → IsChecked (round device describe_surfaces show link coordinates health_due h1).1
      after h1 k l = record {
        not_direct = k.not_direct;
        idle = (round-Counted h1 fails k l).still ∙ k.idle;
      }

      step : Host World → Flow × Host World
      step h1 = round device describe_surfaces show link coordinates health_due h1

      goes :
          (m : ℕ) (h1 : Host World)
          → IsChecked h1
          → h1.health_failures + m < 6
          → (run device describe_surfaces show link coordinates (checks m []) h1).0 ≡ continues
      goes zero h1 k l = refl
      goes (suc m) h1 k l =
          let r = round-Counted h1 fails k (omega arith) in
          let on : (step h1).0 ≡ continues =
            rw (lt→ltb (suc h1.health_failures) 6 (omega arith)) at r.flow in
          rw (on, run) (goes m (step h1).1 (after h1 k (omega arith)) (omega (arith, r.counted)))

      ends :
          (m : ℕ) (h1 : Host World)
          → IsChecked h1
          → h1.health_failures + m ≡ 5
          → (run device describe_surfaces show link coordinates (checks (suc m) wakes) h1).0
            ≡ breaks
      ends zero h1 k l =
          let r = round-Counted h1 fails k (omega arith) in
          let off : (step h1).0 ≡ breaks = r.flow ∙ last h1 (omega arith) in rw (off, run) refl
        where
          last :
              (h2 : Host World)
              → h2.health_failures ≡ 5
              → (if ltb (suc h2.health_failures) 6 then continues else breaks) ≡ breaks
          last h2 e = rw e refl
      ends (suc m) h1 k l =
          let r = round-Counted h1 fails k (omega arith) in
          let on : (step h1).0 ≡ continues =
            rw (lt→ltb (suc h1.health_failures) 6 (omega arith)) at r.flow in
          rw (on, run) (ends m (step h1).1 (after h1 k (omega arith)) (omega (arith, r.counted)))
