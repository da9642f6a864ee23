-- ===== src/Startup/Launch/Ready.antt =====
-- What holds when `main` of src/main.rs writes `Ready`.
use i_usb_bridge.Prelude.{◌≡◌, refl, sym, ◌∙◌, inl, inr, Bool-cases}
use i_usb_bridge.Prelude.Text.{Text, text}
use i_usb_bridge.Prelude.Action.{
  Result, ok, err, Action, err-ne-ok, ok-injective, ok_value, bind_inv,
}
use i_usb_bridge.Session.App.{App, say, lift}
use i_usb_bridge.Session.Args.{requested_transport, requested_rate_hz}
use i_usb_bridge.Session.Connect.Opened.{IsListed}
use i_usb_bridge.Session.Event.{ready}
use i_usb_bridge.Session.Reconnect.{has_main_touchscreen}
use i_usb_bridge.Session.Whole.{Outside}
use i_usb_bridge.Startup.Report.{or_fail, itself}
use i_usb_bridge.Startup.Launch.{wire_name, open_session, look_for_touchscreen, start}

module _ {World : Type 0} (out : Outside World) where
  pub or_fail_ok :
      {A : Type 0} (code message : Text → Text) (m : Action (App World) A) (a a' : App World)
      (x : A)
      → or_fail code message m a ≡ ok x a'
      → m a ≡ ok x a'
  unfolding or_fail
  or_fail_ok {A = A} code message m a a' x h = returned (m a) refl
    where
      returned : (r : Result (App World) A) → m a ≡ r → m a ≡ ok x a'
      returned (err e v) f = absurd (err-ne-ok (rw (f, or_fail) at h))
      returned (ok y v) f = f ∙ rw (f, or_fail) at h

  look_for_touchscreen-IsListed :
      (a a' : App World)
      → look_for_touchscreen out a ≡ ok tt a'
      → IsListed out.sys out.formats.show a'
  unfolding look_for_touchscreen
  look_for_touchscreen-IsListed a a' h =
      let (surfaces, v, e, k) =
        bind_inv
          (or_fail (λ _. text "touch_surface_unavailable") itself
            (lift out.sys.list_connected_services) a)
          _ a' tt h in
      elim (Bool-cases (has_main_touchscreen surfaces)) [
        | inl p ↦
            let same : v ≡ a' = ok-injective (rw p at k) in
            record {
              before = a;
              surfaces = surfaces;
              listed = rw (← same) (
                  or_fail_ok (λ _. text "touch_surface_unavailable") itself
                    (lift out.sys.list_connected_services) a v surfaces e);
              present = p;
            }
        | inr p ↦ absurd (err-ne-ok (rw p at k))
      ]

  -- A start that succeeds writes `Ready` as its last event, with the rate and the transport that
  -- were asked for and the mode of its session, in the state after a list of the device's services
  -- in which the main touchscreen is.
  pub start_ready :
      (a a' : App World) (udid : Text)
      → start out a ≡ ok udid a'
      → (b : App World) × (IsListed out.sys out.formats.show b
          × (a'
              ≡ say
                  (ready udid
                    (requested_rate_hz out.env.args)
                    b.auth_mode
                    (wire_name (requested_transport out.env.args)))
                  b))
  unfolding start
  start_ready a a' udid h =
      let (found, v, e, h1) =
        bind_inv (open_session out (requested_transport out.env.args) a) _ a' udid h in
      let (_, b, e1, h2) = bind_inv (look_for_touchscreen out v) _ a' udid h1 in
      let same : found ≡ udid = ok_value h2 in
      (b, (look_for_touchscreen-IsListed v b e1, sym (rw same at (ok-injective h2))))
