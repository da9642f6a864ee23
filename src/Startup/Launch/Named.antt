-- ===== src/Startup/Launch/Named.antt =====
-- Which device a start of src/main.rs is for.
use i_usb_bridge.Prelude.{
  ◌≡◌, Bool, true, false, Option, some, inl, inr, Bool-cases, map, keep, &&_true,
}
use i_usb_bridge.Prelude.Text.{Text, text, text_eq_refl, ascii_lower}
use i_usb_bridge.Prelude.Action.{
  ok, err, Action, ◌>>=◌, return, Result-cases, err-ne-ok, ok_value, bind_inv,
}
use i_usb_bridge.Mux.Serial.{same_udid, is_ascii_hexdigit}
use i_usb_bridge.Session.App.{App, lift_ok}
use i_usb_bridge.Session.Args.{requested_udid, requested_transport}
use i_usb_bridge.Session.Connect.{require_main_touchscreen}
use i_usb_bridge.Session.Device.{Transport, usb, network}
use i_usb_bridge.Session.Errors.{
  coredevice_error_code, coredevice_error_message, device_connection_error_code,
  remote_pairing_error_code,
}
use i_usb_bridge.Session.Pairing.{remote_pairing_transport}
use i_usb_bridge.Session.Pairing.Named.{remote_pairing_transport_named}
use i_usb_bridge.Session.Provider.{device_provider, serves, is_over}
use i_usb_bridge.Session.Provider.Served.{device_provider-IsServed}
use i_usb_bridge.Session.System.{Listed}
use i_usb_bridge.Session.Whole.{Outside}
use i_usb_bridge.Startup.Launch.{open_session, look_for_touchscreen, start}
use i_usb_bridge.Startup.Launch.Ready.{or_fail_ok}
use i_usb_bridge.Startup.Report.{fail, or_fail, or_warn, itself, is_other}
use i_usb_bridge.Startup.Wired.{
  provider_over_usb, open_wired, existing_session, session_after_mount,
}
use i_usb_bridge.Startup.Wireless.{
  validated, try_connect_existing_wireless_hid, session_or_fail, network_session, second_try,
  should_retry, connect_remote, prepare_and_connect, open_wireless, pairing_transport, over_pairing,
  over_provider, if_explicit, verify_image, ensure_image, prepare, ddi_dir, provision,
}

same_udid_refl : (udid : Text) → same_udid udid udid ≡ true
unfolding same_udid
same_udid_refl udid = text_eq_refl (map ascii_lower (keep is_ascii_hexdigit udid))

serves_requested :
    (requested : Text) (t : Transport) (d : Listed)
    → serves (some requested) t d ≡ true
    → same_udid d.udid requested ≡ true
unfolding serves
serves_requested requested t d h =
    (&&_true (same_udid d.udid requested) (is_over t d.connection) h).0

module _ {World : Type 0} (out : Outside World) (requested : Text)
    (named : requested_udid out.env.args ≡ some requested) where
  -- What a call returns is the identifier that was requested, up to dashes and case.
  abbrev Names : Action (App World) Text → Type 0
  Names m = (a a' : App World) (udid : Text) → m a ≡ ok udid a' → same_udid udid requested ≡ true

  device_provider-Names : (t : Transport) → Names (device_provider out.sys out.env t)
  device_provider-Names t a a' udid h =
      let s = device_provider-IsServed out.sys out.env t a a' udid h in
      let right : serves (some requested) t s.device ≡ true = rw named at s.right_one in
      rw s.named (serves_requested requested t s.device right)

  pairing_transport-Names : Names (pairing_transport out)
  pairing_transport-Names a a' udid h =
      let same : udid ≡ requested =
        remote_pairing_transport_named out.sys out.env out.remote requested a.world a'.world udid
          named (lift_ok (remote_pairing_transport out.sys out.env out.remote) a a' udid h) in
      rw same (same_udid_refl requested)

  session_or_fail_udid :
      (connect : Action (App World) (Unit {0})) (udid u : Text) (a a' : App World)
      → session_or_fail out connect udid a ≡ ok u a'
      → udid ≡ u
  unfolding session_or_fail
  session_or_fail_udid connect udid u a a' h =
      let (_, v, e, k) =
        bind_inv (or_fail coredevice_error_code coredevice_error_message connect a) _ a' u h in
      ok_value k

  -- A call on what a call returns that hands its identifier on.
  after-Names :
      (m : Action (App World) Text) (k : Text → Action (App World) Text)
      → Names m
      → ((udid u : Text) (a a' : App World) → k udid a ≡ ok u a' → udid ≡ u)
      → Names (m >>= k)
  after-Names m k p q a a' u h =
      let (udid, v, e, f) = bind_inv (m a) k a' u h in rw (← q udid u v a' f) (p a v udid e)

  -- The first of two calls, or the second if it fails.
  either-Names :
      (m : Action (App World) Text) (k : Text → Action (App World) Text)
      (r : Text → Action (App World) Text)
      → Names m
      → ((udid u : Text) (a a' : App World) → k udid a ≡ ok u a' → udid ≡ u)
      → ((x : Text) → Names (r x))
      → Names (λ a. elim (m a) [ ok udid v ↦ k udid v | err x v ↦ r x v ])
  either-Names m k r p q s a a' u h = elim (Result-cases (m a)) [
    | inl (udid, v, f) ↦ rw (← q udid u v a' (rw f at h)) (p a v udid f)
    | inr (x, v, f) ↦ s x v a' u (rw f at h)
  ]

  validated_udid :
      (expected : Option Text) (connect : Action (App World) (Unit {0})) (udid u : Text)
      (a a' : App World)
      → validated out expected connect udid a ≡ ok u a'
      → udid ≡ u
  unfolding validated
  validated_udid expected connect udid u a a' h = elim (Bool-cases (is_other expected udid)) [
    | inl b ↦ absurd (err-ne-ok (rw (b, validated) at h))
    | inr b ↦
        let (_, v, e, h1) = bind_inv (connect a) _ a' u (rw (b, validated) at h) in
        let (_, v1, e1, h2) =
          bind_inv (require_main_touchscreen out.sys out.formats.show v) _ a' u h1 in
        ok_value h2
  ]

  try_connect_existing_wireless_hid-Names :
      (expected : Option Text) → Names (try_connect_existing_wireless_hid out expected)
  unfolding try_connect_existing_wireless_hid
  try_connect_existing_wireless_hid-Names expected =
      either-Names (pairing_transport out) (validated out expected (over_pairing out))
        (λ remote_error a. elim (device_provider out.sys out.env network a) [
          | ok udid v ↦ validated out expected (over_provider out) udid v
          | err _ v ↦ err remote_error v
        ])
        pairing_transport-Names (validated_udid expected (over_pairing out))
        (λ remote_error.
          either-Names (device_provider out.sys out.env network)
            (validated out expected (over_provider out)) (λ _ v. err remote_error v)
            (device_provider-Names network) (validated_udid expected (over_provider out))
            (λ _ a a' u h. absurd (err-ne-ok h)))

  network_session-Names : (x : Text) → Names (network_session out x)
  unfolding network_session
  network_session-Names x =
      either-Names (device_provider out.sys out.env network)
        (session_or_fail out (over_provider out)) (λ _. fail (remote_pairing_error_code x) x)
        (device_provider-Names network) (session_or_fail_udid (over_provider out))
        (λ _ a a' u h. absurd (err-ne-ok h))

  second_try-Names : (x : Text) (b : Bool) → Names (second_try out x b)
  second_try-Names x false = network_session-Names x
  second_try-Names x true =
      after-Names (or_fail remote_pairing_error_code itself (pairing_transport out))
        (session_or_fail out (over_pairing out))
        (λ a a' u h.
          pairing_transport-Names a a' u
            (or_fail_ok out remote_pairing_error_code itself (pairing_transport out) a a' u h))
        (session_or_fail_udid (over_pairing out))

  connect_remote-Names : Names (connect_remote out)
  unfolding connect_remote
  connect_remote-Names =
      either-Names (pairing_transport out) (session_or_fail out (over_pairing out))
        (λ x. should_retry out x >>= second_try out x) pairing_transport-Names
        (session_or_fail_udid (over_pairing out))
        (λ x a a' u h.
          let (b, v, e, k) = bind_inv (should_retry out x a) (second_try out x) a' u h in
          second_try-Names x b v a' u k)

  prepare_and_connect-Names : Names (prepare_and_connect out)
  prepare_and_connect-Names a a' u h =
      let (_, v, e, h1) = bind_inv (if_explicit out (verify_image out) (return tt) a) _ a' u h in
      let (_, v1, e1, h2) = bind_inv (prepare out (ddi_dir out) v) _ a' u h1 in
      connect_remote-Names v1 a' u h2

  open_wireless-Names : Names (open_wireless out)
  unfolding open_wireless
  open_wireless-Names a a' u h =
      let (_, v, e, h1) = bind_inv (if_explicit out (return tt) (ensure_image out) a) _ a' u h in
      either-Names (try_connect_existing_wireless_hid out (requested_udid out.env.args))
        (λ udid. return udid) (λ _. prepare_and_connect out)
        (try_connect_existing_wireless_hid-Names (requested_udid out.env.args))
        (λ udid u a a' h. ok_value h) (λ _. prepare_and_connect-Names) _ a' u h1

  open_wired-Names : Names (open_wired out)
  unfolding open_wired
  open_wired-Names a a' u h =
      let (udid, v, e, h1) =
        bind_inv (or_fail device_connection_error_code itself (provider_over_usb out) a) _ a' u h in
      let found =
        device_provider-Names usb a v udid
          (or_fail_ok out device_connection_error_code itself (provider_over_usb out) a v udid e) in
      let (_, v1, e1, h2) =
        bind_inv (or_warn (text "wireless_remote_pairing_provision_failed") (provision out udid) v)
          _ a' u h1 in
      let (_, v2, e2, h3) =
        bind_inv (if_explicit out (verify_image out) (ensure_image out) _) _ a' u h2 in
      let (b, v3, e3, h4) = bind_inv (existing_session out _) _ a' u h3 in
      let (_, v4, e4, h5) = bind_inv (session_after_mount out b v3) _ a' u h4 in
      rw (← ok_value h5) found

  open_session-Names : (t : Transport) → Names (open_session out t)
  unfolding open_session
  open_session-Names usb = open_wired-Names
  open_session-Names network = open_wireless-Names

  -- If a device is named on the command line, a start that succeeds, over either transport and by
  -- whatever way, is for that device: the identifier it reports is the named one up to dashes and
  -- case.
  pub start_named :
      (a a' : App World) (udid : Text) → start out a ≡ ok udid a' → same_udid udid requested ≡ true
  unfolding start
  start_named a a' udid h =
      let (found, v, e, h1) =
        bind_inv (open_session out (requested_transport out.env.args) a) _ a' udid h in
      let (_, b, e1, h2) = bind_inv (look_for_touchscreen out v) _ a' udid h1 in
      rw (← ok_value h2) (open_session-Names (requested_transport out.env.args) a v found e)
