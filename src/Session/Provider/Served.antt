-- ===== src/Session/Provider/Served.antt =====
-- What `device_provider` of src/main.rs hands out, and what becomes of the capture mux.
use i_usb_bridge.Prelude.{
  ℕ, ◌≡◌, ◌⊎◌, refl, sym, ap, ◌∙◌, inl, inr, Bool, true, false, Option, none, some, List, [], ◌∷◌,
  Bool-cases, Option-cases,
}
use i_usb_bridge.Prelude.Text.{Text}
use i_usb_bridge.Prelude.Action.{Result, ok, err, Result-cases, err-ne-ok}
use i_usb_bridge.Session.Device.{Transport, usb, network}
use i_usb_bridge.Session.App.{App}
use i_usb_bridge.Session.Args.{requested_udid}
use i_usb_bridge.Session.System.{System, Environment, Listed, Address, capture_address}
use i_usb_bridge.Session.Provider.{
  serves, find_device, Reuse, found, start, keep_it, look_up, reuse_capture, start_capture,
  try_endpoints, through_capture, device_provider,
}

-- The device is one of the list.
abbrev pub Among : Listed → List Listed → Type 0
Among d [] = ⊥
Among d (e ∷ later) = (d ≡ e) ⊎ Among d later

find_device-Among :
    (requested : Option Text) (transport : Transport) (devices : List Listed) (d : Listed)
    → find_device requested transport devices ≡ some d
    → (serves requested transport d ≡ true) × Among d devices
unfolding find_device
find_device-Among requested transport [] d h = absurd (cc)
find_device-Among requested transport (e ∷ later) d h =
    elim (Bool-cases (serves requested transport e)) [
      | inl p ↦ let same : e ≡ d = cc (rw (p, find_device) at h) in (rw (← same) p, inl (sym same))
      | inr p ↦
          let (s, m) = find_device-Among requested transport later d (rw (p, find_device) at h) in
          (s, inr m)
    ]

module _ {World : Type 0} (sys : System World) where
  -- The provider in use is for a device that its endpoint listed just before, that has the
  -- requested identifier up to dashes and case, if one is requested, and that is connected over
  -- the transport.
  pub record IsServed (requested : Option Text) (transport : Transport) (udid : Text)
      (a : App World) : Type 0 where
    pub device : Listed
    pub devices : List Listed
    pub address : Address
    pub earlier : World
    pub before : World
    pub after : World
    pub connected : sys.connect_endpoint address earlier ≡ ok tt before
    pub answered : sys.get_devices before ≡ ok devices after
    pub among : Among device devices
    pub right_one : serves requested transport device ≡ true
    pub named : udid ≡ device.udid
    pub provided : a.world ≡ sys.to_provider address device after

module _ {World : Type 0} (sys : System World) (env : Environment) where
  try_endpoints-IsServed :
      (requested : Option Text) (transport : Transport) (addresses : List Address)
      (reachable : Bool) (last_error : Option Text) (a a' : App World) (udid : Text)
      → try_endpoints sys env requested transport addresses reachable last_error a ≡ ok udid a'
      → IsServed sys requested transport udid a'
  unfolding try_endpoints
  try_endpoints-IsServed requested transport [] reachable last_error a a' udid h =
      absurd (err-ne-ok h)
  try_endpoints-IsServed requested transport (address ∷ later) reachable last_error a a' udid h =
      elim (Result-cases (sys.connect_endpoint address a.world)) [
        | inr (e, w, f) ↦
            try_endpoints-IsServed requested transport later reachable (some e)
              (record a { world = w }) a' udid (rw (f, try_endpoints) at h)
        | inl (_, w, f) ↦ elim (Result-cases (sys.get_devices w)) [
          | inr (e, w', g) ↦
              try_endpoints-IsServed requested transport later true (some e)
                (record a { world = w' }) a' udid (rw (f, g, try_endpoints) at h)
          | inl (devices, w', g) ↦ elim (Option-cases (find_device requested transport devices)) [
            | inl none_found ↦
                try_endpoints-IsServed requested transport later true last_error
                  (record a { world = w' }) a' udid (rw (f, g, none_found, try_endpoints) at h)
            | inr (d, p) ↦
                served d devices address a.world w w' f g p (rw (f, g, p, try_endpoints) at h)
          ]
        ]
      ]
    where
      served :
          (d : Listed) (devices : List Listed) (address : Address) (v w w' : World)
          → sys.connect_endpoint address v ≡ ok tt w
          → sys.get_devices w ≡ ok devices w'
          → find_device requested transport devices ≡ some d
          → ◌≡◌ {A = Result (App World) Text}
              (ok d.udid (record a { world = sys.to_provider address d w' }))
              (ok udid a')
          → IsServed sys requested transport udid a'
      served d devices address v w w' f g p e =
          let (s, m) = find_device-Among requested transport devices d p in
          record {
            device = d;
            devices = devices;
            address = address;
            earlier = v;
            before = w;
            after = w';
            connected = f;
            answered = g;
            among = m;
            right_one = s;
            named = cc;
            provided = cc;
          }

  capture-IsServed :
      (serial : Text) (m : ℕ) (devices : List Listed) (d : Listed) (v w w' : World) (a : App World)
      → sys.connect_endpoint (capture_address m) v ≡ ok tt w
      → sys.get_devices w ≡ ok devices w'
      → find_device (some serial) usb devices ≡ some d
      → a.world ≡ sys.to_provider (capture_address m) d w'
      → IsServed sys (some serial) usb d.udid a
  capture-IsServed serial m devices d v w w' a f g p e =
      let (s, among) = find_device-Among (some serial) usb devices d p in
      record {
        device = d;
        devices = devices;
        address = capture_address m;
        earlier = v;
        before = w;
        after = w';
        connected = f;
        answered = g;
        among = among;
        right_one = s;
        named = refl;
        provided = e;
      }

  reuse_capture-IsServed :
      (serial : Text) (a a' : App World) (udid : Text)
      → reuse_capture sys env serial a ≡ (found udid, a')
      → IsServed sys (some serial) usb udid a'
  unfolding reuse_capture
  reuse_capture-IsServed serial a a' udid h = elim (Option-cases (a.capture)) [
    | inl e ↦ absurd (not_found start a udid a' (λ x. cc) (rw (e, reuse_capture) at h))
    | inr (m, e) ↦ elim (Bool-cases (sys.is_alive m a.world)) [
      | inr dead ↦ absurd (not_found start _ udid a' (λ x. cc) (rw (e, dead, reuse_capture) at h))
      | inl lives ↦ elim (Result-cases (sys.connect_endpoint (capture_address m) a.world)) [
        | inr (x, w, f) ↦
            absurd (not_found start _ udid a' (λ x. cc) (rw (e, lives, f, reuse_capture) at h))
        | inl (_, w, f) ↦ elim (Result-cases (sys.get_devices w)) [
          | inr (x, w', g) ↦
              absurd (not_found start _ udid a' (λ x. cc) (rw (e, lives, f, g, reuse_capture) at h))
          | inl (devices, w', g) ↦ elim (Option-cases (find_device (some serial) usb devices)) [
            | inl n ↦ absurd (
                not_found keep_it _ udid a' (λ x. cc)
                  (rw (e, lives, f, g, reuse_capture, n, look_up) at h))
            | inr (d, p) ↦
                let k : ◌≡◌ {A = Reuse × App World}
                    (found d.udid, record a { world = sys.to_provider (capture_address m) d w' })
                    (found udid, a') =
                  rw (e, lives, f, g, reuse_capture, p, look_up) at h in
                let same : d.udid ≡ udid = cc in
                rw (← same) (capture-IsServed serial m devices d a.world w w' a' f g p (cc))
          ]
        ]
      ]
    ]
  ]
    where
      not_found :
          (r : Reuse) (a1 : App World) (udid : Text) (a2 : App World)
          → (found udid ≡ r → ⊥)
          → ◌≡◌ {A = Reuse × App World} (r, a1) (found udid, a2)
          → ⊥
      not_found r a1 udid a2 n e = n (sym (ap (λ (x : Reuse × App World). x.0) e))

  start_capture-IsServed :
      (serial : Text) (a a' : App World) (udid : Text)
      → start_capture sys env serial a ≡ ok (some udid) a'
      → IsServed sys (some serial) usb udid a'
  unfolding start_capture
  start_capture-IsServed serial a a' udid h = started (sys.start_mux serial a.world) refl
    where
      started :
          (r : Result World (Option ℕ))
          → sys.start_mux serial a.world ≡ r
          → IsServed sys (some serial) usb udid a'
      started (err x w) e = absurd (cc (rw (e, start_capture) at h))
      started (ok none w) e = absurd (cc (rw (e, start_capture) at h))
      started (ok (some m) w) e = elim (Result-cases (sys.connect_endpoint (capture_address m) w)) [
        | inr (x, w1, f) ↦ absurd (err-ne-ok (rw (e, f, start_capture) at h))
        | inl (_, w1, f) ↦ elim (Result-cases (sys.get_devices w1)) [
          | inr (x, w2, g) ↦ absurd (err-ne-ok (rw (e, f, g, start_capture) at h))
          | inl (devices, w2, g) ↦ elim (Option-cases (find_device (some serial) usb devices)) [
            | inl n ↦ absurd (cc (rw (e, f, g, n, start_capture) at h))
            | inr (d, p) ↦
                let k = rw (e, f, g, p, start_capture) at h in
                let same : d.udid ≡ udid = cc in
                rw (← same) (capture-IsServed serial m devices d w w1 w2 a' f g p (cc))
          ]
        ]
      ]

  through_capture-IsServed :
      (serial : Text) (a a' : App World) (udid : Text)
      → through_capture sys env serial a ≡ ok udid a'
      → IsServed sys (some serial) usb udid a'
  unfolding through_capture
  through_capture-IsServed serial a a' udid h = reused (reuse_capture sys env serial a) refl
    where
      started :
          (reuse_capture sys env serial a).0 ≡ start
          → (r : Result (App World) (Option Text))
          → start_capture sys env serial (reuse_capture sys env serial a).1 ≡ r
          → IsServed sys (some serial) usb udid a'
      started e (err x a2) f = absurd (err-ne-ok (rw (e, f, through_capture) at h))
      started e (ok (some u) a2) f =
          let k = rw (e, f, through_capture) at h in
          start_capture-IsServed serial _ a' udid (f ∙ (cc))
      started e (ok none a2) f =
          try_endpoints-IsServed (some serial) usb _ false none a2 a' udid
            (rw (e, f, through_capture) at h)

      reused :
          (r : Reuse × App World)
          → reuse_capture sys env serial a ≡ r
          → IsServed sys (some serial) usb udid a'
      reused (found u, a1) e =
          let k = rw (e, through_capture) at h in reuse_capture-IsServed serial a a' udid (e ∙ (cc))
      reused (keep_it, a1) e =
          try_endpoints-IsServed (some serial) usb _ false none (reuse_capture sys env serial a).1
            a' udid (rw (e, through_capture) at h)
      reused (start, a1) e = started (ap (λ (x : Reuse × App World). x.0) e) _ refl

  -- A device that `device_provider` hands out was listed, just before, by the endpoint that its
  -- provider is for; it has the requested identifier, up to dashes and case, if one was requested,
  -- and it is connected over the transport asked for. This holds for a capture mux that is reused,
  -- for one that is started, and for the usual endpoints.
  pub device_provider-IsServed :
      (transport : Transport) (a a' : App World) (udid : Text)
      → device_provider sys env transport a ≡ ok udid a'
      → IsServed sys (requested_udid env.args) transport udid a'
  unfolding device_provider
  device_provider-IsServed network a a' udid h =
      try_endpoints-IsServed (requested_udid env.args) network _ false none a a' udid h
  device_provider-IsServed usb a a' udid h = elim (Option-cases (requested_udid env.args)) [
    | inl e ↦
        rw e (try_endpoints-IsServed none usb _ false none a a' udid (rw (e, device_provider) at h))
    | inr (serial, e) ↦
        rw e (through_capture-IsServed serial a a' udid (rw (e, device_provider) at h))
  ]
