-- ===== src/Session/Connect/Opened.antt =====
-- What a session that src/main.rs opened has.
use i_usb_bridge.Prelude.{
  ℕ, ◌≡◌, sym, ◌∙◌, inl, inr, Bool, true, false, none, List, [], ◌∷◌, if◌then◌else◌, Bool-cases,
}
use i_usb_bridge.Prelude.Text.{Text, text}
use i_usb_bridge.Prelude.Action.{ok, err, Result-cases, err-ne-ok, ok-injective, ok_value, bind_inv}
use i_usb_bridge.Session.App.{App, lift}
use i_usb_bridge.Session.Reconnect.{has_main_touchscreen}
use i_usb_bridge.Session.System.{System}
use i_usb_bridge.Session.Connect.{
  modern, legacy, require_main_touchscreen, try_services, connect_universal_hid, open_media_gate,
  connect_session_from_transport, open_tunnel, connect_hid_session,
}

module _ {World : Type 0} (sys : System World) (show : ℕ → Text) where
  -- The state is the one after a list of the session's services with the main touchscreen in it.
  pub record IsListed (a' : App World) : Type 0 where
    pub before : App World
    pub surfaces : List ℕ
    pub listed : lift sys.list_connected_services before ≡ ok surfaces a'
    pub present : has_main_touchscreen surfaces ≡ true

  pub require_main_touchscreen-IsListed :
      (a a' : App World) → require_main_touchscreen sys show a ≡ ok tt a' → IsListed a'
  unfolding require_main_touchscreen
  require_main_touchscreen-IsListed a a' h =
      let (surfaces, v, e, k) = bind_inv (lift sys.list_connected_services a) _ a' tt h in
      elim (Bool-cases (has_main_touchscreen surfaces)) [
        | inl p ↦
            let same : v ≡ a' = ok-injective (rw p at k) in
            record { before = a; surfaces = surfaces; listed = rw (← same) e; present = p }
        | inr p ↦ absurd (err-ne-ok (rw p at k))
      ]

  -- Without the media gate a session is a direct one.
  connect_session_from_transport_direct :
      (a a' : App World) (auth_mode : Text)
      → connect_session_from_transport sys show false a ≡ ok auth_mode a'
      → auth_mode ≡ text "direct"
  unfolding connect_session_from_transport open_media_gate
  connect_session_from_transport_direct a a' auth_mode h =
      let (_, v1, e1, h1) = bind_inv (connect_universal_hid sys show _) _ a' auth_mode h in
      let (_, v2, e2, h2) = bind_inv (lift sys.connect_indigo v1) _ a' auth_mode h1 in
      let (_, v3, e3, h3) = bind_inv (lift sys.connect_pasteboard v2) _ a' auth_mode h2 in
      sym (ok_value h3)

  -- A session that `connect_hid_session` opens is a direct one, and its service list, asked for
  -- last, holds the main touchscreen.
  pub connect_hid_session-IsListed :
      (a a' : App World) (auth_mode : Text)
      → connect_hid_session sys show a ≡ ok auth_mode a'
      → (auth_mode ≡ text "direct") × IsListed a'
  unfolding connect_hid_session
  connect_hid_session-IsListed a a' auth_mode h =
      let (_, v1, e1, h1) = bind_inv (open_tunnel sys show a) _ a' auth_mode h in
      let (mode, v2, e2, h2) =
        bind_inv (connect_session_from_transport sys show false v1) _ a' auth_mode h1 in
      let (_, v3, e3, h3) = bind_inv (require_main_touchscreen sys show v2) _ a' auth_mode h2 in
      let same : v3 ≡ a' = ok-injective h3 in
      (
        sym (ok_value h3) ∙ connect_session_from_transport_direct v1 v2 mode e2,
        rw (← same) (require_main_touchscreen-IsListed v2 v3 e3),
      )

  two_services :
      (first second : Text × Text) (a : App World)
      → try_services sys show (first ∷ second ∷ []) none a
        ≡ (elim (lift (sys.connect_hid first.0 first.1) a) [
          | ok _ a' ↦ ok tt a'
          | err _ a' ↦ lift (sys.connect_hid second.0 second.1) a'
        ])
  unfolding try_services
  two_services first second a = elim (Result-cases (lift (sys.connect_hid first.0 first.1) a)) [
    | inl (_, v, e) ↦ rw (e, try_services)
    | inr (m, v, e) ↦ elim (Result-cases (lift (sys.connect_hid second.0 second.1) v)) [
      | inl (_, v', f) ↦ rw (e, f, try_services)
      | inr (m', v', f) ↦ rw (e, f, try_services)
    ]
  ]

  either_order :
      (advertised : Bool) (a : App World)
      → let first = if advertised then modern else legacy in
        let second = if advertised then legacy else modern in
        try_services sys show
          (if advertised then modern ∷ legacy ∷ [] else legacy ∷ modern ∷ [])
          none
          a
        ≡ (elim (lift (sys.connect_hid first.0 first.1) a) [
          | ok _ a' ↦ ok tt a'
          | err _ a' ↦ lift (sys.connect_hid second.0 second.1) a'
        ])
  either_order true a = two_services modern legacy a
  either_order false a = two_services legacy modern a

  -- Of the two Universal HID services the modern one is tried first if the device lists it, and the
  -- legacy one if it does not; the other is tried when the first refuses, and the answer is its.
  pub connect_universal_hid_in_order :
      (a : App World)
      → let first = if sys.has_service modern.0 a.world then modern else legacy in
        let second = if sys.has_service modern.0 a.world then legacy else modern in
        connect_universal_hid sys show a ≡ (elim (lift (sys.connect_hid first.0 first.1) a) [
          | ok _ a' ↦ ok tt a'
          | err _ a' ↦ lift (sys.connect_hid second.0 second.1) a'
        ])
  unfolding connect_universal_hid try_services
  connect_universal_hid_in_order a = either_order (sys.has_service modern.0 a.world) a
