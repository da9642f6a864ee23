-- ===== src/Session/Connect.antt =====
-- How src/main.rs opens a session over a tunnel: `connect_session`, `connect_hid_session`,
-- `connect_session_from_transport`, `connect_universal_hid`, `start_media_gate`,
-- `require_main_touchscreen` and `describe_surfaces`. A session that is open is in the `World`; the
-- calls return its authentication mode. The tasks that drain the media sockets are left out, and so
-- are the fields of `CallInfoBlob`.
pub mod Opened
use i_usb_bridge.Prelude.{
  ℕ, Bool, true, false, ◌||◌, Option, none, some, List, [], ◌∷◌, ◌++◌, if◌then◌else◌,
}
use i_usb_bridge.Prelude.Text.{Text, text}
use i_usb_bridge.Prelude.Action.{Result, ok, err, Action, ◌>>=◌, ◌>>◌, return, state_of}
use i_usb_bridge.Session.App.{App, lift, on_world}
use i_usb_bridge.Session.Errors.{is_optional_media_gate_error}
use i_usb_bridge.Session.Reconnect.{has_main_touchscreen}
use i_usb_bridge.Session.System.{System}

abbrev pub modern : Text × Text
modern = (
  text "com.apple.coredevice.hid.universalhidservice",
  text "com.apple.coredevice.feature.remote.universalhidservice",
)

abbrev pub legacy : Text × Text
legacy = (
  text "com.apple.coredevice.hid.universalhid",
  text "com.apple.coredevice.feature.remote.universalhid",
)

-- `ids.join(",")`
unfoldable pub join_ids : (ℕ → Text) → List ℕ → Text
join_ids show [] = []
join_ids show (id ∷ []) = show id
join_ids show (id ∷ (next ∷ later)) = show id ++ (text "," ++ join_ids show (next ∷ later))

unfoldable pub describe_surfaces : (ℕ → Text) → List ℕ → Text
unfolding join_ids
describe_surfaces show surfaces =
    text "idevice did not publish mainTouchscreen service 257; surfaces=" ++ join_ids show surfaces

module _ {World : Type 0} (sys : System World) (show : ℕ → Text) where
  unfoldable pub require_main_touchscreen : Action (App World) (Unit {0})
  require_main_touchscreen = do
    surfaces ← lift sys.list_connected_services
    λ a. elim (has_main_touchscreen surfaces) [
      | true ↦ ok tt a
      | false ↦ err (describe_surfaces show surfaces) a
    ]

  unfoldable pub try_services : List (Text × Text) → Option Text → Action (App World) (Unit {0})
  try_services [] none a = err (text "no compatible Universal HID service was available") a
  try_services [] (some e) a = err e a
  try_services ((service, feature) ∷ later) last_error a =
      elim (lift (sys.connect_hid service feature) a) [
        | ok _ a' ↦ ok tt a'
        | err e a' ↦ try_services later (some e) a'
      ]

  unfoldable pub connect_universal_hid : Action (App World) (Unit {0})
  unfolding try_services
  connect_universal_hid a =
      try_services
        (if sys.has_service modern.0 a.world then modern ∷ legacy ∷ [] else legacy ∷ modern ∷ [])
        none a

  unfoldable pub start_media_gate : Action (App World) (Unit {0})
  start_media_gate = do
    lift sys.connect_display
    lift sys.bind_udp
    lift sys.bind_udp
    lift sys.build_audio_offer
    lift sys.start_audio_stream
    lift sys.build_video_offer
    lift sys.start_video_stream

  -- The display client of a direct session, or none.
  abbrev direct : Action (App World) Text
  direct a = ok (text "direct") (state_of (lift sys.connect_display a))

  -- `mediastream` or `direct`.
  unfoldable pub open_media_gate : Bool → Action (App World) Text
  unfolding start_media_gate
  open_media_gate false a = direct a
  open_media_gate true a = elim (start_media_gate a) [
    | ok _ a' ↦ ok (text "mediastream") a'
    | err e a' ↦ if is_optional_media_gate_error e then direct a' else err e a'
  ]

  unfoldable pub connect_session_from_transport : Bool → Action (App World) Text
  unfolding open_media_gate connect_universal_hid
  connect_session_from_transport enable_media_gate = do
    auth_mode ← open_media_gate enable_media_gate
    connect_universal_hid
    lift sys.connect_indigo
    lift sys.connect_pasteboard
    return auth_mode

  unfoldable pub open_tunnel : Action (App World) (Unit {0})
  open_tunnel = do
    lift sys.connect_proxy
    lift sys.create_tunnel
    lift sys.connect_rsd_port
    lift sys.shake_hands

  unfoldable pub connect_session : Action (App World) Text
  unfolding open_tunnel connect_session_from_transport
  connect_session = do open_tunnel; connect_session_from_transport true

  unfoldable pub connect_hid_session : Action (App World) Text
  unfolding open_tunnel connect_session_from_transport require_main_touchscreen
  connect_hid_session = do
    open_tunnel
    auth_mode ← connect_session_from_transport false
    require_main_touchscreen
    return auth_mode
