-- ===== src/Startup/Tests.antt =====
-- Concrete runs of the session and of the start of src/main.rs, with a device that answers.
use i_usb_bridge.Prelude.{◌≡◌, refl, true, false, none, some, List, [], ◌∷◌, ◌++◌, inl}
use i_usb_bridge.Prelude.Text.{Text, text, ascii_lower}
use i_usb_bridge.Prelude.Action.{ok, err, in_time, state_of}
use i_usb_bridge.Mux.Serial.{same_udid, is_ascii_hexdigit}
use i_usb_bridge.Image.Cache.{
  is_revision, find_asset, is_intact, valid_files, valid_manifest, valid_cached_ddi,
  verify_local_personalized_ddi,
}
use i_usb_bridge.Image.Disk.{GithubAsset, DdiCacheMetadata, Disk, Net, Formats}
use i_usb_bridge.Image.Download.{git_blob_sha1}
use i_usb_bridge.Image.Mount.{Mounter}
use i_usb_bridge.Session.App.{App, say, lift}
use i_usb_bridge.Session.Args.{
  has_flag, behind, value_of, requested_udid, requested_transport, requested_rate_hz,
  requested_ddi_dir,
}
use i_usb_bridge.Session.Connect.{
  modern, legacy, try_services, connect_universal_hid, open_media_gate, require_main_touchscreen,
  connect_session_from_transport, open_tunnel, connect_hid_session,
}
use i_usb_bridge.Session.Connect.Opened.{
  IsListed, connect_hid_session-IsListed, connect_universal_hid_in_order,
}
use i_usb_bridge.Session.Device.{usb}
use i_usb_bridge.Session.Event.{Event, ready, error, status, warning}
use i_usb_bridge.Session.Pairing.{
  Remote, Pairing, Service, resolved, named_candidates, remote_pairing_candidates, belongs_to,
  find_candidate, connect_candidate, wait_for_service, remote_pairing_transport,
}
use i_usb_bridge.Session.Provision.{provision_remote_pairing}
use i_usb_bridge.Session.Pairing.Named.{remote_pairing_transport_named}
use i_usb_bridge.Session.Provider.{
  serves, find_device, no_device, reuse_capture, start_capture, try_endpoints, through_capture,
  device_provider,
}
use i_usb_bridge.Session.Provider.Served.{IsServed, device_provider-IsServed}
use i_usb_bridge.Session.Reconnect.{has_main_touchscreen, connect_session_with_ddi_recovery}
use i_usb_bridge.Session.System.{System, Environment, usb_connection}
use i_usb_bridge.Session.Whole.{Outside, device_of}
use i_usb_bridge.Startup.Launch.{open_session, look_for_touchscreen, start}
use i_usb_bridge.Startup.Launch.Failure.{start_reports_failure}
use i_usb_bridge.Startup.Launch.Named.{start_named}
use i_usb_bridge.Startup.Launch.Ready.{start_ready}
use i_usb_bridge.Startup.Report.{or_fail, or_warn}
use i_usb_bridge.Startup.Wireless.{prepare_attempts, prepare_wireless_personalized_ddi}
use i_usb_bridge.Startup.Wireless.Prepared.{IsChecked, prepare_wireless_personalized_ddi-IsChecked}
use i_usb_bridge.Startup.Wired.{existing_session, open_wired}

-- The world has no state: every answer is fixed.
abbrev World : Type 0
World = Unit {0}

abbrev sys : System World
sys = record {
  sleep = λ n w. w;
  connect_endpoint = λ address w. ok tt w;
  get_devices = λ w. ok (record { udid = text "00-AB"; connection = usb_connection } ∷ []) w;
  to_provider = λ address d w. w;
  start_mux = λ serial w. ok none w;
  is_alive = λ m w. true;
  drop_mux = λ m w. w;
  connect_proxy = λ w. ok tt w;
  create_tunnel = λ w. ok tt w;
  connect_rsd_port = λ w. ok tt w;
  shake_hands = λ w. ok tt w;
  has_service = λ name w. false;
  connect_display = λ w. err (text "no display") w;
  bind_udp = λ w. ok tt w;
  build_audio_offer = λ w. ok tt w;
  build_video_offer = λ w. ok tt w;
  start_audio_stream = λ w. ok tt w;
  start_video_stream = λ w. ok tt w;
  connect_hid = λ service feature w. ok tt w;
  connect_indigo = λ w. ok tt w;
  connect_pasteboard = λ w. ok tt w;
  drop_session = λ w. w;
  send_keyboard = λ usage state w. in_time (ok tt w);
  send_button = λ page usage state w. in_time (ok tt w);
  build_multitouch_report = λ contacts timestamp. inl [];
  send_report = λ service report w. in_time (ok tt w);
  list_connected_services = λ w. ok (256 ∷ 257 ∷ []) w;
  services_in_time = λ w. in_time (ok [] w);
  lock_pasteboard = λ w. (true, w);
  set_text = λ t w. in_time (ok tt w);
  get_text = λ w. in_time (ok none w);
  abort_tasks = λ w. w;
  spawn_monitor = λ w. w;
}

-- `iUsbBridge --udid 00ab --ddi-dir d`
abbrev env : Environment
env = record {
  args = text "--udid" ∷ text "00ab" ∷ text "--ddi-dir" ∷ text "d" ∷ [];
  var = λ name. none;
  temp_dir = text "tmp";
}

abbrev pairing : Pairing
pairing = record { identifier = text "id"; alt_irk = none }

abbrev advertised : Service
advertised = record {
  identifier = some (text "id");
  auth_tag = none;
  address = some (text "10.0.0.2");
}

abbrev remote : Remote World
remote = record {
  read_from_file = λ path w. ok pairing w;
  generate = λ name. pairing;
  write_to_file = λ path p w. ok tt w;
  read_dir = λ path w. ok [] w;
  create_dir_all = λ path w. ok tt w;
  parent = λ path. some [];
  extension = λ path. none;
  file_stem = λ path. none;
  display = λ path. [];
  browse = λ w. ok (resolved advertised ∷ []) w;
  validate_auth_tag = λ key identifier tag. true;
  connect_rpc = λ address p w. ok p w;
  open_tunnel = λ address w. ok tt w;
  shutdown = λ w. w;
  connect_pairing_service = λ w. in_time (err (text "no pairing service") w);
  into_client = λ w. ok tt w;
  verify_pairing = λ p w. in_time (ok p w);
  connect_lockdown = λ w. ok tt w;
  get_pairing_file = λ w. ok tt w;
  start_lockdown_session = λ w. ok tt w;
  wifi_connections = λ w. ok none w;
  set_wifi_connections = λ b w. ok tt w;
}

-- Every file is one byte; the listing says so.
abbrev disk : Disk World
disk = record {
  read_file = λ d n w. ok (5 ∷ []) w;
  write_file = λ d n b w. ok tt w;
  create_dir_all = λ d w. ok tt w;
  rename = λ from to w. ok tt w;
  remove_dir_all = λ d w. ok tt w;
  try_exists = λ d w. ok true w;
  is_dir = λ d w. true;
  is_file = λ d n w. true;
  parent = λ d. none;
  new_uuid = λ w. ([], w);
}

abbrev one_byte : Text → GithubAsset
one_byte name = record { name = name; sha = text "h"; size = 1 }

abbrev listing : DdiCacheMetadata
listing = record {
  commit = text "aaaaaaaaaabbbbbbbbbbccccccccccdddddddddd";
  assets =
      one_byte (text "Image.dmg")
      ∷ one_byte (text "BuildManifest.plist")
      ∷ one_byte (text "Image.dmg.trustcache")
      ∷ [];
}

abbrev formats : Formats
formats = record {
  show = λ n. [];
  sha1_hex = λ b. text "h";
  commit_of = λ b. none;
  assets_of = λ b. none;
  metadata_of = λ b. some listing;
  metadata_bytes = λ metadata. none;
  is_plist = λ b. true;
}

abbrev net : Net World
net = record { get = λ url range w. in_time (err (text "offline") w); pause = λ n w. w }

abbrev mounter : Mounter World
mounter = record {
  connect_lockdown = λ w. ok tt w;
  get_pairing_file = λ w. ok tt w;
  start_lockdown_session = λ w. ok tt w;
  connect_mounter = λ w. ok tt w;
  query_developer_mode_status = λ w. ok true w;
  unique_chip_id = λ w. ok none w;
  copy_devices = λ w. ok [] w;
  unmount_image = λ name w. ok tt w;
  mount_personalized = λ image trust_cache manifest chip w. ok tt w;
}

abbrev out : Outside World
out = record {
  sys = sys;
  env = env;
  remote = remote;
  disk = disk;
  net = net;
  formats = formats;
  mounter = mounter;
  display = λ p. [];
}

abbrev app : App World
app = record { world = tt; capture = none; events = []; auth_mode = [] }

device_provider-IsServed_example :
    IsServed sys
      (requested_udid env.args)
      usb
      (text "00-AB")
      (state_of (device_provider sys env usb app))
unfolding device_provider through_capture reuse_capture start_capture try_endpoints find_device
    serves requested_udid value_of behind same_udid is_ascii_hexdigit ascii_lower
device_provider-IsServed_example =
    device_provider-IsServed sys env usb app (state_of (device_provider sys env usb app))
      (text "00-AB") refl

connect_hid_session-IsListed_example : (text "direct" ≡ text "direct") × IsListed sys (λ n. []) app
unfolding connect_hid_session open_tunnel connect_session_from_transport open_media_gate
    connect_universal_hid try_services require_main_touchscreen has_main_touchscreen
connect_hid_session-IsListed_example =
    connect_hid_session-IsListed sys (λ n. []) app app (text "direct") refl

connect_universal_hid_in_order_example :
    connect_universal_hid sys (λ n. []) app ≡ (elim (lift (sys.connect_hid legacy.0 legacy.1) app) [
      | ok _ a' ↦ ok tt a'
      | err _ a' ↦ lift (sys.connect_hid modern.0 modern.1) a'
    ])
connect_universal_hid_in_order_example = connect_universal_hid_in_order sys (λ n. []) app

remote_pairing_transport_named_example : text "00ab" ≡ text "00ab"
unfolding remote_pairing_transport remote_pairing_candidates named_candidates wait_for_service
    find_candidate belongs_to connect_candidate requested_udid value_of behind
remote_pairing_transport_named_example =
    remote_pairing_transport_named sys env remote (text "00ab") tt tt (text "00ab") refl refl

abbrev started : App World
started = state_of (start out app)

start_ready_example :
    (b : App World) × (IsListed sys formats.show b
      × (started ≡ say (ready (text "00-AB") 120 b.auth_mode (text "usb")) b))
unfolding start open_session open_wired look_for_touchscreen or_fail or_warn existing_session
    device_provider through_capture reuse_capture start_capture try_endpoints find_device serves
    requested_udid value_of behind has_flag requested_transport requested_rate_hz requested_ddi_dir
    same_udid is_ascii_hexdigit ascii_lower connect_hid_session open_tunnel
    connect_session_from_transport open_media_gate connect_universal_hid try_services
    require_main_touchscreen has_main_touchscreen provision_remote_pairing
    verify_local_personalized_ddi valid_cached_ddi valid_files valid_manifest is_intact find_asset
    is_revision git_blob_sha1
start_ready_example = start_ready out app started (text "00-AB") refl

start_named_example : same_udid (text "00-AB") (text "00ab") ≡ true
unfolding start open_session open_wired look_for_touchscreen or_fail or_warn existing_session
    device_provider through_capture reuse_capture start_capture try_endpoints find_device serves
    requested_udid value_of behind has_flag requested_transport requested_ddi_dir same_udid
    is_ascii_hexdigit ascii_lower connect_hid_session open_tunnel connect_session_from_transport
    open_media_gate connect_universal_hid try_services require_main_touchscreen has_main_touchscreen
    provision_remote_pairing verify_local_personalized_ddi valid_cached_ddi valid_files
    valid_manifest is_intact find_asset is_revision git_blob_sha1
start_named_example = start_named out (text "00ab") refl app started (text "00-AB") refl

-- The same without an endpoint.
abbrev unplugged : Outside World
unplugged = record out {
  sys = record sys { connect_endpoint = λ address w. err (text "refused") w };
}

abbrev refusal : Text
refusal = text "no Apple or capture usbmuxd endpoint is available: refused"

abbrev not_started : App World
not_started = state_of (start unplugged app)

start_reports_failure_example :
    (earlier : List Event) × (code : Text) × (message : Text) × (not_started.events
      ≡ earlier ++ (error code message ∷ []))
unfolding start open_session open_wired or_fail device_provider through_capture reuse_capture
    start_capture try_endpoints no_device requested_udid value_of behind has_flag
    requested_transport
start_reports_failure_example = start_reports_failure unplugged app not_started refusal refl

abbrev checked : App World
checked = record app {
  events =
      status (text "checking_developer_environment")
      ∷ status (text "capture_mux_not_found")
      ∷ status (text "provisioning_remote_pairing")
      ∷ warning (text "wireless_remote_pairing_provision_failed") (text "no pairing service")
      ∷ [];
  auth_mode = text "direct";
}

prepare_wireless_personalized_ddi-IsChecked_example :
    IsChecked out (some (text "00ab")) (text "d" ∷ []) checked
unfolding prepare_wireless_personalized_ddi prepare_attempts or_warn device_of
    connect_session_with_ddi_recovery device_provider through_capture reuse_capture start_capture
    try_endpoints find_device serves requested_udid value_of behind same_udid is_ascii_hexdigit
    ascii_lower connect_hid_session open_tunnel connect_session_from_transport open_media_gate
    connect_universal_hid try_services require_main_touchscreen has_main_touchscreen
    provision_remote_pairing
prepare_wireless_personalized_ddi-IsChecked_example =
    prepare_wireless_personalized_ddi-IsChecked out (some (text "00ab")) (text "d" ∷ []) app checked
      refl
