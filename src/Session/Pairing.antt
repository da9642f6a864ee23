-- ===== src/Session/Pairing.antt =====
-- RemotePairing in src/main.rs: `remote_pairing_candidates` and `remote_pairing_transport`. What mDNS delivers within the fifteen seconds
-- is a list, whose end is the deadline.
pub mod Named
use i_usb_bridge.Prelude.{
  ℕ, Bool, true, false, not, ◌&&◌, ◌||◌, Option, none, some, List, [], ◌∷◌, ◌++◌, ◌⊎◌, inl, inr,
  ◌==◌, if◌then◌else◌, length,
}
use i_usb_bridge.Prelude.Bytes.{Bytes}
use i_usb_bridge.Prelude.Text.{Text, text, text_eq}
use i_usb_bridge.Prelude.Action.{
  Result, ok, err, TimedResult, in_time, elapsed, Action, Timed, within, ◌>>=◌, ◌>>◌, return,
}
use i_usb_bridge.Mux.Serial.{same_udid}
use i_usb_bridge.Session.Event.{status, wifi_sync_enabled}
use i_usb_bridge.Session.Device.{usb}
use i_usb_bridge.Session.App.{App, say, at_world, lift}
use i_usb_bridge.Session.Args.{FilePath, or_else, requested_udid, remote_pairing_file_path}
use i_usb_bridge.Session.Provider.{device_provider}
use i_usb_bridge.Session.System.{System, Environment}

-- `RpPairingFile` as far as the program looks at it.
pub record Pairing : Type 0 where
  pub identifier : Text
  pub alt_irk : Option Bytes

pub record Candidate : Type 0 where
  pub udid : Text
  pub path : FilePath
  pub pairing : Pairing

-- A service that mDNS resolved; the address is the first that can be used.
pub record Service : Type 0 where
  pub identifier : Option Text
  pub auth_tag : Option Text
  pub address : Option Text

pub data Discovery : Type 0 where
  resolved : Service → Discovery
  other_event : Discovery
  disconnected : Text → Discovery

-- What this code calls of the idevice and mdns crates and of the file system.
pub record Remote (World : Type 0) : Type 0 where
  pub read_from_file : FilePath → Action World Pairing
  pub generate : Text → Pairing
  pub write_to_file : FilePath → Pairing → Action World (Unit {0})
  -- The entries, of which each can fail.
  pub read_dir : FilePath → Action World (List (Text ⊎ FilePath))
  pub create_dir_all : FilePath → Action World (Unit {0})
  pub parent : FilePath → Option FilePath
  pub extension : FilePath → Option Text
  pub file_stem : FilePath → Option Text
  pub display : FilePath → Text
  pub browse : Action World (List Discovery)
  pub validate_auth_tag : Bytes → Text → Text → Bool
  -- Connect to an address and pair; the pairing after it.
  pub connect_rpc : Text → Pairing → Action World Pairing
  pub open_tunnel : Text → Action World (Unit {0})
  pub shutdown : World → World
  -- The pairing service over USB.
  pub connect_pairing_service : Timed World (Unit {0})
  pub into_client : Action World (Unit {0})
  pub verify_pairing : Pairing → Timed World Pairing
  -- Lockdown, for the Wi-Fi switch: a value that is no Boolean is none.
  pub connect_lockdown : Action World (Unit {0})
  pub get_pairing_file : Action World (Unit {0})
  pub start_lockdown_session : Action World (Unit {0})
  pub wifi_connections : Action World (Option Bool)
  pub set_wifi_connections : Bool → Action World (Unit {0})

abbrev pub is_text : Text → Option Text → Bool
is_text wanted none = false
is_text wanted (some t) = text_eq t wanted

abbrev pub stem_is : Text → Option Text → Bool
stem_is wanted none = false
stem_is wanted (some stem) = same_udid stem wanted

abbrev pub is_given {ℓ} : {A : Type ℓ} → Option A → Bool
is_given none = false
is_given (some a) = true

module _ {World : Type 0} (sys : System World) (env : Environment) (remote : Remote World) where
  open remote use {
    read_from_file, generate, write_to_file, read_dir, create_dir_all, parent, extension, file_stem,
    display, browse, validate_auth_tag, connect_rpc, open_tunnel, shutdown, connect_pairing_service,
    into_client, verify_pairing, connect_lockdown, get_pairing_file, start_lockdown_session,
    wifi_connections, set_wifi_connections,
  }

  abbrev pub invalid_pairing : FilePath → Text
  invalid_pairing path = text "RemotePairing pairing file is missing or invalid: " ++ display path

  -- The first readable file whose name is an equivalent spelling of the identifier.
  unfoldable pub equivalent_pairing :
      Text → List (Text ⊎ FilePath) → Action World (Option Candidate)
  equivalent_pairing requested [] w = ok none w
  equivalent_pairing requested (inl e ∷ later) w = err e w
  equivalent_pairing requested (inr path ∷ later) w =
      if not (is_text (text "plist") (extension path)) || not (stem_is requested (file_stem path))
      then equivalent_pairing requested later w
      else elim (read_from_file path w) [
        | ok pairing w' ↦ ok (some (record { udid = requested; path = path; pairing = pairing })) w'
        | err _ w' ↦ equivalent_pairing requested later w'
      ]

  -- The directory is looked through only for a named device, and if no file was named.
  unfoldable pub search_directory : Option Text → FilePath → Action World (Option Candidate)
  unfolding equivalent_pairing
  search_directory none path w = ok none w
  search_directory (some requested) path w =
      if is_given (env.var (text "IPHONE_MIRROR_RP_PAIRING_FILE"))
      then ok none w
      else elim (parent path) [
        | none ↦ ok none w
        | some directory ↦ elim (read_dir directory w) [
          | err _ w' ↦ ok none w'
          | ok entries w' ↦ equivalent_pairing requested entries w'
        ]
      ]

  abbrev pub only_candidate : FilePath → Option Candidate → Action World (List Candidate)
  only_candidate path none w = err (invalid_pairing path) w
  only_candidate path (some candidate) w = ok (candidate ∷ []) w

  -- A device or a file was named.
  unfoldable pub named_candidates : Option Text → Action World (List Candidate)
  unfolding search_directory
  named_candidates requested w =
      let path : FilePath = remote_pairing_file_path env requested in
      elim (read_from_file path w) [
        | ok pairing w1 ↦
            ok (record { udid = or_else requested []; path = path; pairing = pairing } ∷ []) w1
        | err _ w1 ↦ (search_directory requested path >>= only_candidate path) w1
      ]

  -- All readable files of the directory.
  unfoldable pub all_pairings : List (Text ⊎ FilePath) → Action World (List Candidate)
  all_pairings [] w = ok [] w
  all_pairings (inl e ∷ later) w = err e w
  all_pairings (inr path ∷ later) w =
      if not (is_text (text "plist") (extension path))
      then all_pairings later w
      else elim (file_stem path) [
        | none ↦ all_pairings later w
        | some udid ↦ elim (read_from_file path w) [
          | err _ w' ↦ all_pairings later w'
          | ok pairing w' ↦ elim (all_pairings later w') [
            | err e w2 ↦ err e w2
            | ok others w2 ↦ ok (record { udid = udid; path = path; pairing = pairing } ∷ others) w2
          ]
        ]
      ]

  abbrev some_candidate : FilePath → List Candidate → Action World (List Candidate)
  some_candidate directory [] w = err (invalid_pairing directory) w
  some_candidate directory (c ∷ cs) w = ok (c ∷ cs) w

  unfoldable pub any_candidates : Action World (List Candidate)
  unfolding all_pairings
  any_candidates w = elim (parent (remote_pairing_file_path env (some (text "placeholder")))) [
    | none ↦ err (text "RemotePairing cache has no parent directory") w
    | some directory ↦ elim (read_dir directory w) [
      | err _ w1 ↦ err (invalid_pairing directory) w1
      | ok entries w1 ↦ (all_pairings entries >>= some_candidate directory) w1
    ]
  ]

  unfoldable pub remote_pairing_candidates : Action World (List Candidate)
  unfolding named_candidates any_candidates
  remote_pairing_candidates w =
      if is_given (env.var (text "IPHONE_MIRROR_RP_PAIRING_FILE"))
        || is_given (requested_udid env.args)
      then named_candidates (requested_udid env.args) w
      else any_candidates w

  -- Is the candidate the one that a service belongs to? Without a tag to check, only if it is the
  -- only one.
  unfoldable pub belongs_to : Service → ℕ → Candidate → Bool
  belongs_to service count candidate = elim (service.identifier) [
    | none ↦ false
    | some identifier ↦
        if not (text_eq identifier candidate.pairing.identifier)
        then false
        else elim (candidate.pairing.alt_irk) [
          | none ↦ count == 1
          | some alt_irk ↦ elim (service.auth_tag) [
            | none ↦ count == 1
            | some auth_tag ↦ validate_auth_tag alt_irk identifier auth_tag
          ]
        ]
  ]

  -- `candidates.iter().position(..)`, as the candidate there.
  unfoldable pub find_candidate : Service → ℕ → List Candidate → Option Candidate
  unfolding belongs_to
  find_candidate service count [] = none
  find_candidate service count (c ∷ cs) =
      let rest = find_candidate service count cs in
      if belongs_to service count c then some c else rest

  abbrev pub usable : Option Text → Action World Text
  usable none w = err (text "RemotePairing service has no usable address") w
  usable (some address) w = ok address w

  abbrev pub create_parent : FilePath → Action World (Unit {0})
  create_parent path w = elim (parent path) [
    | none ↦ ok tt w
    | some directory ↦ create_dir_all directory w
  ]

  -- Pair with the candidate at the service's address, store the pairing, and open the tunnel.
  unfoldable pub connect_candidate : Service → Candidate → Action World Text
  connect_candidate service candidate = do
    address ← usable service.address
    pairing ← connect_rpc address candidate.pairing
    create_parent candidate.path
    write_to_file candidate.path pairing
    open_tunnel address
    λ w. ok candidate.udid (shutdown w)

  unfoldable pub wait_for_service : List Candidate → List Discovery → Action World Text
  unfolding find_candidate connect_candidate
  wait_for_service candidates [] w =
      err (text "no RemotePairing mDNS service found within 15 seconds") w
  wait_for_service candidates (disconnected e ∷ later) w = err e w
  wait_for_service candidates (other_event ∷ later) w = wait_for_service candidates later w
  wait_for_service candidates (resolved service ∷ later) w =
      elim (find_candidate service (length candidates) candidates) [
        | none ↦ wait_for_service candidates later w
        | some candidate ↦ connect_candidate service candidate w
      ]

  unfoldable pub remote_pairing_transport : Action World Text
  unfolding remote_pairing_candidates wait_for_service
  remote_pairing_transport = do
    discoveries ← browse
    candidates ← remote_pairing_candidates
    wait_for_service candidates discoveries
