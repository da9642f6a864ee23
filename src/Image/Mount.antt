-- ===== src/Image/Mount.antt =====
-- `is_personalized_ddi_entry` and `mount_local_ddi` of src/main.rs.
pub mod Mounted
use i_usb_bridge.Prelude.{
  ℕ, Bool, true, false, not, ◌&&◌, ◌||◌, Option, none, some, List, [], ◌∷◌, ◌++◌, if◌then◌else◌,
  any,
}
use i_usb_bridge.Prelude.Bytes.{Bytes}
use i_usb_bridge.Prelude.Text.{Text, text}
use i_usb_bridge.Prelude.Action.{Result, ok, err, Action, ◌>>=◌, ◌>>◌, return, state_of}
use i_usb_bridge.Mux.Serial.{eq_ignore_ascii_case}
use i_usb_bridge.Session.Args.{FilePath}
use i_usb_bridge.Image.Disk.{Disk}

-- A `plist::Value` as this code reads it: none if it is not a dictionary, and the string that a
-- dictionary has at a key.
abbrev pub Entry : Type 0
Entry = Option (Text → Option Text)

-- `LockdownClient` and `ImageMounter` of the idevice crate, for the provider obtained last.
pub record Mounter (World : Type 0) : Type 0 where
  pub connect_lockdown : Action World (Unit {0})
  pub get_pairing_file : Action World (Unit {0})
  pub start_lockdown_session : Action World (Unit {0})
  pub connect_mounter : Action World (Unit {0})
  pub query_developer_mode_status : Action World Bool
  pub unique_chip_id : Action World (Option ℕ)
  pub copy_devices : Action World (List Entry)
  pub unmount_image : Text → Action World (Unit {0})
  -- The image, the trust cache, the manifest and the chip's identifier.
  pub mount_personalized : Bytes → Bytes → Bytes → ℕ → Action World (Unit {0})

abbrev is_text : Text → Option Text → Bool
is_text wanted none = false
is_text wanted (some value) = eq_ignore_ascii_case value wanted

unfoldable pub is_personalized_ddi_entry : Entry → Bool
is_personalized_ddi_entry none = false
is_personalized_ddi_entry (some get) =
    any (λ key. is_text (text "Personalized") (get key))
      (text "ImageType" ∷ text "DiskImageType" ∷ [])
    || is_text (text "DeveloperDiskImage") (get (text "PersonalizedImageType"))

module _ {World : Type 0} (disk : Disk World) (mounter : Mounter World)
    (display : FilePath → Text) where
  open disk use {read_file, is_dir, is_file}
  open mounter use {
    connect_lockdown, get_pairing_file, start_lockdown_session, connect_mounter,
    query_developer_mode_status, unique_chip_id, copy_devices, unmount_image, mount_personalized,
  }

  abbrev pub trust_name : FilePath → World → Text
  trust_name directory w =
      if is_file directory (text "Image.trustcache") w
      then text "Image.trustcache"
      else text "Image.dmg.trustcache"

  abbrev pub require_developer_mode : Bool → Action World (Unit {0})
  require_developer_mode true w = ok tt w
  require_developer_mode false w = err (text "Developer Mode is disabled") w

  abbrev pub require_chip_id : Option ℕ → Action World ℕ
  require_chip_id none w = err (text "UniqueChipID is missing or not an unsigned integer") w
  require_chip_id (some id) w = ok id w

  -- The image is mounted unless the device lists one; a forced mount takes a listed one away first.
  unfoldable pub mount_unless_listed :
      Bool → List Entry → Bytes → Bytes → Bytes → ℕ → Action World (Unit {0})
  mount_unless_listed force_remount mounted image trust_cache manifest chip w =
      if any is_personalized_ddi_entry mounted
      then if force_remount
        then mount_personalized image trust_cache manifest chip
            (state_of (unmount_image (text "/System/Developer") w))
        else ok tt w
      else mount_personalized image trust_cache manifest chip w

  abbrev pub require_dir : FilePath → Action World (Unit {0})
  require_dir directory w =
      if is_dir directory w
      then ok tt w
      else err (text "DDI directory does not exist: " ++ display directory) w

  abbrev pub read_trust_cache : FilePath → Action World Bytes
  read_trust_cache directory w = read_file directory (trust_name directory w) w

  unfoldable pub open_mounter : Action World (Unit {0})
  open_mounter = do connect_lockdown; get_pairing_file; start_lockdown_session; connect_mounter

  unfoldable pub mount_files : Bool → Bytes → Bytes → Bytes → Action World (Unit {0})
  unfolding mount_unless_listed
  mount_files force_remount image trust_cache manifest = do
    developer_mode ← query_developer_mode_status
    require_developer_mode developer_mode
    value ← unique_chip_id
    chip ← require_chip_id value
    mounted ← copy_devices
    mount_unless_listed force_remount mounted image trust_cache manifest chip

  unfoldable pub mount_local_ddi : FilePath → Bool → Action World (Unit {0})
  unfolding open_mounter mount_files
  mount_local_ddi directory force_remount = do
    require_dir directory
    image ← read_file directory (text "Image.dmg")
    manifest ← read_file directory (text "BuildManifest.plist")
    trust_cache ← read_trust_cache directory
    open_mounter
    mount_files force_remount image trust_cache manifest
