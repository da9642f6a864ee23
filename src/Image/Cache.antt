-- ===== src/Image/Cache.antt =====
-- `valid_cached_ddi` and `verify_local_personalized_ddi` of src/main.rs.

pub mod Valid
use i_usb_bridge.Prelude.{
  ℕ, Bool, true, false, not, ◌&&◌, ◌||◌, Option, none, some, List, [], ◌∷◌, ◌++◌, leb, ◌==◌,
  if◌then◌else◌, length, all,
}
use i_usb_bridge.Prelude.Bytes.{Bytes}
use i_usb_bridge.Prelude.Text.{Text, text, text_eq}
use i_usb_bridge.Prelude.Action.{Result, ok, err, Action}
use i_usb_bridge.Mux.Serial.{is_ascii_hexdigit}
use i_usb_bridge.Session.Args.{FilePath}
use i_usb_bridge.Image.Disk.{GithubAsset, DdiCacheMetadata, Disk, Net, Formats}
use i_usb_bridge.Image.Download.{git_blob_sha1}

-- The name of a file in the cache, and its name upstream.
abbrev pub expected_files : List (Text × Text)
expected_files =
    (text "Image.dmg", text "Image.dmg")
    ∷ (text "BuildManifest.plist", text "BuildManifest.plist")
    ∷ (text "Image.trustcache", text "Image.dmg.trustcache")
    ∷ []

abbrev pub manifest_name : Text
manifest_name = text "BuildManifest.plist"

abbrev pub metadata_name : Text
metadata_name = text "idevice-ddi-metadata.json"

-- The commit of a listing: forty hexadecimal digits.
unfoldable pub is_revision : Text → Bool
unfolding is_ascii_hexdigit
is_revision commit = (length commit == 40) && all is_ascii_hexdigit commit

-- `assets.iter().find(|asset| asset.name == upstream)`
unfoldable pub find_asset : Text → List GithubAsset → Option GithubAsset
find_asset upstream [] = none
find_asset upstream (asset ∷ later) =
    let rest = find_asset upstream later in if text_eq asset.name upstream then some asset else rest

module _ {World : Type 0} (disk : Disk World) (net : Net World) (formats : Formats) where
  open disk use {read_file}

  unfoldable pub is_intact : GithubAsset → Bytes → Bool
  is_intact asset content =
      (length content == asset.size) && text_eq (git_blob_sha1 net formats content) asset.sha

  unfoldable pub valid_files :
      FilePath → List GithubAsset → List (Text × Text) → World → Bool × World
  unfolding is_intact
  valid_files directory assets [] w = (true, w)
  valid_files directory assets ((local, upstream) ∷ later) w = elim (find_asset upstream assets) [
    | none ↦ (false, w)
    | some asset ↦ elim (read_file directory local w) [
      | err _ w' ↦ (false, w')
      | ok content w' ↦ elim (is_intact asset content) [
        | true ↦ valid_files directory assets later w'
        | false ↦ (false, w')
      ]
    ]
  ]

  unfoldable pub valid_manifest : FilePath → World → Bool × World
  valid_manifest directory w = elim (read_file directory manifest_name w) [
    | err _ w' ↦ (false, w')
    | ok content w' ↦ (formats.is_plist content, w')
  ]

  unfoldable pub valid_cached_ddi : FilePath → List (Text × Text) → World → Bool × World
  unfolding valid_files valid_manifest
  valid_cached_ddi directory expected w = elim (read_file directory metadata_name w) [
    | err _ w' ↦ (false, w')
    | ok content w' ↦ elim (formats.metadata_of content) [
      | none ↦ (false, w')
      | some metadata ↦
          if not (is_revision metadata.commit)
          then (false, w')
          else (let (valid, w1) = valid_files directory metadata.assets expected w' in
              elim valid [ false ↦ (false, w1) | true ↦ valid_manifest directory w1 ])
    ]
  ]

  unfoldable pub verify_local_personalized_ddi :
      (FilePath → Text) → FilePath → Action World (Unit {0})
  unfolding valid_cached_ddi
  verify_local_personalized_ddi display directory w =
      let (valid, w') = valid_cached_ddi directory expected_files w in
      if valid
      then ok tt w'
      else err
          (text "DDI directory is missing or failed integrity validation: " ++ display directory) w'
