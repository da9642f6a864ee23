-- ===== src/Image/Publish.antt =====
-- `ensure_personalized_ddi` of src/main.rs: a new developer image is downloaded beside the cached
-- one, and then takes its place.
pub mod Laws
pub mod Swap
pub mod Keeps
pub mod Filled
pub mod Ensured
use i_usb_bridge.Prelude.{
  ℕ, Bool, true, false, not, Option, none, some, List, [], ◌∷◌, ◌++◌, ◌==◌, if◌then◌else◌,
}
use i_usb_bridge.Prelude.Bytes.{Bytes}
use i_usb_bridge.Prelude.Text.{Text, text}
use i_usb_bridge.Prelude.Action.{Result, ok, err, Action, ◌>>=◌, ◌>>◌, return, state_of}
use i_usb_bridge.Session.Event.{status}
use i_usb_bridge.Session.App.{App, say, at_world, lift}
use i_usb_bridge.Session.Args.{FilePath, or_else}
use i_usb_bridge.Session.System.{Environment}
use i_usb_bridge.Image.Disk.{GithubAsset, DdiCacheMetadata, Disk, Net, Formats}
use i_usb_bridge.Image.Download.{ddi_repository, http_json, download_github_blob}
use i_usb_bridge.Image.Cache.{
  expected_files, manifest_name, metadata_name, is_revision, find_asset, valid_cached_ddi,
}

abbrev pub ddi_directory : Text
ddi_directory = text "PersonalizedImages/Xcode_iOS_DDI_Personalized"

module _ {World : Type 0} (disk : Disk World) (net : Net World) (formats : Formats) where
  open disk use {
    read_file, write_file, create_dir_all, rename, remove_dir_all, try_exists, parent, new_uuid,
  }

  -- `let _ = ..`
  abbrev ignoring : Action World (Unit {0}) → World → World
  ignoring m w = state_of (m w)

  unfoldable pub download_file : FilePath → List GithubAsset → Text × Text → Action World (Unit {0})
  download_file staging assets (local, upstream) w = elim (find_asset upstream assets) [
    | none ↦ err (text "DDI metadata is missing " ++ upstream) w
    | some asset ↦
        if asset.size == 0
        then err (text "DDI metadata has invalid size for " ++ upstream) w
        else elim (download_github_blob net formats asset w) [
          | err e w' ↦ err e w'
          | ok content w' ↦ write_file staging local content w'
        ]
  ]

  unfoldable pub download_files :
      FilePath → List GithubAsset → List (Text × Text) → Action World (Unit {0})
  unfolding download_file
  download_files staging assets [] = return tt
  download_files staging assets (file ∷ later) = do
    download_file staging assets file
    download_files staging assets later

  -- The manifest has to be a plist; then the listing is stored.
  unfoldable pub check_manifest : Bytes → Action World (Unit {0})
  check_manifest manifest w =
      if formats.is_plist manifest then ok tt w else err (text "invalid plist") w

  unfoldable pub write_metadata : FilePath → DdiCacheMetadata → Action World (Unit {0})
  write_metadata staging metadata w = elim (formats.metadata_bytes metadata) [
    | none ↦ err (text "metadata cannot be written") w
    | some content ↦ write_file staging metadata_name content w
  ]

  unfoldable pub download_all : FilePath → Text → List GithubAsset → Action World (Unit {0})
  unfolding download_files check_manifest write_metadata
  download_all staging commit assets = do
    download_files staging assets expected_files
    manifest ← read_file staging manifest_name
    check_manifest manifest
    write_metadata staging (record { commit = commit; assets = assets })

  unfoldable pub put_in_place : FilePath → FilePath → FilePath → Bool → Action World (Unit {0})
  put_in_place directory staging backup had_existing w = elim (rename staging directory w) [
    | err e w1 ↦
        let w2 : World = if had_existing then ignoring (rename backup directory) w1 else w1 in
        err e (ignoring (remove_dir_all staging) w2)
    | ok _ w1 ↦ ok tt (if had_existing then ignoring (remove_dir_all backup) w1 else w1)
  ]

  unfoldable pub set_aside : FilePath → FilePath → Action World Bool
  set_aside directory backup w = elim (try_exists directory w) [
    | err e w1 ↦ err e w1
    | ok false w1 ↦ ok false w1
    | ok true w1 ↦ elim (rename directory backup w1) [ err e w2 ↦ err e w2 | ok _ w2 ↦ ok true w2 ]
  ]

  unfoldable pub swap : FilePath → FilePath → FilePath → Action World (Unit {0})
  unfolding put_in_place set_aside
  swap directory staging backup = do
    had_existing ← set_aside directory backup
    put_in_place directory staging backup had_existing

  abbrev pub staging_of : FilePath → Text → FilePath
  staging_of place id = place ++ ((text ".developer-image.download-" ++ id) ∷ [])

  abbrev pub backup_of : FilePath → Text → FilePath
  backup_of place id = place ++ ((text ".developer-image.backup-" ++ id) ∷ [])

  -- The downloads into the new directory, which is removed if one of them fails.
  unfoldable pub fill_staging : FilePath → Text → List GithubAsset → Action World (Unit {0})
  unfolding download_all
  fill_staging staging commit assets w = elim (download_all staging commit assets w) [
    | err e w' ↦ err e (ignoring (remove_dir_all staging) w')
    | ok _ w' ↦ ok tt w'
  ]

  abbrev pub fresh : (Text → FilePath) → Action World FilePath
  fresh name w = let (id, w') = new_uuid w in ok (name id) w'

  unfoldable pub install_in :
      FilePath → FilePath → Text → List GithubAsset → Action World (Unit {0})
  unfolding fill_staging swap
  install_in parent_dir directory commit assets = do
    create_dir_all parent_dir
    staging ← fresh (staging_of parent_dir)
    create_dir_all staging
    fill_staging staging commit assets
    backup ← fresh (backup_of parent_dir)
    swap directory staging backup

  abbrev pub check_revision : Text → Action World (Unit {0})
  check_revision commit w =
      if is_revision commit then ok tt w else err (text "GitHub returned an invalid DDI revision") w

  abbrev pub parent_of : FilePath → Action World FilePath
  parent_of directory w = elim (parent directory) [
    | none ↦ err (text "DDI cache directory has no parent") w
    | some parent_dir ↦ ok parent_dir w
  ]

  unfoldable pub refresh : Option Text → FilePath → Action World (Unit {0})
  unfolding install_in
  refresh reference directory = do
    commit ← http_json net formats formats.commit_of (
        text "https://api.github.com/repos/"
        ++ (ddi_repository ++ (text "/commits/" ++ or_else reference (text "main"))))
    check_revision commit
    assets ← http_json net formats formats.assets_of (
        text "https://api.github.com/repos/"
        ++ (ddi_repository ++ (text "/contents/" ++ (ddi_directory ++ (text "?ref=" ++ commit)))))
    parent_dir ← parent_of directory
    install_in parent_dir directory commit assets

  unfoldable pub ensure_personalized_ddi : Environment → FilePath → Action (App World) (Unit {0})
  unfolding refresh
  ensure_personalized_ddi env directory a =
      let (valid, w) = valid_cached_ddi disk net formats directory expected_files a.world in
      let a1 : App World = record a { world = w } in
      if valid
      then ok tt a1
      else lift (refresh (env.var (text "IPHONE_MIRROR_DDI_GITHUB_REF")) directory)
          (say (status (text "downloading_developer_image")) a1)
