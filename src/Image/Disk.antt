-- ===== src/Image/Disk.antt =====
-- What the image code of src/main.rs calls of tokio's file system, of the HTTP client, and of the
-- JSON, plist and SHA-1 crates. They are parameters of the model.
use i_usb_bridge.Prelude.{ℕ, Bool, Option, List}
use i_usb_bridge.Prelude.Bytes.{Bytes}
use i_usb_bridge.Prelude.Text.{Text}
use i_usb_bridge.Prelude.Action.{Action, Timed}
use i_usb_bridge.Session.Args.{FilePath}

-- `GithubAsset` and `DdiCacheMetadata`
pub record GithubAsset : Type 0 where
  pub name : Text
  pub sha : Text
  pub size : ℕ

pub record DdiCacheMetadata : Type 0 where
  pub commit : Text
  pub assets : List GithubAsset

pub record Response : Type 0 where
  pub status : ℕ
  pub body : Bytes

-- A file is named by its directory and its name there.
pub record Disk (World : Type 0) : Type 0 where
  pub read_file : FilePath → Text → Action World Bytes
  pub write_file : FilePath → Text → Bytes → Action World (Unit {0})
  pub create_dir_all : FilePath → Action World (Unit {0})
  pub rename : FilePath → FilePath → Action World (Unit {0})
  pub remove_dir_all : FilePath → Action World (Unit {0})
  pub try_exists : FilePath → Action World Bool
  pub is_dir : FilePath → World → Bool
  pub is_file : FilePath → Text → World → Bool
  pub parent : FilePath → Option FilePath
  pub new_uuid : World → Text × World

-- A GET of a URL, with a range of bytes or without, and a pause.
pub record Net (World : Type 0) : Type 0 where
  pub get : Text → Option (ℕ × ℕ) → Timed World Response
  pub pause : ℕ → World → World

pub record Formats : Type 0 where
  pub show : ℕ → Text
  pub sha1_hex : Bytes → Text
  pub commit_of : Bytes → Option Text
  pub assets_of : Bytes → Option (List GithubAsset)
  pub metadata_of : Bytes → Option DdiCacheMetadata
  pub metadata_bytes : DdiCacheMetadata → Option Bytes
  pub is_plist : Bytes → Bool
