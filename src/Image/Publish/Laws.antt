-- ===== src/Image/Publish/Laws.antt =====
-- What the image code of src/main.rs relies on: of the file system, that a directory holds what was
-- put there: a read gives what is there, fails where nothing is, and changes nothing; a write and a
-- rename that succeed do what they say, and a rename that fails changes no directory; removing a
-- directory touches none apart from it; asking for a directory, a request, a pause and a new name
-- touch none at all. Of serde, that a listing is read back as it was written. No law says that a
-- write, a rename or a request succeeds.
use i_usb_bridge.Prelude.{ℕ, ◌≡◌, ◌≢◌, Bool, true, Option, some}
use i_usb_bridge.Prelude.Bytes.{Bytes}
use i_usb_bridge.Prelude.Text.{Text}
use i_usb_bridge.Prelude.Action.{ok, err, state_of, timed_state_of}
use i_usb_bridge.Session.Args.{FilePath}
use i_usb_bridge.Image.Disk.{DdiCacheMetadata, Disk, Net, Formats}
use i_usb_bridge.Image.Cache.Valid.{Reads}

-- Whole directories, where `contents` says what each one holds.
pub record Moves {World : Type 0} (disk : Disk World)
    (contents : World → FilePath → Text → Option Bytes) : Type 0 where
  -- Two directories of which none is or contains the other.
  pub apart : FilePath → FilePath → Bool
  pub apart_sym : (d d' : FilePath) → apart d d' ≡ true → apart d' d ≡ true
  pub moved :
      (from to : FilePath) (w w' : World)
      → disk.rename from to w ≡ ok tt w'
      → contents w' to ≡ contents w from
  pub rename_keeps :
      (d from to : FilePath) (w w' : World)
      → disk.rename from to w ≡ ok tt w'
      → apart d from ≡ true
      → apart d to ≡ true
      → contents w' d ≡ contents w d
  pub rename_failed :
      (d from to : FilePath) (e : Text) (w w' : World)
      → disk.rename from to w ≡ err e w'
      → contents w' d ≡ contents w d
  pub remove_keeps :
      (d removed : FilePath) (w : World)
      → apart d removed ≡ true
      → contents (state_of (disk.remove_dir_all removed w)) d ≡ contents w d
  pub exists_keeps :
      (d asked : FilePath) (w : World)
      → contents (state_of (disk.try_exists asked w)) d ≡ contents w d

pub record Laws {World : Type 0} (disk : Disk World) (net : Net World) (formats : Formats)
    : Type 0 where
  pub base : Reads disk
  pub moves : Moves disk base.contents
  pub written :
      (d : FilePath) (n : Text) (b : Bytes) (w w' : World)
      → disk.write_file d n b w ≡ ok tt w'
      → base.contents w' d n ≡ some b
  pub write_keeps :
      (d : FilePath) (n n' : Text) (b : Bytes) (w w' : World)
      → disk.write_file d n b w ≡ ok tt w'
      → n' ≢ n
      → base.contents w' d n' ≡ base.contents w d n'
  pub get_keeps :
      (d : FilePath) (url : Text) (range : Option (ℕ × ℕ)) (w : World)
      → base.contents (timed_state_of (net.get url range w)) d ≡ base.contents w d
  pub pause_keeps :
      (d : FilePath) (n : ℕ) (w : World) → base.contents (net.pause n w) d ≡ base.contents w d
  pub uuid_keeps :
      (d : FilePath) (w : World) → base.contents (disk.new_uuid w).1 d ≡ base.contents w d
  pub metadata_back :
      (metadata : DdiCacheMetadata) (b : Bytes)
      → formats.metadata_bytes metadata ≡ some b
      → formats.metadata_of b ≡ some metadata
