-- ===== src/Image/Tests.antt =====
-- Concrete runs of the image code of src/main.rs, on a file system that is a function.
use i_usb_bridge.Prelude.{
  ℕ, ◌≡◌, ◌≢◌, ◌⊎◌, ◌↔◌, refl, ap₂, Bool, true, false, not, ◌&&◌, Option, none, some, List, [], ◌∷◌,
  inl, inr, if◌then◌else◌, length, Bool-cases, ==_iff, ◌==◌, &&_true, arith,
}
use i_usb_bridge.Prelude.Bytes.{Bytes}
use i_usb_bridge.Prelude.Text.{Text, text, text_eq, text_eq→≡, text_eq_refl}
use i_usb_bridge.Prelude.Action.{ok, err, in_time, state_of, ok-injective, err-ne-ok}
use i_usb_bridge.Session.Args.{FilePath}
use i_usb_bridge.Mux.Serial.{is_ascii_hexdigit}
use i_usb_bridge.Session.App.{App}
use i_usb_bridge.Session.System.{Environment}
use i_usb_bridge.Image.Cache.{
  expected_files, is_revision, find_asset, is_intact, valid_files, valid_manifest, valid_cached_ddi,
}
use i_usb_bridge.Image.Cache.Valid.{IsValid, valid_cached_ddi_iff}
use i_usb_bridge.Image.Download.{
  git_blob_sha1, http_json, request_chunk, fetch_chunk, download_loop, check_blob,
  download_github_blob,
}
use i_usb_bridge.Image.Download.Chunks.{
  Serves, download_github_blob_integrity, download_github_blob_whole,
}
use i_usb_bridge.Image.Mount.{
  Mounter, mount_unless_listed, open_mounter, mount_files, mount_local_ddi,
}
use i_usb_bridge.Image.Mount.Mounted.{DeveloperMode, Listed, Mounted, Read, mount_local_ddi_mounts}
use i_usb_bridge.Image.Publish.{
  download_file, download_files, check_manifest, write_metadata, download_all, fill_staging,
  put_in_place, set_aside, swap, install_in, refresh, ensure_personalized_ddi,
}
use i_usb_bridge.Image.Publish.Ensured.{Beside, ensure_personalized_ddi-IsValid}
use i_usb_bridge.Image.Publish.Laws.{Laws, Moves}
use i_usb_bridge.Image.Publish.Swap.{swap_keeps}
use i_usb_bridge.Image.Disk.{GithubAsset, DdiCacheMetadata, Disk, Net, Formats, Response}

abbrev path_eq : FilePath → FilePath → Bool
path_eq [] [] = true
path_eq [] (b ∷ bs) = false
path_eq (a ∷ xs) [] = false
path_eq (a ∷ xs) (b ∷ bs) = text_eq a b && path_eq xs bs

path_eq_refl : (p : FilePath) → path_eq p p ≡ true
path_eq_refl [] = refl
path_eq_refl (a ∷ xs) = rw (text_eq_refl a) (path_eq_refl xs)

path_eq→≡ : (p q : FilePath) → path_eq p q ≡ true → p ≡ q
path_eq→≡ [] [] h = refl
path_eq→≡ [] (b ∷ bs) h = absurd (cc h)
path_eq→≡ (a ∷ xs) [] h = absurd (cc h)
path_eq→≡ (a ∷ xs) (b ∷ bs) h =
    let (p, q) = &&_true (text_eq a b) (path_eq xs bs) h in
    ap₂ (λ z zs. z ∷ zs) (text_eq→≡ a b p) (path_eq→≡ xs bs q)

abbrev apart_paths : FilePath → FilePath → Bool
apart_paths p q = not (path_eq p q)

apart_paths_sym : (p q : FilePath) → apart_paths p q ≡ true → apart_paths q p ≡ true
apart_paths_sym p q h = elim (Bool-cases (path_eq q p)) [
  | inr n ↦ rw n refl
  | inl e ↦ absurd (cc (rw (path_eq→≡ q p e, path_eq_refl p) at h))
]

-- A file system: the files of every directory.
abbrev Files : Type 0
Files = FilePath → Text → Option Bytes

abbrev put : FilePath → Text → Bytes → Files → Files
put d n b w d' n' = if path_eq d' d && text_eq n' n then some b else w d' n'

abbrev move : FilePath → FilePath → Files → Files
move from to w d = if path_eq d to then w from else (if path_eq d from then (λ n. none) else w d)

abbrev clear : FilePath → Files → Files
clear removed w d = if path_eq d removed then (λ n. none) else w d

-- A directory that cannot be moved.
abbrev locked : FilePath
locked = text "locked" ∷ []

abbrev disk : Disk Files
disk = record {
  read_file = λ d n w. elim (w d n) [ some c ↦ ok c w | none ↦ err (text "not found") w ];
  write_file = λ d n b w. ok tt (put d n b w);
  create_dir_all = λ d w. ok tt w;
  rename =
      λ from to w. if path_eq from locked then err (text "denied") w else ok tt (move from to w);
  remove_dir_all = λ d w. ok tt (clear d w);
  try_exists = λ d w. ok true w;
  is_dir = λ d w. true;
  is_file = λ d n w. true;
  parent = λ d. some [];
  new_uuid = λ w. ([], w);
}

-- The listing that the server has: three files of one byte.
abbrev commit_id : Text
commit_id = text "aaaaaaaaaabbbbbbbbbbccccccccccdddddddddd"

abbrev one_byte : Text → GithubAsset
one_byte name = record { name = name; sha = text "h"; size = 1 }

abbrev listing : List GithubAsset
listing =
    one_byte (text "Image.dmg")
    ∷ one_byte (text "BuildManifest.plist")
    ∷ one_byte (text "Image.dmg.trustcache")
    ∷ []

abbrev served : DdiCacheMetadata
served = record { commit = commit_id; assets = listing }

abbrev asset_eq : GithubAsset → GithubAsset → Bool
asset_eq a b = text_eq a.name b.name && (text_eq a.sha b.sha && (a.size == b.size))

abbrev assets_eq : List GithubAsset → List GithubAsset → Bool
assets_eq [] [] = true
assets_eq [] (b ∷ bs) = false
assets_eq (a ∷ xs) [] = false
assets_eq (a ∷ xs) (b ∷ bs) = asset_eq a b && assets_eq xs bs

asset_eq→≡ : (a b : GithubAsset) → asset_eq a b ≡ true → a ≡ b
asset_eq→≡ a b h =
    let (p, qr) = &&_true (text_eq a.name b.name) _ h in
    let (q, r) = &&_true (text_eq a.sha b.sha) (a.size == b.size) qr in
    cc (text_eq→≡ a.name b.name p, text_eq→≡ a.sha b.sha q, (==_iff a.size b.size).0 r)

assets_eq→≡ : (xs bs : List GithubAsset) → assets_eq xs bs ≡ true → xs ≡ bs
assets_eq→≡ [] [] h = refl
assets_eq→≡ [] (b ∷ bs) h = absurd (cc h)
assets_eq→≡ (a ∷ xs) [] h = absurd (cc h)
assets_eq→≡ (a ∷ xs) (b ∷ bs) h =
    let (p, q) = &&_true (asset_eq a b) (assets_eq xs bs) h in
    ap₂ (λ z zs. z ∷ zs) (asset_eq→≡ a b p) (assets_eq→≡ xs bs q)

-- Only that listing is written, as the byte 9.
abbrev write_listing : DdiCacheMetadata → Option Bytes
write_listing metadata =
    if text_eq metadata.commit commit_id && assets_eq metadata.assets listing
    then some (9 ∷ [])
    else none

abbrev formats : Formats
formats = record {
  show = λ n. [];
  sha1_hex = λ b. text "h";
  commit_of = λ b. some commit_id;
  assets_of = λ b. some listing;
  metadata_of = λ b. some served;
  metadata_bytes = write_listing;
  is_plist = λ b. true;
}

-- A page for each address; the byte 5 for a range.
abbrev answer : Option (ℕ × ℕ) → Response
answer none = record { status = 200; body = [] }
answer (some range) = record { status = 206; body = 5 ∷ [] }

abbrev net : Net Files
net = record { get = λ url range w. in_time (ok (answer range) w); pause = λ n w. w }

put_keeps :
    (d : FilePath) (n n' : Text) (b : Bytes) (w w' : Files)
    → put d n b w ≡ w'
    → n' ≢ n
    → w' d n' ≡ w d n'
put_keeps d n n' b w w' h other = elim (Bool-cases (text_eq n' n)) [
  | inl e ↦ absurd (other (text_eq→≡ n' n e))
  | inr e ↦ rw (← h, path_eq_refl d, e) refl
]

move_moves : (from to : FilePath) (w w' : Files) → disk.rename from to w ≡ ok tt w' → w' to ≡ w from
move_moves from to w w' h = elim (Bool-cases (path_eq from locked)) [
  | inl e ↦ absurd (err-ne-ok (rw e at h))
  | inr e ↦
      let same : move from to w ≡ w' = ok-injective (rw e at h) in rw (← same, path_eq_refl to) refl
]

not-false : (b : Bool) → not b ≡ true → b ≡ false
not-false true h = absurd (cc h)
not-false false h = refl

move_keeps :
    (d from to : FilePath) (w w' : Files)
    → disk.rename from to w ≡ ok tt w'
    → apart_paths d from ≡ true
    → apart_paths d to ≡ true
    → w' d ≡ w d
move_keeps d from to w w' h p q = elim (Bool-cases (path_eq from locked)) [
  | inl e ↦ absurd (err-ne-ok (rw e at h))
  | inr e ↦
      let same : move from to w ≡ w' = ok-injective (rw e at h) in
      rw (← same, not-false (path_eq d to) q, not-false (path_eq d from) p) refl
]

move_failed :
    (d from to : FilePath) (e : Text) (w w' : Files) → disk.rename from to w ≡ err e w' → w' d ≡ w d
move_failed d from to e w w' h = elim (Bool-cases (path_eq from locked)) [
  | inl b ↦ let same : w ≡ w' = cc (rw b at h) in rw (← same) refl
  | inr b ↦ absurd (cc (rw b at h))
]

clear_keeps :
    (d removed : FilePath) (w : Files) → apart_paths d removed ≡ true → clear removed w d ≡ w d
clear_keeps d removed w p = rw (not-false (path_eq d removed) p) refl

listing_back :
    (metadata : DdiCacheMetadata) (b : Bytes)
    → write_listing metadata ≡ some b
    → ◌≡◌ {A = Option DdiCacheMetadata} (some served) (some metadata)
listing_back metadata b h =
    elim (Bool-cases (text_eq metadata.commit commit_id && assets_eq metadata.assets listing)) [
      | inr n ↦ absurd (cc (rw n at h))
      | inl e ↦
          let (p, q) = &&_true (text_eq metadata.commit commit_id) _ e in
          cc (text_eq→≡ metadata.commit commit_id p, assets_eq→≡ metadata.assets listing q)
    ]

abbrev moves : Moves disk (λ w. w)
moves = record {
  apart = apart_paths;
  apart_sym = apart_paths_sym;
  moved = λ from to w w' h. move_moves from to w w' h;
  rename_keeps = λ d from to w w' h p q. move_keeps d from to w w' h p q;
  rename_failed = λ d from to e w w' h. move_failed d from to e w w' h;
  remove_keeps = λ d removed w p. clear_keeps d removed w p;
  exists_keeps = λ d asked w. refl;
}

abbrev laws : Laws disk net formats
laws = record {
  base = record {
    contents = λ w. w;
    reads = λ d n w c e. rw e refl;
    fails = λ d n w e. (text "not found", rw e refl);
  };
  moves = moves;
  written = λ d n b w w' h. rw (← ok-injective h, path_eq_refl d, text_eq_refl n) refl;
  write_keeps = λ d n n' b w w' h other. put_keeps d n n' b w w' (ok-injective h) other;
  get_keeps = λ d url range w. refl;
  pause_keeps = λ d n w. refl;
  uuid_keeps = λ d w. refl;
  metadata_back = λ metadata b h. listing_back metadata b h;
}

abbrev content : Bytes
content = 5 ∷ []

download_github_blob_integrity_example :
    (length content ≡ 1) × (git_blob_sha1 net formats content ≡ text "h")
unfolding download_github_blob download_loop fetch_chunk request_chunk check_blob git_blob_sha1
download_github_blob_integrity_example =
    download_github_blob_integrity net formats (one_byte (text "Image.dmg")) content (λ d n. none)
      (λ d n. none) refl

one_byte_served : Serves net formats (one_byte (text "Image.dmg")) (5 ∷ [])
one_byte_served start end_at w h k =
    let first : start ≡ 0 = omega (arith, h, k) in
    let last : end_at ≡ 0 = omega (arith, h, k) in (w, rw (first, last) refl)

download_github_blob_whole_example :
    (w' : Files) × (download_github_blob net formats (one_byte (text "Image.dmg")) (λ d n. none)
      ≡ ok (5 ∷ []) w')
unfolding git_blob_sha1
download_github_blob_whole_example =
    download_github_blob_whole net formats (one_byte (text "Image.dmg")) (5 ∷ []) one_byte_served
      refl (λ d n. none) refl

abbrev cache : FilePath
cache = text "cache" ∷ []

-- The three files, and the listing.
abbrev complete : Files
complete = put cache (text "Image.dmg") (5 ∷ []) (
    put cache (text "BuildManifest.plist") (5 ∷ []) (
      put cache (text "Image.trustcache") (5 ∷ [])
        (put cache (text "idevice-ddi-metadata.json") (9 ∷ []) (λ d n. none))))

valid_cached_ddi_iff_example :
    ((valid_cached_ddi disk net formats cache expected_files complete).0 ≡ true)
    ↔ IsValid disk net formats (complete cache)
valid_cached_ddi_iff_example = valid_cached_ddi_iff disk net formats (laws.base) cache complete

abbrev old_cache : Files
old_cache = put cache (text "Image.dmg") (4 ∷ []) (λ d n. none)

abbrev backup : FilePath
backup = text "backup" ∷ []

abbrev after_swap : Files
after_swap = clear locked (move backup cache (move cache backup old_cache))

swap_keeps_example : (after_swap cache ≡ old_cache cache) ⊎ (after_swap backup ≡ old_cache cache)
unfolding swap set_aside put_in_place
swap_keeps_example =
    swap_keeps disk net formats (λ w. w) moves cache locked backup refl refl refl old_cache
      after_swap (text "denied") refl

abbrev environment : Environment
environment = record { args = []; var = λ name. none; temp_dir = text "tmp" }

abbrev before : App Files
before = record { world = old_cache; capture = none; events = []; auth_mode = [] }

abbrev after : App Files
after = state_of (ensure_personalized_ddi disk net formats environment cache before)

cache-Beside : Beside disk net formats laws cache
cache-Beside parent_dir id id' h = let top : parent_dir ≡ [] = cc h in rw top (refl, (refl, refl))

ensure_personalized_ddi-IsValid_example :
    IsValid disk net formats (after.world cache)
    × (valid_cached_ddi disk net formats cache expected_files after.world ≡ (true, after.world))
unfolding ensure_personalized_ddi refresh install_in fill_staging download_all download_files
    download_file check_manifest write_metadata swap set_aside put_in_place find_asset
    download_github_blob download_loop fetch_chunk request_chunk check_blob git_blob_sha1 http_json
    is_revision is_ascii_hexdigit valid_cached_ddi valid_files valid_manifest is_intact
ensure_personalized_ddi-IsValid_example =
    ensure_personalized_ddi-IsValid disk net formats laws cache cache-Beside environment before
      after refl

-- A device in Developer Mode that lists no image.
abbrev mounter : Mounter Files
mounter = record {
  connect_lockdown = λ w. ok tt w;
  get_pairing_file = λ w. ok tt w;
  start_lockdown_session = λ w. ok tt w;
  connect_mounter = λ w. ok tt w;
  query_developer_mode_status = λ w. ok true w;
  unique_chip_id = λ w. ok (some 77) w;
  copy_devices = λ w. ok [] w;
  unmount_image = λ name w. ok tt w;
  mount_personalized =
      λ image trust_cache manifest chip w. ok tt (put (text "device" ∷ []) (text "image") image w);
}

abbrev display : FilePath → Text
display p = []

abbrev with_image : Files
with_image = put (text "device" ∷ []) (text "image") content complete

mount_local_ddi_mounts_example :
    (image : Bytes) × (trust_cache : Bytes) × (manifest : Bytes) × (Read disk mounter display cache
        complete image trust_cache manifest
      × (DeveloperMode disk mounter display
          × (Listed disk mounter display false with_image
              ⊎ Mounted disk mounter display image trust_cache manifest with_image)))
unfolding mount_local_ddi open_mounter mount_files mount_unless_listed
mount_local_ddi_mounts_example =
    mount_local_ddi_mounts disk mounter display cache false complete with_image refl
