-- ===== src/Image/Cache/Valid.antt =====
-- When the cache check of src/main.rs accepts a directory.
use i_usb_bridge.Prelude.{
  ◌≡◌, ◌↔◌, refl, ap, Bool, true, Option, none, some, List, [], ◌∷◌, inl, inr, ◌==◌, length, All,
  Bool-cases, Option-cases, ==_iff, ==_refl, &&_true,
}
use i_usb_bridge.Prelude.Bytes.{Bytes}
use i_usb_bridge.Prelude.Text.{Text, text_eq, text_eq→≡, text_eq_refl}
use i_usb_bridge.Prelude.Action.{ok, err}
use i_usb_bridge.Session.Args.{FilePath}
use i_usb_bridge.Image.Disk.{GithubAsset, DdiCacheMetadata, Disk, Net, Formats}
use i_usb_bridge.Image.Download.{git_blob_sha1}
use i_usb_bridge.Image.Cache.{
  expected_files, manifest_name, metadata_name, is_revision, find_asset, is_intact, valid_files,
  valid_manifest, valid_cached_ddi,
}

-- What is on the disk, and that a read gives it and changes nothing.
pub record Reads {World : Type 0} (disk : Disk World) : Type 0 where
  pub contents : World → FilePath → Text → Option Bytes
  pub reads :
      (d : FilePath) (n : Text) (w : World) (c : Bytes)
      → contents w d n ≡ some c
      → disk.read_file d n w ≡ ok c w
  pub fails :
      (d : FilePath) (n : Text) (w : World)
      → contents w d n ≡ none
      → (e : Text) × (disk.read_file d n w ≡ err e w)

module _ {World : Type 0} (disk : Disk World) (net : Net World) (formats : Formats) where
  -- A file that has the size and the hash of its asset.
  abbrev pub IntactFile : (Text → Option Bytes) → List GithubAsset → Text × Text → Type 0
  IntactFile files assets (local, upstream) =
      (asset : GithubAsset) × (content : Bytes) × (find_asset upstream assets ≡ some asset)
      × (files local ≡ some content)
      × (length content ≡ asset.size)
      × (git_blob_sha1 net formats content ≡ asset.sha)

  -- A complete developer image: a readable listing of a commit, every file as it lists it, and a
  -- manifest that is a plist.
  pub record IsValid (files : Text → Option Bytes) : Type 0 where
    pub metadata : DdiCacheMetadata
    pub stored : Bytes
    pub stored_at : files metadata_name ≡ some stored
    pub parsed : formats.metadata_of stored ≡ some metadata
    pub revision : is_revision metadata.commit ≡ true
    pub intact : All (IntactFile files metadata.assets) expected_files
    pub manifest : Bytes
    pub manifest_at : files manifest_name ≡ some manifest
    pub is_plist : formats.is_plist manifest ≡ true

  is_intact_sound :
      (asset : GithubAsset) (content : Bytes)
      → is_intact disk net formats asset content ≡ true
      → (length content ≡ asset.size) × (git_blob_sha1 net formats content ≡ asset.sha)
  unfolding is_intact
  is_intact_sound asset content h =
      let (l, s) =
        &&_true (length content == asset.size)
          (text_eq (git_blob_sha1 net formats content) asset.sha) h in
      (
        (==_iff (length content) asset.size).0 l,
        text_eq→≡ (git_blob_sha1 net formats content) asset.sha s,
      )

  is_intact_complete :
      (asset : GithubAsset) (content : Bytes)
      → length content ≡ asset.size
      → git_blob_sha1 net formats content ≡ asset.sha
      → is_intact disk net formats asset content ≡ true
  unfolding is_intact
  is_intact_complete asset content l s =
      rw (is_intact, l, s, ==_refl asset.size, text_eq_refl asset.sha)

  module _ (laws : Reads disk) (directory : FilePath) where
    open laws use {contents, reads, fails}

    valid_files_sound :
        (assets : List GithubAsset) (expected : List (Text × Text)) (w : World)
        → (valid_files disk net formats directory assets expected w).0 ≡ true
        → (valid_files disk net formats directory assets expected w ≡ (true, w))
          × All (IntactFile (contents w directory) assets) expected
    unfolding valid_files
    valid_files_sound assets [] w h = (refl, tt)
    valid_files_sound assets ((local, upstream) ∷ later) w h =
        elim (Option-cases (find_asset upstream assets)) [
          | inl n ↦ absurd (cc (rw (valid_files, n) at h))
          | inr (asset, f) ↦ elim (Option-cases (contents w directory local)) [
            | inl n ↦
                let (e, g) = fails directory local w n in absurd (cc (rw (valid_files, f, g) at h))
            | inr (content, c) ↦ elim (Bool-cases (is_intact disk net formats asset content)) [
              | inr b ↦ absurd (cc (rw (valid_files, f, reads directory local w content c, b) at h))
              | inl b ↦
                  let (same, rest) =
                    valid_files_sound assets later w
                      (rw (valid_files, f, reads directory local w content c, b) at h) in
                  let (l, s) = is_intact_sound asset content b in
                  (
                    rw (valid_files, f, reads directory local w content c, b) same,
                    ((asset, content, f, c, l, s), rest),
                  )
            ]
          ]
        ]

    valid_files_complete :
        (assets : List GithubAsset) (expected : List (Text × Text)) (w : World)
        → All (IntactFile (contents w directory) assets) expected
        → valid_files disk net formats directory assets expected w ≡ (true, w)
    unfolding valid_files
    valid_files_complete assets [] w h = refl
    valid_files_complete assets ((local, upstream) ∷ later) w ((asset, content, f, c, l, s), rest) =
        rw (valid_files, f, reads directory local w content c, is_intact_complete asset content l s)
          (valid_files_complete assets later w rest)

    -- The part behind the listing.
    listing-IsValid :
        (metadata : DdiCacheMetadata) (stored : Bytes) (w : World)
        → contents w directory metadata_name ≡ some stored
        → formats.metadata_of stored ≡ some metadata
        → is_revision metadata.commit ≡ true
        → (valid_cached_ddi disk net formats directory expected_files w).0 ≡ true
        → IsValid (contents w directory)
    unfolding valid_cached_ddi valid_manifest
    listing-IsValid metadata stored w c p r h =
        let read = reads directory metadata_name w stored c in
        elim (Bool-cases
          (valid_files disk net formats directory metadata.assets expected_files w).0) [
            | inr b ↦ absurd (cc (rw (valid_cached_ddi, read, p, r, b) at h))
            | inl b ↦
                let (same, all_intact) = valid_files_sound metadata.assets expected_files w b in
                let at_w : (valid_files disk net formats directory metadata.assets expected_files
                      w).1
                    ≡ w =
                  ap (λ (x : Bool × World). x.1) same in
                elim (Option-cases (contents w directory manifest_name)) [
                  | inl n ↦
                      let (e, g) = fails directory manifest_name w n in
                      absurd
                        (cc (rw (valid_cached_ddi, read, p, r, b, at_w, valid_manifest, g) at h))
                  | inr (manifest, m) ↦ record {
                    metadata = metadata;
                    stored = stored;
                    stored_at = c;
                    parsed = p;
                    revision = r;
                    intact = all_intact;
                    manifest = manifest;
                    manifest_at = m;
                    is_plist =
                        rw
                          (
                            valid_cached_ddi,
                            read,
                            p,
                            r,
                            b,
                            at_w,
                            valid_manifest,
                            reads directory manifest_name w manifest m,
                          )
                          at h;
                  }
                ]
          ]

    valid_cached_ddi_sound :
        (w : World)
        → (valid_cached_ddi disk net formats directory expected_files w).0 ≡ true
        → IsValid (contents w directory)
    unfolding valid_cached_ddi
    valid_cached_ddi_sound w h = elim (Option-cases (contents w directory metadata_name)) [
      | inl n ↦
          let (e, g) = fails directory metadata_name w n in
          absurd (cc (rw (valid_cached_ddi, g) at h))
      | inr (stored, c) ↦
          let read = reads directory metadata_name w stored c in
          elim (Option-cases (formats.metadata_of stored)) [
            | inl n ↦ absurd (cc (rw (valid_cached_ddi, read, n) at h))
            | inr (metadata, p) ↦ elim (Bool-cases (is_revision metadata.commit)) [
              | inr r ↦ absurd (cc (rw (valid_cached_ddi, read, p, r) at h))
              | inl r ↦ listing-IsValid metadata stored w c p r h
            ]
          ]
    ]

    pub valid_cached_ddi_complete :
        (w : World)
        → IsValid (contents w directory)
        → valid_cached_ddi disk net formats directory expected_files w ≡ (true, w)
    unfolding valid_cached_ddi valid_manifest
    valid_cached_ddi_complete w v =
        let same = valid_files_complete v.metadata.assets expected_files w v.intact in
        rw (
          valid_cached_ddi,
          reads directory metadata_name w v.stored v.stored_at,
          v.parsed,
          v.revision,
          ap (λ (x : Bool × World). x.0) same,
          ap (λ (x : Bool × World). x.1) same,
          valid_manifest,
          reads directory manifest_name w v.manifest v.manifest_at,
          v.is_plist,
        )

    -- The check accepts a directory exactly if its files are a complete developer image, whatever
    -- the files are, on a file system whose reads give what is there, fail where nothing is, and
    -- change nothing.
    pub valid_cached_ddi_iff :
        (w : World)
        → ((valid_cached_ddi disk net formats directory expected_files w).0 ≡ true)
          ↔ IsValid (contents w directory)
    valid_cached_ddi_iff w = (
      valid_cached_ddi_sound w,
      λ v. ap (λ (r : Bool × World). r.0) (valid_cached_ddi_complete w v),
    )
