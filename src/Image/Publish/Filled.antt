-- ===== src/Image/Publish/Filled.antt =====
-- What a download of the whole developer image leaves in the new directory: `download_all` of
-- Image/Publish.antt.
use i_usb_bridge.Prelude.{
  ◌≡◌, ◌≢◌, refl, sym, ap, ◌∙◌, inl, inr, true, some, List, ◌==◌, All, Bool-cases, Option-cases,
}
use i_usb_bridge.Prelude.Bytes.{Bytes}
use i_usb_bridge.Prelude.Text.{Text, text, text_ne}
use i_usb_bridge.Prelude.Action.{
  Result, ok, Result-cases, err-ne-ok, ok-injective, ok_value, bind_inv,
}
use i_usb_bridge.Session.Args.{FilePath}
use i_usb_bridge.Image.Disk.{GithubAsset, DdiCacheMetadata, Disk, Net, Formats}
use i_usb_bridge.Image.Download.{download_github_blob}
use i_usb_bridge.Image.Download.Chunks.{download_github_blob_integrity}
use i_usb_bridge.Image.Cache.{expected_files, manifest_name, metadata_name, is_revision, find_asset}
use i_usb_bridge.Image.Cache.Valid.{IsValid, IntactFile}
use i_usb_bridge.Image.Publish.Keeps.{download_github_blob_keeps}
use i_usb_bridge.Image.Publish.Laws.{Laws}
use i_usb_bridge.Image.Publish.{
  download_file, download_files, check_manifest, write_metadata, download_all, fill_staging,
}

module _ {World : Type 0} (disk : Disk World) (net : Net World) (formats : Formats)
    (laws : Laws disk net formats) (d : FilePath) where
  open laws use {base, written, write_keeps, get_keeps, pause_keeps, metadata_back}
  open base use {contents, reads, fails}

  -- A file that was downloaded is as the listing says, and the others are as they were.
  download_file-IntactFile :
      (assets : List GithubAsset) (local upstream : Text) (w w' : World)
      → download_file disk net formats d assets (local, upstream) w ≡ ok tt w'
      → IntactFile disk net formats (contents w' d) assets (local, upstream)
        × ((n : Text) → n ≢ local → contents w' d n ≡ contents w d n)
  unfolding download_file
  download_file-IntactFile assets local upstream w w' h =
      elim (Option-cases (find_asset upstream assets)) [
        | inl n ↦ absurd (cc (rw (download_file, n) at h))
        | inr (asset, f) ↦ elim (Bool-cases (asset.size == 0)) [
          | inl z ↦ absurd (cc (rw (download_file, f, z) at h))
          | inr z ↦ elim (Result-cases (download_github_blob net formats asset w)) [
            | inr (x, v, e) ↦ absurd (cc (rw (download_file, f, z, e) at h))
            | inl (content, v, e) ↦
                let kept = rw e at (download_github_blob_keeps disk net formats laws d asset w) in
                let put : disk.write_file d local content v ≡ ok tt w' =
                  rw (download_file, f, z, e) at h in
                let (l, s) = download_github_blob_integrity net formats asset content w v e in
                (
                  (asset, content, f, written d local content v w' put, l, s),
                  λ n other.
                      write_keeps d local n content v w' put other ∙ ap (λ files. files n) kept,
                )
          ]
        ]
      ]

  still_intact :
      (assets : List GithubAsset) (local upstream : Text) (v w : World)
      → contents w d local ≡ contents v d local
      → IntactFile disk net formats (contents v d) assets (local, upstream)
      → IntactFile disk net formats (contents w d) assets (local, upstream)
  still_intact assets local upstream v w same (asset, content, f, c, l, s) =
      (asset, content, f, same ∙ c, l, s)

  download_files-IntactFile :
      (assets : List GithubAsset) (w w' : World)
      → download_files disk net formats d assets expected_files w ≡ ok tt w'
      → All (IntactFile disk net formats (contents w' d) assets) expected_files
  unfolding download_files
  download_files-IntactFile assets w w' h =
      let (_, v1, e1, h1) =
        bind_inv (download_file disk net formats d assets (text "Image.dmg", text "Image.dmg") w) _
          w' tt h in
      let (_, v2, e2, h2) =
        bind_inv (download_file disk net formats d assets (manifest_name, manifest_name) v1) _ w' tt
          h1 in
      let (_, v3, e3, h3) =
        bind_inv
          (download_file disk net formats d assets
            (text "Image.trustcache", text "Image.dmg.trustcache") v2)
          _ w' tt h2 in
      let same : v3 ≡ w' = ok-injective h3 in
      let (i1, k1) =
        download_file-IntactFile assets (text "Image.dmg") (text "Image.dmg") w v1 e1 in
      let (i2, k2) = download_file-IntactFile assets manifest_name manifest_name v1 v2 e2 in
      let (i3, k3) =
        download_file-IntactFile assets (text "Image.trustcache") (text "Image.dmg.trustcache") v2
          v3 e3 in
      rw (← same) (
        still_intact assets (text "Image.dmg") (text "Image.dmg") v1 v3
            (k3 (text "Image.dmg") (text_ne _ _ refl) ∙ k2 (text "Image.dmg") (text_ne _ _ refl))
            i1,
        (
          still_intact assets manifest_name manifest_name v2 v3
              (k3 manifest_name (text_ne _ _ refl)) i2,
          (i3, tt),
        ),
      )

  check_manifest_is_plist :
      (manifest : Bytes) (w w' : World)
      → check_manifest disk net formats manifest w ≡ ok tt w'
      → (formats.is_plist manifest ≡ true) × (w ≡ w')
  unfolding check_manifest
  check_manifest_is_plist manifest w w' h = elim (Bool-cases (formats.is_plist manifest)) [
    | inl b ↦ (b, ok-injective (rw (check_manifest, b) at h))
    | inr b ↦ absurd (err-ne-ok (rw (check_manifest, b) at h))
  ]

  write_metadata_stores :
      (metadata : DdiCacheMetadata) (w w' : World)
      → write_metadata disk net formats d metadata w ≡ ok tt w'
      → (stored : Bytes) × (contents w' d metadata_name ≡ some stored)
        × (formats.metadata_of stored ≡ some metadata)
        × ((n : Text) → n ≢ metadata_name → contents w' d n ≡ contents w d n)
  unfolding write_metadata
  write_metadata_stores metadata w w' h = elim (Option-cases (formats.metadata_bytes metadata)) [
    | inl n ↦ absurd (err-ne-ok (rw (write_metadata, n) at h))
    | inr (stored, b) ↦
        let put : disk.write_file d metadata_name stored w ≡ ok tt w' =
          rw (write_metadata, b) at h in
        (
          stored,
          written d metadata_name stored w w' put,
          metadata_back metadata stored b,
          λ n other. write_keeps d metadata_name n stored w w' put other,
        )
  ]

  -- All files were downloaded, the manifest was read back, and the listing was stored.
  pub download_all-IsValid :
      (commit : Text) (assets : List GithubAsset) (w w' : World)
      → is_revision commit ≡ true
      → download_all disk net formats d commit assets w ≡ ok tt w'
      → IsValid disk net formats (contents w' d)
  unfolding download_all
  download_all-IsValid commit assets w w' r h =
      let (_, v, e, h1) =
        bind_inv (download_files disk net formats d assets expected_files w) _ w' tt h in
      let (i1, ((asset, manifest, f, c, l, s), (i3, _))) = download_files-IntactFile assets w v e in
      let (found, v1, e1, h2) = bind_inv (disk.read_file d manifest_name v) _ w' tt h1 in
      let read : ◌≡◌ {A = Result World Bytes} (ok manifest v) (ok found v1) =
        sym (reads d manifest_name v manifest c) ∙ e1 in
      let (_, v2, e2, h3) = bind_inv (check_manifest disk net formats found v1) _ w' tt h2 in
      let (plist, at_v2) = check_manifest_is_plist found v1 v2 e2 in
      let at_v : v ≡ v2 = ok-injective read ∙ at_v2 in
      let (stored, stored_at, parsed, kept) =
        write_metadata_stores (record { commit = commit; assets = assets }) v2 w' h3 in
      let back : (n : Text) → n ≢ metadata_name → contents w' d n ≡ contents v d n =
        λ n other. kept n other ∙ ap (λ u. contents u d n) (sym at_v) in
      record {
        metadata = record { commit = commit; assets = assets };
        stored = stored;
        stored_at = stored_at;
        parsed = parsed;
        revision = r;
        intact = (
          still_intact assets (text "Image.dmg") (text "Image.dmg") v w' (back _ (text_ne _ _ refl))
              i1,
          (
            still_intact assets manifest_name manifest_name v w' (back _ (text_ne _ _ refl))
                (asset, manifest, f, c, l, s),
            (
              still_intact assets (text "Image.trustcache") (text "Image.dmg.trustcache") v w'
                  (back _ (text_ne _ _ refl)) i3,
              tt,
            ),
          ),
        );
        manifest = manifest;
        manifest_at = back manifest_name (text_ne _ _ refl) ∙ c;
        is_plist = rw (ok_value read) plist;
      }

  pub fill_staging-IsValid :
      (commit : Text) (assets : List GithubAsset) (w w' : World)
      → is_revision commit ≡ true
      → fill_staging disk net formats d commit assets w ≡ ok tt w'
      → IsValid disk net formats (contents w' d)
  unfolding fill_staging
  fill_staging-IsValid commit assets w w' r h =
      elim (Result-cases (download_all disk net formats d commit assets w)) [
        | inr (x, v, e) ↦ absurd (err-ne-ok (rw (e, fill_staging) at h))
        | inl (_, v, e) ↦
            let same : v ≡ w' = ok-injective (rw (e, fill_staging) at h) in
            rw (← same) (download_all-IsValid commit assets w v r e)
      ]
