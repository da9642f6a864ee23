-- ===== src/Image/Publish/Ensured.antt =====
-- What `ensure_personalized_ddi` of src/main.rs ensures.
use i_usb_bridge.Prelude.{
  ◌≡◌, sym, ap, ◌∙◌, inl, inr, Bool, true, Option, some, List, Bool-cases, Option-cases,
}
use i_usb_bridge.Prelude.Text.{Text, text}
use i_usb_bridge.Prelude.Action.{Result, ok, err-ne-ok, ok-injective, ok_value, bind_inv}
use i_usb_bridge.Session.App.{App, lift_ok}
use i_usb_bridge.Session.Args.{FilePath}
use i_usb_bridge.Session.System.{Environment}
use i_usb_bridge.Image.Disk.{GithubAsset, Disk, Net, Formats}
use i_usb_bridge.Image.Download.{http_json}
use i_usb_bridge.Image.Cache.{expected_files, is_revision, valid_cached_ddi}
use i_usb_bridge.Image.Cache.Valid.{IsValid, valid_cached_ddi_iff, valid_cached_ddi_complete}
use i_usb_bridge.Image.Publish.Laws.{Laws}
use i_usb_bridge.Image.Publish.Swap.{swap_moves}
use i_usb_bridge.Image.Publish.Filled.{fill_staging-IsValid}
use i_usb_bridge.Image.Publish.{
  fill_staging, staging_of, backup_of, check_revision, parent_of, install_in, refresh,
  ensure_personalized_ddi,
}

module _ {World : Type 0} (disk : Disk World) (net : Net World) (formats : Formats)
    (laws : Laws disk net formats) (directory : FilePath) where
  open laws use {base, moves, uuid_keeps}
  open moves use {apart}
  open base use {contents}

  -- The new directories are beside the cached one, whatever the random names are.
  abbrev pub Beside : Type 0
  Beside =
      (parent_dir : FilePath) (id id' : Text)
      → disk.parent directory ≡ some parent_dir
      → (apart directory (staging_of disk net formats parent_dir id) ≡ true)
        × ((apart directory (backup_of disk net formats parent_dir id') ≡ true)
            × (apart (staging_of disk net formats parent_dir id)
                  (backup_of disk net formats parent_dir id')
                ≡ true))

  module _ (beside : Beside) where
    install_in-IsValid :
        (parent_dir : FilePath) (commit : Text) (assets : List GithubAsset) (w w' : World)
        → disk.parent directory ≡ some parent_dir
        → is_revision commit ≡ true
        → install_in disk net formats parent_dir directory commit assets w ≡ ok tt w'
        → IsValid disk net formats (contents w' directory)
    unfolding install_in
    install_in-IsValid parent_dir commit assets w w' p r h =
        let (_, v, e, h1) = bind_inv (disk.create_dir_all parent_dir w) _ w' tt h in
        let (id, v1) = disk.new_uuid v in
        let staging : FilePath = staging_of disk net formats parent_dir id in
        let (_, v2, e2, h2) = bind_inv (disk.create_dir_all staging v1) _ w' tt h1 in
        let (_, v3, e3, h3) =
          bind_inv (fill_staging disk net formats staging commit assets v2) _ w' tt h2 in
        let (id', v4) = disk.new_uuid v3 in
        let backup : FilePath = backup_of disk net formats parent_dir id' in
        let (a1, (a2, a3)) = beside parent_dir id id' p in
        let moved : contents w' directory ≡ contents v3 staging =
          swap_moves disk net formats contents moves directory staging backup a1 a2 a3 v4 w' h3
          ∙ uuid_keeps staging v3 in
        rw moved (fill_staging-IsValid disk net formats laws staging commit assets v2 v3 r e3)

    check_revision_sound :
        (commit : Text) (w w' : World)
        → check_revision disk net formats commit w ≡ ok tt w'
        → is_revision commit ≡ true
    check_revision_sound commit w w' h = elim (Bool-cases (is_revision commit)) [
      | inl b ↦ b
      | inr b ↦ absurd (err-ne-ok (rw b at h))
    ]

    parent_of_sound :
        (parent_dir : FilePath) (w w' : World)
        → parent_of disk net formats directory w ≡ ok parent_dir w'
        → disk.parent directory ≡ some parent_dir
    parent_of_sound parent_dir w w' h = elim (Option-cases (disk.parent directory)) [
      | inl n ↦ absurd (err-ne-ok (rw (n, parent_of) at h))
      | inr (p, e) ↦ e ∙ ap some (ok_value (rw (e, parent_of) at h))
    ]

    refresh-IsValid :
        (reference : Option Text) (w w' : World)
        → refresh disk net formats reference directory w ≡ ok tt w'
        → IsValid disk net formats (contents w' directory)
    unfolding refresh
    refresh-IsValid reference w w' h =
        let (commit, v1, e1, h1) =
          bind_inv (http_json net formats formats.commit_of _ w) _ w' tt h in
        let (_, v2, e2, h2) = bind_inv (check_revision disk net formats commit v1) _ w' tt h1 in
        let (assets, v3, e3, h3) =
          bind_inv (http_json net formats formats.assets_of _ v2) _ w' tt h2 in
        let (parent_dir, v4, e4, h4) =
          bind_inv (parent_of disk net formats directory v3) _ w' tt h3 in
        install_in-IsValid parent_dir commit assets v4 w' (parent_of_sound parent_dir v3 v4 e4)
          (check_revision_sound commit v1 v2 e2) h4

    ensure_personalized_ddi_fills :
        (env : Environment) (a a' : App World)
        → ensure_personalized_ddi disk net formats env directory a ≡ ok tt a'
        → IsValid disk net formats (contents a'.world directory)
    unfolding ensure_personalized_ddi
    ensure_personalized_ddi_fills env a a' h =
        elim (Bool-cases (valid_cached_ddi disk net formats directory expected_files a.world).0) [
          | inl b ↦
              let valid = (valid_cached_ddi_iff disk net formats base directory a.world).0 b in
              let same = valid_cached_ddi_complete disk net formats base directory a.world valid in
              let k : ◌≡◌ {A = Result (App World) (Unit {0})}
                  (ok tt (record a {
                    world = (valid_cached_ddi disk net formats directory expected_files a.world).1;
                  }))
                  (ok tt a') =
                rw (ensure_personalized_ddi, b) at h in
              let there : a.world ≡ a'.world =
                sym (ap (λ (x : Bool × World). x.1) same)
                ∙ ap (λ (x : App World). x.world) (ok-injective k) in
              rw (← there) valid
          | inr b ↦ refresh-IsValid (env.var (text "IPHONE_MIRROR_DDI_GITHUB_REF")) _ a'.world (
              lift_ok
                (refresh disk net formats (env.var (text "IPHONE_MIRROR_DDI_GITHUB_REF")) directory)
                _ a' tt (rw (ensure_personalized_ddi, b) at h))
        ]

    -- If `ensure_personalized_ddi` succeeds, the cache directory holds a complete developer image
    -- and its check accepts it and changes nothing. Of the file system this assumes that a read
    -- gives what is there, fails where nothing is, and changes nothing; that writes and renames that
    -- succeed do what they say, and a rename that fails changes no directory; that nothing else
    -- touches a directory apart from its own; that the new directories are apart from the old one and
    -- from each other; and that a listing is read back as it was written. No write, rename or
    -- request is assumed to succeed.
    pub ensure_personalized_ddi-IsValid :
        (env : Environment) (a a' : App World)
        → ensure_personalized_ddi disk net formats env directory a ≡ ok tt a'
        → IsValid disk net formats (contents a'.world directory)
          × (valid_cached_ddi disk net formats directory expected_files a'.world ≡ (true, a'.world))
    ensure_personalized_ddi-IsValid env a a' h =
        let valid = ensure_personalized_ddi_fills env a a' h in
        (valid, valid_cached_ddi_complete disk net formats base directory a'.world valid)
