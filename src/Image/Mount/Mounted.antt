-- ===== src/Image/Mount/Mounted.antt =====
-- What a call of `mount_local_ddi` of src/main.rs that succeeds has done.
use i_usb_bridge.Prelude.{ℕ, ◌≡◌, refl, inl, inr, Bool, true, false, List, any, Bool-cases, ◌⊎◌}
use i_usb_bridge.Prelude.Bytes.{Bytes}
use i_usb_bridge.Prelude.Text.{Text, text}
use i_usb_bridge.Prelude.Action.{ok, err-ne-ok, ok-injective, bind_inv}
use i_usb_bridge.Session.Args.{FilePath}
use i_usb_bridge.Image.Disk.{Disk}
use i_usb_bridge.Image.Mount.{
  Entry, Mounter, is_personalized_ddi_entry, trust_name, mount_unless_listed, require_dir,
  read_trust_cache, require_developer_mode, require_chip_id, open_mounter, mount_files,
  mount_local_ddi,
}

module _ {World : Type 0} (disk : Disk World) (mounter : Mounter World)
    (display : FilePath → Text) where
  -- The device answered that Developer Mode is on.
  abbrev pub DeveloperMode : Type 0
  DeveloperMode = (v v' : World) × (mounter.query_developer_mode_status v ≡ ok true v')

  -- The device listed a personalized image, and no new one was asked for.
  abbrev pub Listed : Bool → World → Type 0
  Listed force_remount w' =
      (mounted : List Entry) × (v : World) × (mounter.copy_devices v ≡ ok mounted w')
      × (any is_personalized_ddi_entry mounted ≡ true)
      × (force_remount ≡ false)

  -- An image was mounted, as the last call.
  abbrev pub Mounted : Bytes → Bytes → Bytes → World → Type 0
  Mounted image trust_cache manifest w' =
      (chip : ℕ) × (v : World) × (mounter.mount_personalized image trust_cache manifest chip v
        ≡ ok tt w')

  -- The three files of the directory, read one after the other.
  abbrev pub Read : FilePath → World → Bytes → Bytes → Bytes → Type 0
  Read directory w image trust_cache manifest =
      (v1 v2 v3 : World) × (disk.read_file directory (text "Image.dmg") w ≡ ok image v1)
      × (disk.read_file directory (text "BuildManifest.plist") v1 ≡ ok manifest v2)
      × (disk.read_file directory (trust_name disk mounter display directory v2) v2
          ≡ ok trust_cache v3)

  require_dir_state :
      (directory : FilePath) (w v : World)
      → require_dir disk mounter display directory w ≡ ok tt v
      → w ≡ v
  require_dir_state directory w v h = elim (Bool-cases (disk.is_dir directory w)) [
    | inl b ↦ ok-injective (rw (b, require_dir) at h)
    | inr b ↦ absurd (err-ne-ok (rw (b, require_dir) at h))
  ]

  developer_mode_on :
      (b : Bool) (v v' : World)
      → require_developer_mode disk mounter display b v ≡ ok tt v'
      → b ≡ true
  developer_mode_on true v v' h = refl
  developer_mode_on false v v' h = absurd (err-ne-ok h)

  mount_unless_listed_cases :
      (force_remount : Bool) (mounted : List Entry) (image trust_cache manifest : Bytes) (chip : ℕ)
      (u w w' : World)
      → mounter.copy_devices u ≡ ok mounted w
      → mount_unless_listed disk mounter display force_remount mounted image trust_cache manifest
          chip w
        ≡ ok tt w'
      → Listed force_remount w' ⊎ Mounted image trust_cache manifest w'
  unfolding mount_unless_listed
  mount_unless_listed_cases force_remount mounted image trust_cache manifest chip u w w' e h =
      elim (Bool-cases (any is_personalized_ddi_entry mounted)) [
        | inr n ↦ inr (chip, w, rw (n, mount_unless_listed) at h)
        | inl l ↦ elim (Bool-cases force_remount) [
          | inl f ↦ inr (chip, _, rw (l, f, mount_unless_listed) at h)
          | inr f ↦
              let last : w ≡ w' = ok-injective (rw (l, f, mount_unless_listed) at h) in
              inl (mounted, u, rw last at e, l, f)
        ]
      ]

  mount_files_cases :
      (force_remount : Bool) (image trust_cache manifest : Bytes) (w w' : World)
      → mount_files disk mounter display force_remount image trust_cache manifest w ≡ ok tt w'
      → DeveloperMode × (Listed force_remount w' ⊎ Mounted image trust_cache manifest w')
  unfolding mount_files
  mount_files_cases force_remount image trust_cache manifest w w' h =
      let (b, v, e, h1) = bind_inv (mounter.query_developer_mode_status w) _ w' tt h in
      let (_, v1, e1, h2) = bind_inv (require_developer_mode disk mounter display b v) _ w' tt h1 in
      let (value, v2, e2, h3) = bind_inv (mounter.unique_chip_id v1) _ w' tt h2 in
      let (chip, v3, e3, h4) =
        bind_inv (require_chip_id disk mounter display value v2) _ w' tt h3 in
      let (mounted, v4, e4, h5) = bind_inv (mounter.copy_devices v3) _ w' tt h4 in
      (
        (w, v, rw (developer_mode_on b v v1 e1) at e),
        mount_unless_listed_cases force_remount mounted image trust_cache manifest chip v3 v4 w' e4
            h5,
      )

  -- A call that succeeds read the three files of the directory and found Developer Mode on; and it
  -- either left alone an image that the device lists, no new mount being asked for, or mounted the
  -- files it had read.
  pub mount_local_ddi_mounts :
      (directory : FilePath) (force_remount : Bool) (w w' : World)
      → mount_local_ddi disk mounter display directory force_remount w ≡ ok tt w'
      → (image : Bytes) × (trust_cache : Bytes) × (manifest : Bytes) × (Read directory w image
            trust_cache manifest
          × (DeveloperMode × (Listed force_remount w' ⊎ Mounted image trust_cache manifest w')))
  unfolding mount_local_ddi
  mount_local_ddi_mounts directory force_remount w w' h =
      let (_, v0, e0, h0) = bind_inv (require_dir disk mounter display directory w) _ w' tt h in
      let same : w ≡ v0 = require_dir_state directory w v0 e0 in
      let (image, v1, e1, h1) =
        bind_inv (disk.read_file directory (text "Image.dmg") v0) _ w' tt h0 in
      let (manifest, v2, e2, h2) =
        bind_inv (disk.read_file directory (text "BuildManifest.plist") v1) _ w' tt h1 in
      let (trust_cache, v3, e3, h3) =
        bind_inv (read_trust_cache disk mounter display directory v2) _ w' tt h2 in
      let (_, v4, e4, h4) = bind_inv (open_mounter disk mounter display v3) _ w' tt h3 in
      (
        image,
        trust_cache,
        manifest,
        (
          (v1, v2, v3, rw same e1, e2, e3),
          mount_files_cases force_remount image trust_cache manifest v4 w' h4,
        ),
      )
