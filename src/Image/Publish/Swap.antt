-- ===== src/Image/Publish/Swap.antt =====
-- How a new developer image takes the place of the old one: `swap` of Image/Publish.antt.
use i_usb_bridge.Prelude.{
  ◌≡◌, ◌⊎◌, refl, sym, ap, ◌∙◌, inl, inr, Bool, true, false, Option, if◌then◌else◌,
}
use i_usb_bridge.Prelude.Bytes.{Bytes}
use i_usb_bridge.Prelude.Text.{Text}
use i_usb_bridge.Prelude.Action.{
  Result, ok, err, state_of, Result-cases, err-ne-ok, ok-injective, ok_value, bind_inv, bind_err,
}
use i_usb_bridge.Session.Args.{FilePath}
use i_usb_bridge.Image.Disk.{Disk, Net, Formats}
use i_usb_bridge.Image.Publish.Laws.{Moves}
use i_usb_bridge.Image.Publish.{put_in_place, set_aside, swap}

module _ {World : Type 0} (disk : Disk World) (net : Net World) (formats : Formats)
    (contents : World → FilePath → Text → Option Bytes) (moves : Moves disk contents)
    (directory staging backup : FilePath) (apart_staging : moves.apart directory staging ≡ true)
    (apart_backup : moves.apart directory backup ≡ true)
    (apart_both : moves.apart staging backup ≡ true) where
  open moves use {apart_sym, moved, rename_keeps, rename_failed, remove_keeps, exists_keeps}

  -- What is where before the new directory is moved, and where the old one is.
  abbrev Aside : World → World → Bool → Type 0
  Aside w w' true =
      (contents w' staging ≡ contents w staging) × (contents w' backup ≡ contents w directory)
  Aside w w' false =
      (contents w' staging ≡ contents w staging) × (contents w' directory ≡ contents w directory)

  exists_after :
      (d : FilePath) (r : Result World Bool) (w : World)
      → disk.try_exists directory w ≡ r
      → contents (state_of r) d ≡ contents w d
  exists_after d r w e =
      ap (λ (x : Result World Bool). contents (state_of x) d) (sym e) ∙ exists_keeps d directory w

  set_aside-Aside :
      (w w' : World) (had : Bool)
      → set_aside disk net formats directory backup w ≡ ok had w'
      → Aside w w' had
  unfolding set_aside
  set_aside-Aside w w' had h = asked (disk.try_exists directory w) refl
    where
      asked : (r : Result World Bool) → disk.try_exists directory w ≡ r → Aside w w' had
      asked (err e v) f = absurd (err-ne-ok (rw (f, set_aside) at h))
      asked (ok false v) f =
          let k : ◌≡◌ {A = Result World Bool} (ok false v) (ok had w') = rw (f, set_aside) at h in
          rw (← ok_value k, ← ok-injective k)
            (exists_after staging _ w f, exists_after directory _ w f)
      asked (ok true v) f = elim (Result-cases (disk.rename directory backup v)) [
        | inr (e, u, g) ↦ absurd (err-ne-ok (rw (f, g, set_aside) at h))
        | inl (_, u, g) ↦
            let k : ◌≡◌ {A = Result World Bool} (ok true u) (ok had w') =
              rw (f, g, set_aside) at h in
            rw (← ok_value k, ← ok-injective k)
              (
                rename_keeps staging directory backup v u g
                      (apart_sym directory staging apart_staging) apart_both
                    ∙ exists_after staging _ w f,
                moved directory backup v u g ∙ exists_after directory _ w f,
              )
      ]

  put_in_place_moves :
      (had : Bool) (w w' : World)
      → put_in_place disk net formats directory staging backup had w ≡ ok tt w'
      → contents w' directory ≡ contents w staging
  unfolding put_in_place
  put_in_place_moves had w w' h = elim (Result-cases (disk.rename staging directory w)) [
    | inr (e, u, g) ↦ absurd (err-ne-ok (rw (g, put_in_place) at h))
    | inl (_, u, g) ↦ removed had u g (ok-injective (rw (g, put_in_place) at h))
  ]
    where
      removed :
          (b : Bool) (u : World)
          → disk.rename staging directory w ≡ ok tt u
          → (if b then state_of (disk.remove_dir_all backup u) else u) ≡ w'
          → contents w' directory ≡ contents w staging
      removed true u g k =
          rw (← k) (remove_keeps directory backup u apart_backup ∙ moved staging directory w u g)
      removed false u g k = rw (← k) (moved staging directory w u g)

  -- After a swap that succeeds the directory holds exactly what was prepared beside it.
  pub swap_moves :
      (w w' : World)
      → swap disk net formats directory staging backup w ≡ ok tt w'
      → contents w' directory ≡ contents w staging
  unfolding swap
  swap_moves w w' h =
      let (had, v, e, k) = bind_inv (set_aside disk net formats directory backup w) _ w' tt h in
      put_in_place_moves had v w' k ∙ kept had v (set_aside-Aside w v had e)
    where
      kept : (had : Bool) (v : World) → Aside w v had → contents v staging ≡ contents w staging
      kept true v (p, q) = p
      kept false v (p, q) = p

  -- The old files are still in the directory, or else in the backup.
  abbrev Kept : World → World → Type 0
  Kept w w' =
      (contents w' directory ≡ contents w directory) ⊎ (contents w' backup ≡ contents w directory)

  put_in_place_keeps :
      (had : Bool) (w0 w w' : World) (e : Text)
      → Aside w0 w had
      → put_in_place disk net formats directory staging backup had w ≡ err e w'
      → Kept w0 w'
  unfolding put_in_place
  put_in_place_keeps had w0 w w' e aside h = elim (Result-cases (disk.rename staging directory w)) [
    | inl (_, u, g) ↦ absurd (cc (rw (g, put_in_place) at h))
    | inr (x, u, g) ↦ undone had aside u x g (cc (rw (g, put_in_place) at h))
  ]
    where
      cleaned :
          (d : FilePath) (v : World)
          → moves.apart d staging ≡ true
          → contents (state_of (disk.remove_dir_all staging v)) d ≡ contents v d
      cleaned d v a = remove_keeps d staging v a

      undone :
          (b : Bool)
          → Aside w0 w b
          → (u : World) (x : Text) → disk.rename staging directory w ≡ err x u
          → state_of (
              disk.remove_dir_all staging
                (if b then state_of (disk.rename backup directory u) else u))
            ≡ w'
          → Kept w0 w'
      undone false (p, q) u x g k = inl (
          rw (← k) (
            cleaned directory u apart_staging
            ∙ (rename_failed directory staging directory x w u g ∙ q)))
      undone true (p, q) u x g k = elim (Result-cases (disk.rename backup directory u)) [
        | inl (_, v, f) ↦ inl (
            rw (← k, f)
              (cleaned directory v apart_staging
                ∙ (moved backup directory u v f
                    ∙ (rename_failed backup staging directory x w u g ∙ q))))
        | inr (y, v, f) ↦ inr (
            rw (← k, f)
              (cleaned backup v (apart_sym staging backup apart_both)
                ∙ (rename_failed backup backup directory y u v f
                    ∙ (rename_failed backup staging directory x w u g ∙ q))))
      ]

  set_aside_keeps :
      (w w' : World) (e : Text)
      → set_aside disk net formats directory backup w ≡ err e w'
      → contents w' directory ≡ contents w directory
  unfolding set_aside
  set_aside_keeps w w' e h = asked (disk.try_exists directory w) refl
    where
      asked :
          (r : Result World Bool)
          → disk.try_exists directory w ≡ r
          → contents w' directory ≡ contents w directory
      asked (err x v) f =
          let same : v ≡ w' = cc (rw (f, set_aside) at h) in
          rw (← same) (exists_after directory _ w f)
      asked (ok false v) f = absurd (cc (rw (f, set_aside) at h))
      asked (ok true v) f = elim (Result-cases (disk.rename directory backup v)) [
        | inl (_, u, g) ↦ absurd (cc (rw (f, g, set_aside) at h))
        | inr (x, u, g) ↦
            let same : u ≡ w' = cc (rw (f, g, set_aside) at h) in
            rw (← same)
              (rename_failed directory directory backup x v u g ∙ exists_after directory _ w f)
      ]

  -- A swap that fails loses nothing: the old files are still in the directory, or else in the backup.
  -- This assumes that the three directories are apart; that a rename that fails changes no directory,
  -- and one that succeeds moves its directory and touches none apart from both names; that removing a
  -- directory touches none apart from it; and that asking whether one exists touches none.
  pub swap_keeps :
      (w w' : World) (e : Text)
      → swap disk net formats directory staging backup w ≡ err e w'
      → (contents w' directory ≡ contents w directory) ⊎ (contents w' backup ≡ contents w directory)
  unfolding swap
  swap_keeps w w' e h = elim (bind_err (set_aside disk net formats directory backup w) _ w' e h) [
    | inl f ↦ inl (set_aside_keeps w w' e f)
    | inr (had, v, f, k) ↦ put_in_place_keeps had w v w' e (set_aside-Aside w v had f) k
  ]
