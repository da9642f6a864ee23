-- ===== src/Image/Download/Chunks.antt =====
-- What a download of src/main.rs brings.
use i_usb_bridge.Prelude.{
  ℕ, zero, suc, ◌+◌, ◌-◌, ◌≤◌, ◌<◌, ◌≡◌, refl, sym, ap, ◌∙◌, some, [], ◌++◌, arith, ltb, ◌==◌,
  length, take, drop, inl, inr, Bool-cases, ==_iff, ==_refl, length-append, length-take,
  length-drop, take-add, take_all,
}
use i_usb_bridge.Prelude.Bytes.{Bytes}
use i_usb_bridge.Prelude.Text.{text_eq, text_eq→≡, text_eq_refl}
use i_usb_bridge.Prelude.Action.{ok, in_time, Result-cases, err-ne-ok, ok_value}
use i_usb_bridge.Image.Disk.{GithubAsset, Net, Formats}
use i_usb_bridge.Image.Download.{
  git_blob_sha1, request_chunk, fetch_chunk, blob_url, chunk_end, download_loop, check_blob,
  download_github_blob,
}

module _ {World : Type 0} (net : Net World) (formats : Formats) where
  check_blob_sound :
      (asset : GithubAsset) (content c : Bytes) (w w' : World)
      → check_blob net formats asset content w ≡ ok c w'
      → (length c ≡ asset.size) × (git_blob_sha1 net formats c ≡ asset.sha)
  unfolding check_blob
  check_blob_sound asset content c w w' h = elim (Bool-cases (length content == asset.size)) [
    | inr e ↦ absurd (err-ne-ok (rw (e, check_blob) at h))
    | inl e ↦ elim (Bool-cases (text_eq (git_blob_sha1 net formats content) asset.sha)) [
      | inr f ↦ absurd (err-ne-ok (rw (e, f, check_blob) at h))
      | inl f ↦
          let same : content ≡ c = ok_value (rw (e, f, check_blob) at h) in
          rw (← same) (
            (==_iff (length content) asset.size).0 e,
            text_eq→≡ (git_blob_sha1 net formats content) asset.sha f,
          )
    ]
  ]

  -- Whatever the server answers: a download that succeeds has the size and the Git hash that the
  -- listing gives for the asset.
  pub download_github_blob_integrity :
      (asset : GithubAsset) (c : Bytes) (w w' : World)
      → download_github_blob net formats asset w ≡ ok c w'
      → (length c ≡ asset.size) × (git_blob_sha1 net formats c ≡ asset.sha)
  unfolding download_github_blob
  download_github_blob_integrity asset c w w' h =
      elim (Result-cases (download_loop net formats asset.size asset [] w)) [
        | inr (e, v, f) ↦ absurd (err-ne-ok (rw (f, download_github_blob) at h))
        | inl (content, v, f) ↦
            check_blob_sound asset content c v w' (rw (f, download_github_blob) at h)
      ]

  -- A server that gives every range of the content it is asked for.
  module _ (asset : GithubAsset) (content : Bytes) where
    abbrev pub Serves : Type 0
    Serves =
        (start end_at : ℕ) (w : World)
        → start ≤ end_at
        → end_at < length content
        → (w' : World) × (net.get (blob_url net formats asset) (some (start, end_at)) w
            ≡ in_time (
                ok (record { status = 206; body = take (end_at + 1 - start) (drop start content) })
                  w'))

    module _ (serves : Serves) (sized : length content ≡ asset.size) where
      length-slice :
          (start end_at : ℕ)
          → start ≤ end_at
          → end_at < length content
          → length (take (end_at + 1 - start) (drop start content)) ≡ end_at + 1 - start
      length-slice start end_at h k =
          omega (
            arith,
            length-take (end_at + 1 - start) (drop start content),
            length-drop start content,
          )

      request_chunk_slice :
          (start end_at : ℕ) (w : World)
          → start ≤ end_at
          → end_at < length content
          → (w' : World) × (request_chunk net formats (blob_url net formats asset) start end_at w
              ≡ ok (take (end_at + 1 - start) (drop start content)) w')
      unfolding request_chunk
      request_chunk_slice start end_at w h k =
          let (w', e) = serves start end_at w h k in
          (w', rw (e, request_chunk, length-slice start end_at h k, ==_refl (end_at + 1 - start)))

      fetch_chunk_slice :
          (start end_at : ℕ) (w : World)
          → start ≤ end_at
          → end_at < length content
          → (w' : World) × (fetch_chunk net formats 3 1 []
                (blob_url net formats asset)
                start
                end_at
                w
              ≡ ok (take (end_at + 1 - start) (drop start content)) w')
      unfolding fetch_chunk
      fetch_chunk_slice start end_at w h k =
          let (w', e) = request_chunk_slice start end_at w h k in (w', rw (e, fetch_chunk))

      -- A beginning of the content with the slice behind it is a longer beginning.
      longer_beginning :
          (c : Bytes) (end_at : ℕ)
          → take (length c) content ≡ c
          → length c ≤ end_at
          → end_at < length content
          → let slice = take (end_at + 1 - length c) (drop (length c) content) in
            (length (c ++ slice) ≡ end_at + 1) × (take (end_at + 1) content ≡ c ++ slice)
      longer_beginning c end_at e h k =
          let slice : Bytes = take (end_at + 1 - length c) (drop (length c) content) in
          let whole : take (length c + (end_at + 1 - length c)) content
              ≡ take (end_at + 1) content =
            ap (λ n. take n content) (omega arith) in
          (
            omega (arith, length-append c slice, length-slice (length c) end_at h k),
            sym whole
                ∙ (sym (take-add (length c) (end_at + 1 - length c) content)
                    ∙ ap (λ l. l ++ slice) e),
          )

      -- From a beginning of the content the loop reaches its end.
      download_loop_whole :
          (fuel : ℕ) (c : Bytes) (w : World)
          → take (length c) content ≡ c
          → length c ≤ length content
          → length content ≤ length c + fuel
          → (w' : World) × (download_loop net formats fuel asset c w ≡ ok content w')
      unfolding download_loop
      download_loop_whole zero c w p h k =
          (w, ap (λ l. ok l w) (sym p ∙ take_all (length c) content (omega arith)))
      download_loop_whole (suc fuel) c w p h k = elim (Bool-cases (ltb (length c) asset.size)) [
        | inr e ↦ (
          w,
          rw (download_loop, e)
              (ap (λ l. ok l w) (sym p ∙ take_all (length c) content (ground (arith, sized)))),
        )
        | inl e ↦
            let end_at : ℕ = chunk_end net formats asset.size (length c) in
            let starts : length c ≤ end_at = ground (arith, sized) in
            let ends : end_at < length content = ground (arith, sized) in
            let (v, f) = fetch_chunk_slice (length c) end_at w starts ends in
            let (n, longer) = longer_beginning c end_at p starts ends in
            let (w', g) =
              download_loop_whole fuel _ v (ap (λ m. take m content) n ∙ longer)
                (omega (arith, n, ends)) (omega (arith, n, starts)) in
            (w', rw (download_loop, e, f) g)
      ]

      -- If the server gives every range it is asked for, and the content it serves has the size and
      -- the Git hash of the listing, the download returns exactly that content.
      pub download_github_blob_whole :
          (w : World)
          → git_blob_sha1 net formats content ≡ asset.sha
          → (w' : World) × (download_github_blob net formats asset w ≡ ok content w')
      unfolding download_github_blob check_blob
      download_github_blob_whole w hashed =
          let (w', e) =
            download_loop_whole asset.size [] w refl (omega arith) (omega (arith, sized)) in
          (
            w',
            rw (
              download_github_blob,
              e,
              check_blob,
              sized,
              ==_refl asset.size,
              hashed,
              text_eq_refl asset.sha,
            ),
          )
