-- ===== src/Image/Publish/Keeps.antt =====
-- A download of src/main.rs touches no file of the disk.
use i_usb_bridge.Prelude.{
  ℕ, zero, suc, ◌+◌, ◌-◌, ◌≡◌, refl, ap, ◌∙◌, inl, inr, Bool, true, false, ◌&&◌, some, [], ◌++◌,
  ltb, ◌==◌, if◌then◌else◌, length, Bool-cases,
}
use i_usb_bridge.Prelude.Bytes.{Bytes}
use i_usb_bridge.Prelude.Text.{Text, text_eq}
use i_usb_bridge.Prelude.Action.{
  ok, err, TimedResult, in_time, elapsed, state_of, timed_state_of, Result-cases,
}
use i_usb_bridge.Session.Args.{FilePath}
use i_usb_bridge.Image.Disk.{GithubAsset, Disk, Net, Formats, Response}
use i_usb_bridge.Image.Download.{
  request_chunk, fetch_chunk, blob_url, chunk_end, download_loop, check_blob, download_github_blob,
  milliseconds, git_blob_sha1,
}
use i_usb_bridge.Image.Publish.Laws.{Laws}

module _ {World : Type 0} (disk : Disk World) (net : Net World) (formats : Formats)
    (laws : Laws disk net formats) (d : FilePath) where
  open laws use {base, written, write_keeps, get_keeps, pause_keeps, metadata_back}
  open base use {contents, reads, fails}

  -- A download from the network touches no file.
  request_chunk_state :
      (url : Text) (start end_at : ℕ) (w : World)
      → state_of (request_chunk net formats url start end_at w)
        ≡ timed_state_of (net.get url (some (start, end_at)) w)
  unfolding request_chunk
  request_chunk_state url start end_at w = answered (net.get url (some (start, end_at)) w) refl
    where
      answered :
          (r : TimedResult World Response)
          → net.get url (some (start, end_at)) w ≡ r
          → state_of (request_chunk net formats url start end_at w)
            ≡ timed_state_of (net.get url (some (start, end_at)) w)
      answered (elapsed v) e = rw (e, request_chunk)
      answered (in_time (err x v)) e = rw (e, request_chunk)
      answered (in_time (ok response v)) e =
          elim (Bool-cases
            ((response.status == 206) && (length response.body == (end_at + 1 - start)))) [
              | inl b ↦ rw (e, request_chunk, b)
              | inr b ↦ rw (e, request_chunk, b)
            ]

  request_chunk_keeps :
      (url : Text) (start end_at : ℕ) (w : World)
      → contents (state_of (request_chunk net formats url start end_at w)) d ≡ contents w d
  request_chunk_keeps url start end_at w =
      ap (λ v. contents v d) (request_chunk_state url start end_at w)
      ∙ get_keeps d url (some (start, end_at)) w

  fetch_chunk_keeps :
      (left attempt : ℕ) (last url : Text) (start end_at : ℕ) (w : World)
      → contents (state_of (fetch_chunk net formats left attempt last url start end_at w)) d
        ≡ contents w d
  unfolding fetch_chunk
  fetch_chunk_keeps zero attempt last url start end_at w = refl
  fetch_chunk_keeps (suc left) attempt last url start end_at w =
      let kept = request_chunk_keeps url start end_at w in
      elim (Result-cases (request_chunk net formats url start end_at w)) [
        | inl (chunk, v, e) ↦ rw (fetch_chunk, e) (rw e at kept)
        | inr (x, v, e) ↦
            rw (fetch_chunk, e)
              (fetch_chunk_keeps left (attempt + 1) x url start end_at
                  (if ltb attempt 3 then net.pause (milliseconds attempt) v else v)
                ∙ (paused (ltb attempt 3) attempt v ∙ rw e at kept))
      ]
    where
      paused :
          (b : Bool) (n : ℕ) (v : World)
          → contents (if b then net.pause (milliseconds n) v else v) d ≡ contents v d
      paused true n v = pause_keeps d (milliseconds n) v
      paused false n v = refl

  download_loop_keeps :
      (fuel : ℕ) (asset : GithubAsset) (so_far : Bytes) (w : World)
      → contents (state_of (download_loop net formats fuel asset so_far w)) d ≡ contents w d
  unfolding download_loop
  download_loop_keeps zero asset so_far w = refl
  download_loop_keeps (suc fuel) asset so_far w =
      let end_at : ℕ = chunk_end net formats asset.size (length so_far) in
      let kept = fetch_chunk_keeps 3 1 [] (blob_url net formats asset) (length so_far) end_at w in
      elim (Bool-cases (ltb (length so_far) asset.size)) [
        | inr b ↦ rw (download_loop, b)
        | inl b ↦
            elim (Result-cases (
              fetch_chunk net formats 3 1 [] (blob_url net formats asset) (length so_far) end_at
                w)) [
                  | inl (chunk, v, e) ↦
                      rw (download_loop, b, e)
                        (download_loop_keeps fuel asset (so_far ++ chunk) v ∙ rw e at kept)
                  | inr (x, v, e) ↦ rw (download_loop, b, e) (rw e at kept)
                ]
      ]

  check_blob_state :
      (asset : GithubAsset) (content : Bytes) (w : World)
      → state_of (check_blob net formats asset content w) ≡ w
  unfolding check_blob
  check_blob_state asset content w = elim (Bool-cases (length content == asset.size)) [
    | inr b ↦ rw (check_blob, b)
    | inl b ↦ elim (Bool-cases (text_eq (git_blob_sha1 net formats content) asset.sha)) [
      | inr c ↦ rw (check_blob, b, c)
      | inl c ↦ rw (check_blob, b, c)
    ]
  ]

  pub download_github_blob_keeps :
      (asset : GithubAsset) (w : World)
      → contents (state_of (download_github_blob net formats asset w)) d ≡ contents w d
  unfolding download_github_blob
  download_github_blob_keeps asset w =
      let kept = download_loop_keeps asset.size asset [] w in
      elim (Result-cases (download_loop net formats asset.size asset [] w)) [
        | inr (x, v, e) ↦ rw (download_github_blob, e) (rw e at kept)
        | inl (content, v, e) ↦
            rw (download_github_blob, e)
              (ap (λ u. contents u d) (check_blob_state asset content v) ∙ rw e at kept)
      ]
