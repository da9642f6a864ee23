-- ===== src/Image/Download.antt =====
-- `git_blob_sha1`, `http_json` and `download_github_blob` of src/main.rs.
pub mod Chunks
use i_usb_bridge.Prelude.{
  ℕ, zero, suc, ◌+◌, ◌-◌, ◌*◌, Bool, true, false, not, ◌&&◌, Option, none, some, List, [], ◌∷◌,
  ◌++◌, ltb, ◌==◌, if◌then◌else◌, length, min,
}
use i_usb_bridge.Prelude.Bytes.{Bytes}
use i_usb_bridge.Prelude.Text.{Text, text, text_eq}
use i_usb_bridge.Prelude.Action.{Result, ok, err, TimedResult, in_time, elapsed, Action, within}
use i_usb_bridge.Image.Disk.{GithubAsset, Net, Formats, Response}

abbrev pub chunk_size : ℕ
chunk_size = 1024 * 1024

abbrev pub ddi_repository : Text
ddi_repository = text "doronz88/DeveloperDiskImage"

-- The sleep after a failed attempt, of `attempt` seconds.
abbrev pub milliseconds : ℕ → ℕ
milliseconds attempt = attempt * 1000

module _ {World : Type 0} (net : Net World) (formats : Formats) where
  open net use {get, pause}
  open formats use {show, sha1_hex}

  unfoldable pub git_blob_sha1 : Bytes → Text
  git_blob_sha1 content = sha1_hex (text "blob " ++ (show (length content) ++ (0 ∷ content)))

  -- The body of a page that answers 200, read by `parse`.
  unfoldable pub http_json : {A : Type 0} → (Bytes → Option A) → Text → Action World A
  http_json parse url w =
      elim (within (text "GitHub request timed out for " ++ url) (get url none) w) [
        | err e w' ↦ err e w'
        | ok response w' ↦
            if not (response.status == 200)
            then err
                (text "GitHub returned HTTP " ++ (show response.status ++ (text " for " ++ url))) w'
            else elim (parse response.body) [
              | none ↦ err (text "invalid JSON") w'
              | some a ↦ ok a w'
            ]
      ]

  abbrev wrong_answer : Response → ℕ → Text
  wrong_answer response expected =
      text "HTTP "
      ++ (show response.status
          ++ (text " returned "
              ++ (show (length response.body) ++ (text " bytes, expected " ++ show expected))))

  -- One request for a range: its bytes, or what went wrong.
  unfoldable pub request_chunk : Text → ℕ → ℕ → Action World Bytes
  request_chunk url start end_at w = elim (get url (some (start, end_at)) w) [
    | elapsed w' ↦ err (text "request timed out") w'
    | in_time r ↦ elim r [
      | err e w' ↦ err e w'
      | ok response w' ↦
          if (response.status == 206) && (length response.body == (end_at + 1 - start))
          then ok response.body w'
          else err (wrong_answer response (end_at + 1 - start)) w'
    ]
  ]

  -- The attempts from a number on, with `left` of them to make.
  unfoldable pub fetch_chunk : ℕ → ℕ → Text → Text → ℕ → ℕ → Action World Bytes
  unfolding request_chunk
  fetch_chunk zero attempt last_error url start end_at w = err last_error w
  fetch_chunk (suc left) attempt last_error url start end_at w =
      elim (request_chunk url start end_at w) [
        | ok chunk w' ↦ ok chunk w'
        | err e w' ↦
            fetch_chunk left (attempt + 1) e url start end_at
              (if ltb attempt 3 then pause (milliseconds attempt) w' else w')
      ]

  abbrev pub blob_url : GithubAsset → Text
  blob_url asset =
      text "https://api.github.com/repos/" ++ (ddi_repository ++ (text "/git/blobs/" ++ asset.sha))

  abbrev pub chunk_end : ℕ → ℕ → ℕ
  chunk_end size start = min (start + chunk_size - 1) (size - 1)

  -- The loop over the chunks. Each adds a byte at least, so the size is enough fuel.
  unfoldable pub download_loop : ℕ → GithubAsset → Bytes → Action World Bytes
  unfolding fetch_chunk
  download_loop zero asset content w = ok content w
  download_loop (suc fuel) asset content w =
      let start : ℕ = length content in
      let end_at : ℕ = chunk_end asset.size start in
      elim (ltb start asset.size) [
        | false ↦ ok content w
        | true ↦ elim (fetch_chunk 3 1 [] (blob_url asset) start end_at w) [
          | ok chunk w' ↦ download_loop fuel asset (content ++ chunk) w'
          | err e w' ↦
              err
                (text "DDI chunk download failed for "
                  ++ (asset.name
                      ++ (text " at bytes "
                          ++ (show start ++ (text "-" ++ (show end_at ++ (text ": " ++ e)))))))
                w'
        ]
      ]

  -- The checks behind the loop.
  unfoldable pub check_blob : GithubAsset → Bytes → Action World Bytes
  unfolding git_blob_sha1
  check_blob asset content w =
      if not (length content == asset.size)
      then err
          (text "DDI download size mismatch for "
            ++ (asset.name
                ++ (text ": expected "
                    ++ (show asset.size ++ (text ", got " ++ show (length content))))))
          w
      else if not (text_eq (git_blob_sha1 content) asset.sha)
      then err
          (text "DDI integrity validation failed for "
            ++ (asset.name
                ++ (text ": expected " ++ (asset.sha ++ (text ", got " ++ git_blob_sha1 content)))))
          w
      else ok content w

  unfoldable pub download_github_blob : GithubAsset → Action World Bytes
  unfolding download_loop check_blob
  download_github_blob asset w = elim (download_loop asset.size asset [] w) [
    | err e w' ↦ err e w'
    | ok content w' ↦ check_blob asset content w'
  ]
