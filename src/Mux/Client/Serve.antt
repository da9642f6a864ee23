-- ===== src/Mux/Client/Serve.antt =====
-- The loop of `handle_client` of src/raw_usbmux.rs: what its socket gives, and each `write_frame(..)?`.
use i_usb_bridge.Prelude.{ℕ, Bool, Option, List, [], ◌∷◌, ◌++◌, if◌then◌else◌}
use i_usb_bridge.Prelude.Bytes.{Bytes}
use i_usb_bridge.Prelude.Text.{Text}
use i_usb_bridge.Mux.Plist.{Dictionary, result}
use i_usb_bridge.Mux.State.{WritePacket}
use i_usb_bridge.Mux.Open.{Reader, open_connection, opened, refused, send_failed}
use i_usb_bridge.Mux.Bridge.{Exit, fails, Turn, Bridge, bridge_stream}
use i_usb_bridge.Mux.Client.{Next, next_request, hang_up, connect, handle_request}

-- What a round of the loop meets: the stop flag, or else what `read_plist_frame` gives.
pub data Incoming : Type 0 where
  stop_requested : Incoming
  read_timed_out : Incoming
  -- The end of the stream, a reset or an abort.
  disconnected : Incoming
  -- Any other error.
  read_failed : Incoming
  request : ℕ → Dictionary → Incoming

-- How the handler stands: it waits for a request, has returned `Ok(())` or an error, or is about to
-- open a connection to a port, for the request with that tag (`serve_connect` goes on from there).
pub data Standing : Type 0 where
  waits : Standing
  returned : Standing
  failed : Standing
  connects : ℕ → ℕ → Standing

-- The replies written, with their tags.
abbrev pub Written : Type 0
Written = List (ℕ × Dictionary)

-- `writes written` says whether `write_frame` succeeds once those replies have been written.
module _ (writes : Written → Bool) where
  abbrev pub stands : ℕ → Next → Standing
  stands tag next_request = waits
  stands tag hang_up = returned
  stands tag (connect port) = connects tag port

  -- The replies to one request: an error of a write is returned at once.
  unfoldable pub write_replies : ℕ → List Dictionary → Next → Written → Standing × Written
  write_replies tag [] next written = (stands tag next, written)
  write_replies tag (reply ∷ later) next written =
      let rest = write_replies tag later next (written ++ ((tag, reply) ∷ [])) in
      if writes written then rest else (failed, written)

  module _ (read_file : Text → Option Bytes) (serial : Text) where
    unfoldable pub serve_request : ℕ → Dictionary → Written → Standing × Written
    unfolding write_replies
    serve_request tag req written =
        let (replies, next) = handle_request read_file serial req in
        write_replies tag replies next written

    -- The loop. After the list nothing has come yet.
    unfoldable pub client_loop : List Incoming → Written → Standing × Written
    unfolding serve_request
    client_loop [] written = (waits, written)
    client_loop (stop_requested ∷ later) written = (returned, written)
    client_loop (read_timed_out ∷ later) written = client_loop later written
    client_loop (disconnected ∷ later) written = (returned, written)
    client_loop (read_failed ∷ later) written = (failed, written)
    client_loop (request tag req ∷ later) written =
        let (standing, written') = serve_request tag req written in
        let rest = client_loop later written' in
        elim standing [
          | waits ↦ rest
          | returned ↦ (returned, written')
          | failed ↦ (failed, written')
          | connects tag' port ↦ (connects tag' port, written')
        ]

    -- `timeout_set`: does `set_read_timeout` succeed?
    unfoldable pub handle_client : Bool → List Incoming → Written → Standing × Written
    handle_client timeout_set inputs written =
        if timeout_set then client_loop inputs written else (failed, written)

  -- The rest of a `Connect`: a connection that does not open, or a reply that cannot be written, is an
  -- error; otherwise the handler ends as the bridge does.
  unfoldable pub serve_connect :
      {W : Type 0}
      → WritePacket W
      → ℕ
      → ℕ
      → List Bytes
      → Bool
      → List Turn
      → Reader W
      → Written
      → Exit × (Written × Bridge W)
  serve_connect {W = W} write_packet tag port received timeouts_set turns r written =
      let (opening, r') = open_connection write_packet r port received in
      let b : Bridge W = record { reader = r'; client = [] } in
      elim opening [
        | refused ↦ (fails, (written, b))
        | send_failed ↦ (fails, (written, b))
        | opened id ↦
            let (exit, b') = bridge_stream write_packet id timeouts_set turns b in
            if writes written
            then (exit, (written ++ ((tag, result 0) ∷ []), b'))
            else (fails, (written, b))
      ]
