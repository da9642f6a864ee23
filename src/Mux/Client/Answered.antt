-- ===== src/Mux/Client/Answered.antt =====
-- How the loop of `handle_client` of src/raw_usbmux.rs answers a row of requests.
use i_usb_bridge.Prelude.{ℕ, ◌≡◌, ◌⊎◌, Bool, true, false, Option, List, [], ◌∷◌, ◌++◌}
use i_usb_bridge.Prelude.Bytes.{Bytes}
use i_usb_bridge.Prelude.Text.{Text, text, text_eq}
use i_usb_bridge.Mux.Plist.{Dictionary}
use i_usb_bridge.Mux.Client.{handle_request, string_field}
use i_usb_bridge.Mux.Client.Serve.{
  Incoming, request, Standing, waits, returned, failed, connects, Written, client_loop,
}

abbrev tagged : ℕ → List Dictionary → Written
tagged tag [] = []
tagged tag (reply ∷ later) = (tag, reply) ∷ tagged tag later

-- Requests come in, one after the other.
abbrev pub incoming : List (ℕ × Dictionary) → List Incoming
incoming [] = []
incoming ((tag, req) ∷ later) = request tag req ∷ incoming later

module _ (writes : Written → Bool) where
  -- The replies could be written, one after the other.
  abbrev pub AllSent : ℕ → List Dictionary → Written → Type 0
  AllSent tag [] written = Unit
  AllSent tag (reply ∷ later) written =
      (writes written ≡ true) × AllSent tag later (written ++ ((tag, reply) ∷ []))

  -- Some of the replies were written; the write of the next one failed, and was the last.
  pub record IsCutOff (tag : ℕ) (replies : List Dictionary) (written : Written)
      (out : Standing × Written) : Type 0 where
    pub before : List Dictionary
    pub missed : Dictionary
    pub unsent : List Dictionary
    pub split : replies ≡ before ++ missed ∷ unsent
    pub sent : AllSent tag before written
    pub ended : out ≡ (failed, written ++ tagged tag before)
    pub refused : writes (written ++ tagged tag before) ≡ false

  module _ (read_file : Text → Option Bytes) (serial : Text) where
    -- None of the requests is `Connect`.
    abbrev pub NoneConnects : List (ℕ × Dictionary) → Type 0
    NoneConnects [] = Unit
    NoneConnects ((tag, req) ∷ later) =
        (text_eq (string_field read_file serial (text "MessageType") (text "") req) (text "Connect")
          ≡ false)
        × NoneConnects later

    abbrev replies_to : Dictionary → List Dictionary
    replies_to req = (handle_request read_file serial req).0

    -- Each request is answered by its replies, of which there is one at least, with its own tag and
    -- in its turn, and all of them could be written; then the handler waits for more. Or else a write
    -- failed.
    abbrev pub Answered : List (ℕ × Dictionary) → Written → Standing × Written → Type 0
    Answered [] written out = out ≡ (waits, written)
    Answered ((tag, req) ∷ later) written out =
        ((first : Dictionary) × (more : List Dictionary) × (replies_to req ≡ first ∷ more)
          × AllSent tag (first ∷ more) written
          × Answered later (written ++ tagged tag (first ∷ more)) out)
        ⊎ IsCutOff tag (replies_to req) written out

    -- The loop after a request is served.
    abbrev resume : List (ℕ × Dictionary) → Standing × Written → Standing × Written
    resume later (standing, written) = elim standing [
      | waits ↦ client_loop writes read_file serial (incoming later) written
      | returned ↦ (returned, written)
      | failed ↦ (failed, written)
      | connects tag port ↦ (connects tag port, written)
    ]
