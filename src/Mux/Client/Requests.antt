-- ===== src/Mux/Client/Requests.antt =====
-- The answers of `handle_client` of src/raw_usbmux.rs.
use mathlib.Core.Bool.{false≢true}
use Prim.Native.String.{String}
use i_usb_bridge.Prelude.{
  ℕ, ◌%◌, ◌<◌, ◌≡◌, inl, inr, refl, sym, Bool, true, false, ◌||◌, Option, List, [], ◌∷◌, arith,
  ◌==◌, if◌then◌else◌, Option-cases,
}
use i_usb_bridge.Prelude.Bytes.{Bytes, u16_mod}
use i_usb_bridge.Prelude.Int.{pos}
use i_usb_bridge.Prelude.Text.{Text, text, text_eq}
use i_usb_bridge.Mux.Plist.{Dictionary, string, integer, end, field, get, result, device_entry}
use i_usb_bridge.Mux.Client.{
  Next, next_request, hang_up, connect, rotate_right8, handle_request, handle_connect,
  handle_pair_record, string_field, integer_field, read_pair_record,
}

rotate_right8_twice : (port : ℕ) → port < u16_mod → rotate_right8 (rotate_right8 port) ≡ port
unfolding rotate_right8
rotate_right8_twice port h = omega arith

-- A `Connect` request, as a client of usbmuxd sends it: the port in network byte order.
abbrev pub connect_request : ℕ → ℕ → Dictionary
connect_request id port = field (text "MessageType") (string (text "Connect")) (
    field (text "DeviceID") (integer (pos id))
      (field (text "PortNumber") (integer (pos (rotate_right8 port))) end))

-- A client that asks for a port of device 1 in network byte order is connected to exactly that
-- port, and one that names another device is told `Result` 2 and hung up on.
pub handle_request-connect :
    (read_file : Text → Option Bytes) (serial : Text) (id port : ℕ)
    → port < u16_mod
    → handle_request read_file serial (connect_request id port)
      ≡ (if id == 1 then ([], connect port) else (result 2 ∷ [], hang_up))
unfolding handle_request string_field integer_field get
handle_request-connect read_file serial id port h =
    ground (arith, rotate_right8_twice port h, rotate_small)
  where
    rotate_small : rotate_right8 port % 65536 ≡ rotate_right8 port
    rotate_small = unfold rotate_right8 in omega arith

-- At least one reply, and the loop goes on.
pub record IsAnswered (answer : List Dictionary × Next) : Type 0 where
  pub goes_on : answer.1 ≡ next_request
  pub replies : (first : Dictionary) × (rest : List Dictionary) × (answer.0 ≡ first ∷ rest)

either :
    (b : Bool) (x y : List Dictionary × Next)
    → IsAnswered x
    → IsAnswered y
    → IsAnswered (if b then x else y)
either true x y h k = h
either false x y h k = k

one_reply : (d : Dictionary) → IsAnswered (d ∷ [], next_request)
one_reply d = record { goes_on = refl; replies = (d, [], refl) }

other :
    (b : Bool) (x : List Dictionary × Next)
    → b ≡ false
    → IsAnswered (if b then x else (result 1 ∷ [], next_request))
other true x h = absurd (false≢true (sym h))
other false x h = one_reply _

handle_pair_record-IsAnswered :
    (read_file : Text → Option Bytes) (serial : Text) (req : Dictionary)
    → IsAnswered (handle_pair_record read_file serial req)
handle_pair_record-IsAnswered read_file serial req =
    elim (Option-cases (
      read_pair_record read_file serial
        (string_field read_file serial (text "PairRecordID") serial req))) [
          | inl e ↦ rw (e, handle_pair_record) (one_reply _)
          | inr (b, e) ↦ rw (e, handle_pair_record) (one_reply _)
        ]

-- A request that is not `Connect` has at least one reply, and after it the next request.
pub handle_request-IsAnswered :
    (read_file : Text → Option Bytes) (serial : Text) (req : Dictionary)
    → text_eq (string_field read_file serial (text "MessageType") (text "") req) (text "Connect")
      ≡ false
    → IsAnswered (handle_request read_file serial req)
unfolding handle_request
handle_request-IsAnswered read_file serial req h = either (is "ReadBUID") _ _ (one_reply _) (
    either (is "ListDevices") _ _ (one_reply _) (
      either (is "Listen") _ _
        (record { goes_on = refl; replies = (result 0, device_entry serial 1 ∷ [], refl) })
        (either (is "ReadPairRecord") _ _ (handle_pair_record-IsAnswered read_file serial req) (
          either (is "SavePairRecord" || is "DeletePairRecord") _ _ (one_reply (result 0))
            (other (is "Connect") (handle_connect read_file serial req) h)))))
  where
    is : String → Bool
    is name = text_eq (string_field read_file serial (text "MessageType") (text "") req) (text name)
