-- ===== src/Mux/Client.antt =====
-- `handle_client` and `read_pair_record` of src/raw_usbmux.rs: the requests of a local client. The
-- child Serve has the loop, and the writing of the replies.
pub mod Requests
pub mod Serve
pub mod Answered
use i_usb_bridge.Prelude.{
  ℕ, zero, suc, ◌+◌, ◌*◌, ◌/◌, ◌%◌, Bool, true, false, not, ◌||◌, Option, none, some, List, [], ◌∷◌,
  ◌++◌, ◌==◌, if◌then◌else◌, keep,
}
use i_usb_bridge.Prelude.Bytes.{Bytes}
use i_usb_bridge.Prelude.Int.{ℤ, pos, negsuc, as_u16, int_is}
use i_usb_bridge.Prelude.Text.{Text, text, text_eq}
use i_usb_bridge.Mux.Plist.{
  Value, Dictionary, string, bytes, array, dictionary, nil, cons, end, field, get, as_string,
  as_signed_integer, result, device_entry,
}

-- `port_raw.rotate_right(8)` on sixteen bits.
unfoldable pub rotate_right8 : ℕ → ℕ
rotate_right8 x = x / 256 + x % 256 * 256

-- What the handler does after its replies.
pub data Next : Type 0 where
  next_request : Next
  hang_up : Next
  connect : ℕ → Next

-- `replace('-', "")`
unfoldable pub without_dashes : Text → Text
without_dashes = keep (λ c. not (c == b'-'))

abbrev pub or_else {ℓ} : {A : Type ℓ} → Option A → Option A → Option A
or_else (some a) o = some a
or_else none o = o

-- `read_file id` is the record `{id}.plist` of the Lockdown folder.
module _ (read_file : Text → Option Bytes) (serial : Text) where
  unfoldable pub read_pair_record : Text → Option Bytes
  unfolding without_dashes
  read_pair_record requested = or_else (read_file requested) (
      or_else (read_file (without_dashes requested))
        (or_else (read_file serial) (read_file (without_dashes serial))))

  unfoldable pub string_field : Text → Text → Dictionary → Text
  string_field key missing req = elim (get key req) [ some (string t) ↦ t | _ ↦ missing ]

  unfoldable pub integer_field : Text → ℤ → Dictionary → ℤ
  integer_field key missing req = elim (get key req) [
    | none ↦ missing
    | some v ↦ elim (as_signed_integer v) [ none ↦ missing | some i ↦ i ]
  ]

  abbrev pub handle_connect : Dictionary → List Dictionary × Next
  handle_connect req =
      if not (int_is (integer_field (text "DeviceID") (negsuc 0) req) 1)
      then (result 2 ∷ [], hang_up)
      else ([], connect (rotate_right8 (as_u16 (integer_field (text "PortNumber") (pos 0) req))))

  abbrev pub handle_pair_record : Dictionary → List Dictionary × Next
  handle_pair_record req = elim (read_pair_record (string_field (text "PairRecordID") serial req)) [
    | some record_bytes ↦
        (field (text "PairRecordData") (bytes record_bytes) end ∷ [], next_request)
    | none ↦ (result 2 ∷ [], next_request)
  ]

  -- What the `match ty` of the loop decides: the replies in their order, and what follows when they
  -- could be written. The reply to `Connect` on device 1 is sent when the connection is open.
  unfoldable pub handle_request : Dictionary → List Dictionary × Next
  handle_request req =
      let ty = string_field (text "MessageType") (text "") req in
      if text_eq ty (text "ReadBUID")
      then (
        field (text "BUID") (string (text "30142955-444094379208051516")) end ∷ [],
        next_request,
      )
      else if text_eq ty (text "ListDevices")
      then (
        field (text "DeviceList") (array (cons (dictionary (device_entry serial 1)) nil)) end ∷ [],
        next_request,
      )
      else if text_eq ty (text "Listen")
      then (result 0 ∷ device_entry serial 1 ∷ [], next_request)
      else if text_eq ty (text "ReadPairRecord")
      then handle_pair_record req
      else if text_eq ty (text "SavePairRecord") || text_eq ty (text "DeletePairRecord")
      then (result 0 ∷ [], next_request)
      else if text_eq ty (text "Connect")
      then handle_connect req
      else (result 1 ∷ [], next_request)
