-- ===== src/Mux/Plist.antt =====
-- The property lists that src/raw_usbmux.rs builds and reads, and its replies.
use i_usb_bridge.Prelude.{ℕ, Option, none, some, if◌then◌else◌}
use i_usb_bridge.Prelude.Bytes.{Bytes}
use i_usb_bridge.Prelude.Int.{ℤ, pos}
use i_usb_bridge.Prelude.Text.{Text, text, text_eq}

mutual
  pub data Value : Type 0 where
    string : Text → Value
    integer : ℤ → Value
    bytes : Bytes → Value
    array : Values → Value
    dictionary : Dictionary → Value

  pub data Values : Type 0 where
    nil : Values
    cons : Value → Values → Values

  pub data Dictionary : Type 0 where
    end : Dictionary
    field : Text → Value → Dictionary → Dictionary

unfoldable pub get : Text → Dictionary → Option Value
get k end = none
get k (field j v d) = if text_eq j k then some v else get k d

abbrev pub as_string : Value → Option Text
as_string (string t) = some t
as_string _ = none

abbrev pub as_signed_integer : Value → Option ℤ
as_signed_integer (integer i) = some i
as_signed_integer _ = none

-- `result`
unfoldable pub result : ℕ → Dictionary
result n =
    field (text "MessageType") (string (text "Result"))
      (field (text "Number") (integer (pos n)) end)

unfoldable pub device_entry : Text → ℕ → Dictionary
device_entry serial id =
    let properties = field (text "DeviceID") (integer (pos id)) (
      field (text "SerialNumber") (string serial) (
        field (text "ConnectionType") (string (text "USB"))
          (field (text "ProductID") (integer (pos 0x12a8)) end))) in
    field (text "DeviceID") (integer (pos id)) (
      field (text "MessageType") (string (text "Attached"))
        (field (text "Properties") (dictionary properties) end))
