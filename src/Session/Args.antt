-- ===== src/Session/Args.antt =====
-- The command line and the paths of src/main.rs. A path is the list of its parts; the arguments
-- are those behind the program's name.
use i_usb_bridge.Prelude.{
  ℕ, ◌+◌, ◌-◌, ◌*◌, Bool, ◌&&◌, Option, none, some, List, [], ◌∷◌, ◌++◌, ltb, leb, if◌then◌else◌,
  any,
}
use i_usb_bridge.Prelude.Text.{Text, text, text_eq}
use i_usb_bridge.Session.Device.{Transport, usb, network}
use i_usb_bridge.Session.System.{Environment}

abbrev pub FilePath : Type 0
FilePath = List Text

unfoldable pub has_flag : Text → List Text → Bool
has_flag flag args = any (λ arg. text_eq arg flag) args

-- The arguments behind the first occurrence of a flag, and the first of them.
unfoldable pub behind : Text → List Text → Option (List Text)
behind flag [] = none
behind flag (arg ∷ later) =
    let rest = behind flag later in if text_eq arg flag then some later else rest

abbrev pub head : List Text → Option Text
head [] = none
head (value ∷ later) = some value

abbrev pub or_else {ℓ} : {A : Type ℓ} → Option A → A → A
or_else none d = d
or_else (some a) d = a

abbrev pub and_then {ℓ κ} : {A : Type ℓ} {B : Type κ} → Option A → (A → Option B) → Option B
and_then none f = none
and_then (some a) f = f a

unfoldable pub value_of : Text → List Text → Option Text
unfolding behind
value_of flag args = and_then (behind flag args) head

unfoldable pub requested_transport : List Text → Transport
requested_transport args = if has_flag (text "--wireless") args then network else usb

unfoldable pub requested_udid : List Text → Option Text
requested_udid args = value_of (text "--udid") args

-- `str::parse::<u32>`, with the leading plus that it takes.
unfoldable pub parse_digits : ℕ → Text → Option ℕ
parse_digits acc [] = some acc
parse_digits acc (c ∷ later) =
    let next : ℕ = acc * 10 + (c - b'0') in
    let rest = parse_digits next later in
    if leb b'0' c && leb c b'9' then (if ltb next 0x1_0000_0000 then rest else none) else none

unfoldable pub parse_u32 : Text → Option ℕ
parse_u32 [] = none
parse_u32 (c ∷ []) = parse_digits 0 (c ∷ [])
parse_u32 (c ∷ (d ∷ later)) =
    let signed = parse_digits 0 (d ∷ later) in
    let plain = parse_digits 0 (c ∷ (d ∷ later)) in
    if text_eq (c ∷ []) (text "+") then signed else plain

unfoldable pub requested_rate_hz : List Text → ℕ
unfolding parse_u32
requested_rate_hz args = or_else (and_then (value_of (text "--rate-hz") args) parse_u32) 120

abbrev given_path : Option Text → Option FilePath
given_path none = none
given_path (some t) = some (t ∷ [])

-- A flag with nothing behind it hides the variable.
unfoldable pub requested_ddi_dir : Environment → Option FilePath
requested_ddi_dir e = elim (behind (text "--ddi-dir") e.args) [
  | some later ↦ given_path (head later)
  | none ↦ given_path (e.var (text "IPHONE_MIRROR_DDI_DIR"))
]

abbrev local_app_data : Environment → FilePath
local_app_data e = or_else (given_path (e.var (text "LOCALAPPDATA"))) (e.temp_dir ∷ [])

unfoldable pub default_ddi_dir : Environment → FilePath
default_ddi_dir e = local_app_data e ++ (text "iPhoneMirror" ∷ text "developer-image" ∷ [])

-- `device_udid.filter(|value| !value.is_empty())`, or `default`.
abbrev device_name : Option Text → Text
device_name none = text "default"
device_name (some []) = text "default"
device_name (some (c ∷ later)) = c ∷ later

unfoldable pub remote_pairing_file_path : Environment → Option Text → FilePath
remote_pairing_file_path e device_udid =
    or_else (given_path (e.var (text "IPHONE_MIRROR_RP_PAIRING_FILE"))) (
      local_app_data e
      ++ (text "iPhoneMirror"
          ∷ text "remote-pairing"
          ∷ (device_name device_udid ++ text ".plist")
          ∷ []))
