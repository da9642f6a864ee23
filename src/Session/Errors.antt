-- ===== src/Session/Errors.antt =====
-- The classification of error messages in src/main.rs.
use i_usb_bridge.Prelude.{Bool, ◌||◌, if◌then◌else◌, take}
use i_usb_bridge.Prelude.Text.{Text, text, text_eq, contains, to_ascii_lowercase}

unfoldable pub coredevice_error_code : Text → Text
coredevice_error_code message =
    let normalized = to_ascii_lowercase message in
    if contains (text "developer mode") normalized
    then text "developer_mode_required"
    else if contains (text "pairing file") normalized
        || (contains (text "not paired") normalized || contains (text "pairing trust") normalized)
    then text "apple_device_not_trusted"
    else if contains (text "service not found") normalized
    then text "developer_image_required"
    else if contains (text "maintouchscreen") normalized
    then text "touch_surface_unavailable"
    else text "coredevice_connection_failed"

unfoldable pub device_connection_error_code : Text → Text
device_connection_error_code message =
    if contains (text "no matching") message || contains (text "device not found") message
    then text "apple_device_not_found"
    else text "apple_usbmux_unavailable"

unfoldable pub remote_pairing_error_code : Text → Text
remote_pairing_error_code message =
    if contains (text "pairing file is missing or invalid") message
    then text "wireless_remote_pairing_required"
    else if contains (text "no RemotePairing mDNS service") message
    then text "wireless_device_not_discoverable"
    else text "wireless_remote_pairing_failed"

unfoldable pub coredevice_error_message : Text → Text
coredevice_error_message message =
    if text_eq (coredevice_error_code message) (text "developer_image_required")
    then text "The CoreDevice service is unavailable after mounting the developer image."
    else take 1024 message

unfoldable pub is_recoverable_usb_transport_error : Text → Bool
is_recoverable_usb_transport_error message =
    let normalized = to_ascii_lowercase message in
    contains (text "socket io") normalized
    || (contains (text "connection reset") normalized
        || (contains (text "connection lost") normalized
            || (contains (text "connection aborted") normalized
                || (contains (text "broken pipe") normalized
                    || (contains (text "unexpected eof") normalized
                        || (contains (text "timed out") normalized
                            || contains (text "timeout") normalized))))))

unfoldable pub is_ddi_registration_error : Text → Bool
is_ddi_registration_error message =
    let normalized = to_ascii_lowercase message in
    contains (text "service not found") normalized
    || (contains (text "no such service") normalized
        || (contains (text "universalhid") normalized
            || contains (text "maintouchscreen") normalized))

unfoldable pub is_optional_media_gate_error : Text → Bool
is_optional_media_gate_error message =
    let normalized = to_ascii_lowercase message in
    contains (text "9021") message
    || (contains (text "requires ios") normalized
        || (contains (text "service not found") normalized
            || contains (text "no such service") normalized))
