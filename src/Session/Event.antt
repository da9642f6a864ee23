-- ===== src/Session/Event.antt =====
-- `Event` of src/main.rs: what the program writes to stdout. A status is its code; the message
-- beside it is one fixed text for each code.
use i_usb_bridge.Prelude.{ℕ, Bool, Option}
use i_usb_bridge.Prelude.Text.{Text}

pub data Event : Type 0 where
  status : Text → Event
  -- The identifier, the rate, the authentication mode and the transport; the rest is fixed.
  ready : Text → ℕ → Text → Text → Event
  warning : Text → Text → Event
  error : Text → Text → Event
  clipboard_text : Text → Event
  paste_complete : Option ℕ → Event
  paste_failed : Option ℕ → Text → Event
  wifi_sync_enabled : Text → Bool → Event
