-- ===== src/Input/State.antt =====
-- The local variables of the loop in src/main.rs, the events that it emits, and how a round ends.
-- Writing an event to stdout always succeeds here. `tasks` is `background_tasks`: the tasks started
-- since it was drained last; finished ones are not taken out.
use i_usb_bridge.Prelude.{ℕ, Option, List, [], ◌∷◌, ◌++◌}
use i_usb_bridge.Session.Event.{Event}
use i_usb_bridge.Input.Touch.{Contacts}

-- A clipboard operation that goes on in the background; `monitor_clipboard` is the last of them.
pub data Task : Type 0 where
  copy_task : List ℕ → Task
  read_task : Task
  monitor_task : Task

pub record Host (World : Type 0) : Type 0 where
  pub world : World
  pub contacts : Contacts
  pub pressed_keys : List ℕ
  pub pressed_buttons : List (ℕ × ℕ)
  pub last_sequence : Option ℕ
  pub health_failures : ℕ
  pub tasks : List Task
  pub events : List Event

-- How a round ends: the next one, `break`, `return Ok(())`, or `?` on an error.
pub data Flow : Type 0 where
  continues breaks returns throws : Flow

abbrev pub no_contacts : Contacts
no_contacts = record { active = []; slots = [] }

module _ {World : Type 0} where
  abbrev pub emit : Event → Host World → Host World
  emit e h = record h { events = h.events ++ (e ∷ []) }

  -- The four `clear` calls before a session is recovered.
  unfoldable pub clear_input : Host World → Host World
  clear_input h = record h { contacts = no_contacts; pressed_keys = []; pressed_buttons = [] }
