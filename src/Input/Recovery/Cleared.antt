-- ===== src/Input/Recovery/Cleared.antt =====
-- What the branch of a failed send in src/main.rs leaves of the input that was held.
use i_usb_bridge.Prelude.{ℕ, ◌≡◌, ◌⊎◌, refl, true, List, [], ◌∷◌, inl, inr, Option-cases}
use i_usb_bridge.Prelude.Text.{Text}
use i_usb_bridge.Prelude.Action.{Result-cases}
use i_usb_bridge.Session.Device.{Device}
use i_usb_bridge.Session.Errors.{is_recoverable_usb_transport_error}
use i_usb_bridge.Session.Reconnect.{recover_hid_session}
use i_usb_bridge.Input.Message.{InputMessage}
use i_usb_bridge.Input.State.{
  Host, Flow, continues, returns, no_contacts, clear_input, monitor_task,
}
use i_usb_bridge.Input.Recovery.{
  Link, Channel, discard_stale_input_frames, finish_recovery, recover, send_failed,
}

module _ {World : Type 0} where
  -- Nothing is held; and the loop goes on with a new clipboard monitor and no other task, or the
  -- program returns.
  pub record IsCleared (out : Flow × Host World) : Type 0 where
    pub contacts : out.1.contacts ≡ no_contacts
    pub keys : out.1.pressed_keys ≡ []
    pub buttons : out.1.pressed_buttons ≡ []
    pub ends :
        ((out.0 ≡ continues) × (out.1.tasks ≡ monitor_task ∷ []))
        ⊎ ((out.0 ≡ returns) × ((out.1.tasks ≡ []) ⊎ (out.1.tasks ≡ monitor_task ∷ [])))

module _ {World F : Type 0} (device : Device World) (describe_surfaces : List ℕ → Text)
    (show : ℕ → Text) (link : Link) where
  recover-IsCleared :
      (channel : Channel) (message : Text) (bursts : List (List (InputMessage F))) (h : Host World)
      → IsCleared (recover device describe_surfaces show link channel message bursts h)
  unfolding recover finish_recovery clear_input
  recover-IsCleared channel message bursts h =
      elim (Result-cases
        (recover_hid_session device describe_surfaces (link.over_usb) (link.udid) h.world)) [
          | inr (e, w, f) ↦
              rw (f, recover)
                (record {
                  contacts = refl;
                  keys = refl;
                  buttons = refl;
                  ends = inr (refl, inl refl);
                })
          | inl (_, w, f) ↦ elim (Option-cases (discard_stale_input_frames bursts).1) [
            | inl quiet ↦
                rw (f, quiet, recover, finish_recovery)
                  (record { contacts = refl; keys = refl; buttons = refl; ends = inl (refl, refl) })
            | inr (m, bad) ↦
                rw (f, bad, recover, finish_recovery)
                  (record {
                    contacts = refl;
                    keys = refl;
                    buttons = refl;
                    ends = inr (refl, inr refl);
                  })
          ]
        ]

  -- After a send that failed on a recoverable transport error the bridge holds no contact, key or
  -- button, on every outcome of the recovery; then the loop goes on with the new clipboard monitor as
  -- its only background task, or the program returns with that one or none; the loop is never left
  -- for its clean-up.
  pub send_failed-IsCleared :
      (channel : Channel) (message : Text) (bursts : List (List (InputMessage F))) (h : Host World)
      → is_recoverable_usb_transport_error message ≡ true
      → IsCleared (send_failed device describe_surfaces show link channel message bursts h)
  unfolding send_failed
  send_failed-IsCleared channel message bursts h e =
      rw (e, send_failed) (recover-IsCleared channel message bursts h)
