-- ===== src/Unlock.antt =====
-- The attempt coordinator over the display: what the button has to do with a key that is handed over.
-- UiModel implements PresenceBinding (ui_model.hpp).
pub mod Display
pub mod Approval
pub mod Honest
use m5authenticator.Prelude.{
  ℕ, ◌<◌, ◌≡◌, refl, ◌≢◌, inl, inr, Bool, true, false, not, ◌||◌, Option, none, some, List, [], ◌∷◌,
  map, arith, leb, Bool-cases, Bytes,
}
use m5authenticator.Presence.{UserPresenceGate, PresenceOperation, attempt_ttl_ms}
use m5authenticator.Presence
use m5authenticator.Presence.Gesture.{Reach, Pressed}
use m5authenticator.Presence.Approval.{consume_confirmation-Pressed}
use m5authenticator.Session.{presence_operation, encode_transcript}
use m5authenticator.Session.Device.{Crypto, Draws, matches_attempt}
use m5authenticator.Session.Device
use m5authenticator.Session.Attempts.{
  new_coordinator, wipe_staged, cancel, begin, authorize, authorize_transcript, authenticate,
  complete, expire, transcript_input,
}
use m5authenticator.Session.Attempts.Context.{
  BeginContext, PresenceBinding, AttemptCoordinator, is_awaiting_presence,
  is_awaiting_authorization,
}
use m5authenticator.Session.Attempts.Authorized.{
  Call, begins, authorizes, completes, expires, cancels, moves,
}
use m5authenticator.Session.Attempts.Delivery.{Delivered}
use m5authenticator.Session.Attempts.Authorized
use m5authenticator.Ui.{
  AccountMetadata, id_after, id_before, last_id, front_id, UiModel, new_ui, begin_unlock_request,
  consume_unlock_confirmation, cancel_unlock_request, unlock_request_confirmed, hide_reveal,
  update_accounts, select_valid, select_next, select_previous, select_id, reveal,
  expire_unlock_request, observe_primary_button_state, primary_button_pressed,
}
use m5authenticator.Ui
use m5authenticator.Ui.Steps.{
  updates, nexts, previouses, hides, cancels_request, reveals, expires_request, presses, requests,
  observes, consumes,
}
use m5authenticator.Ui.Steps
use m5authenticator.Prelude.{saturating_deadline}

abbrev pub binding : PresenceBinding UiModel
binding = record {
  begin_presence = begin_unlock_request;
  consume_presence = consume_unlock_confirmation;
  cancel_presence = cancel_unlock_request;
  presence_confirmed = unlock_request_confirmed;
}

-- The display's own calls: all but the beginning of a request, which the coordinator makes.
abbrev pub is_own : Ui.Steps.Call → Bool
is_own (requests operation attempt_id now_ms) = false
is_own _ = true

pub data Event (K : Type 0) : Type 0 where
  attempts : Call K UiModel → Event K
  acts : Ui.Steps.Call → Event K

-- The request of this operation and attempt, as the gate may have it by now.
pub record Waits (operation : PresenceOperation) (id : Bytes) (g : UserPresenceGate) : Type 0 where
  pub start : ℕ
  pub generation : ℕ
  pub samples : List Bool
  pub reach : Reach operation id start generation samples g

-- What a key that was handed over says of the button.
pub record Approved (operation : PresenceOperation) (id : Bytes) (now_ms : ℕ) (g : UserPresenceGate)
    : Type 0 where
  pub waits : Waits operation id g
  pub in_time : now_ms < saturating_deadline waits.start attempt_ttl_ms
  pub pressed : Pressed waits.samples

module _ {K : Type 0} (crypto : Crypto K) (import_public_key : Bytes → Bool) where
  abbrev pub call_of : Event K → Call K UiModel
  call_of (attempts call) = call
  call_of (acts a) = moves (Ui.Steps.step a)

  -- No request but the coordinator's.
  abbrev pub Undisturbed : List (Event K) → Type 0
  Undisturbed [] = Unit {0}
  Undisturbed (attempts (moves f) ∷ events) = ⊥
  Undisturbed (attempts call ∷ events) = Undisturbed events
  Undisturbed (acts a ∷ events) = (is_own a ≡ true) × Undisturbed events

  unfoldable pub run :
      List (Event K) → AttemptCoordinator K × UiModel → AttemptCoordinator K × UiModel
  run events x = Authorized.run crypto import_public_key binding (map call_of events) x
