-- ===== src/Unlock/Approval.antt =====
-- What the button has to do with a key that is handed over.
use m5authenticator.Prelude.{◌≡◌, Bool, true, Bytes}
use m5authenticator.Session.{presence_operation}
use m5authenticator.Session.Device.{Crypto}
use m5authenticator.Session.Device
use m5authenticator.Session.Attempts.Context.{AttemptCoordinator, is_awaiting_presence}
use m5authenticator.Session.Attempts.Authorized
use m5authenticator.Ui.{
  AccountMetadata, id_after, id_before, last_id, front_id, UiModel, cancel_unlock_request,
  unlock_request_confirmed, hide_reveal, update_accounts, select_valid, select_next,
  select_previous, select_id, reveal, expire_unlock_request, observe_primary_button_state,
  primary_button_pressed,
}
use m5authenticator.Ui
use m5authenticator.Ui.Steps.{
  updates, nexts, previouses, hides, cancels_request, reveals, expires_request, presses, requests,
  observes, consumes,
}
use m5authenticator.Ui.Steps
use m5authenticator.Unlock.{Waits}

module _ {K : Type 0} (crypto : Crypto K) (import_public_key : Bytes → Bool) where
  -- A request that was authorized is the one at the gate.
  abbrev Inv : AttemptCoordinator K × UiModel → Type 0
  Inv (c, u) =
      c.active ≡ true
      → is_awaiting_presence c.state ≡ true
      → Waits (presence_operation c.context.operation) c.descriptor.attempt_id u.presence
