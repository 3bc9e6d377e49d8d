-- ===== src/Ui/Steps.antt =====
-- What holds of the display between any two calls.
pub mod Selection
use m5authenticator.Prelude.{
  ℕ, ◌≡◌, refl, ◌⊎◌, inl, inr, Bool, true, false, Option, none, some, List, [], ◌∷◌, arith,
  if◌then◌else◌, Bool-cases, Bytes, is_empty,
}
use m5authenticator.Presence.{UserPresenceGate, PresenceOperation}
use m5authenticator.Presence
use m5authenticator.Ui.{
  AccountMetadata, UiModel, new_ui, accounts_equal, has_id, contains_id, sort_accounts, front_id,
  hide_reveal, select_valid, update_accounts, id_after, last_id, id_before, select_id, select_next,
  select_previous, selected_account, is_present, reveal, expire, begin_unlock_request,
  expire_unlock_request, cancel_unlock_request, observe_primary_button_state,
  primary_button_pressed, consume_unlock_confirmation,
}
use m5authenticator.Ui.Accounts.{
  Sorted, has_front, has_last, id_after-cases, id_before-cases, sort_accounts-Sorted,
}
use m5authenticator.Ui.Steps.Selection.{
  Inv, hide_reveal-Inv, select_next-Inv, select_previous-Inv, update_accounts-Inv,
}

pub data Call : Type 0 where
  updates : List AccountMetadata → ℕ → Call
  nexts previouses hides cancels_request : Call
  reveals : ℕ → ℕ → Call
  expires expires_request presses : ℕ → Call
  requests : PresenceOperation → Bytes → ℕ → Call
  observes : Bool → Call
  consumes : Bytes → ℕ → Call

unfoldable pub step : Call → UiModel → UiModel
step (updates accounts preferred_id) u = (update_accounts accounts preferred_id u).1
step nexts u = (select_next u).1
step previouses u = (select_previous u).1
step hides u = (hide_reveal u).1
step cancels_request u = cancel_unlock_request u
step (reveals code now_ms) u = (reveal code now_ms u).1
step (expires now_ms) u = (expire now_ms u).1
step (expires_request now_ms) u = (expire_unlock_request now_ms u).1
step (presses now_ms) u = (primary_button_pressed now_ms u).1
step (requests operation attempt_id now_ms) u =
    (begin_unlock_request operation attempt_id now_ms u).1
step (observes pressed) u = observe_primary_button_state pressed u
step (consumes attempt_id now_ms) u = (consume_unlock_confirmation attempt_id now_ms u).1

unfoldable pub run : List Call → UiModel → UiModel
unfolding step
run [] u = u
run (c ∷ calls) u = run calls (step c u)

selected_account-has :
    (id : ℕ) (accounts : List AccountMetadata)
    → is_present (selected_account id accounts) ≡ true
    → has_id id accounts ≡ true
unfolding selected_account has_id
selected_account-has id [] h = cc
selected_account-has id (a ∷ accounts) h = ground (arith, selected_account-has id accounts)

reveal-Inv : (code now_ms : ℕ) (u : UiModel) → Inv u → Inv (reveal code now_ms u).1
unfolding reveal
reveal-Inv code now_ms u v = ground (arith, selected_account-has u.selected_id u.accounts)

expire-Inv : (now_ms : ℕ) (u : UiModel) → Inv u → Inv (expire now_ms u).1
unfolding expire
expire-Inv now_ms u v = ground (arith, hide_reveal-Inv u v)

-- The gate may only come to rest.
gate-Inv :
    (u : UiModel) (g : UserPresenceGate)
    → Inv u
    → (Presence.active g ≡ true → Presence.active u.presence ≡ true)
    → Inv (record u { presence = g })
gate-Inv u g v h = ground (arith, h)

begin_unlock_request-Inv :
    (operation : PresenceOperation) (attempt_id : Bytes) (now_ms : ℕ) (u : UiModel)
    → Inv u
    → Inv (begin_unlock_request operation attempt_id now_ms u).1
unfolding begin_unlock_request hide_reveal
begin_unlock_request-Inv operation attempt_id now_ms u v = ground arith

expire_active :
    (now_ms : ℕ) (g : UserPresenceGate)
    → Presence.active (Presence.expire now_ms g).0 ≡ true
    → Presence.active g ≡ true
unfolding Presence.expire
expire_active now_ms g h = ground arith

observe_active :
    (pressed : Bool) (g : UserPresenceGate)
    → Presence.active (Presence.observe_input_state pressed g) ≡ true
    → Presence.active g ≡ true
unfolding Presence.observe_input_state
observe_active pressed g h = ground arith

confirm_active :
    (now_ms generation : ℕ) (g : UserPresenceGate)
    → Presence.active (Presence.confirm_current now_ms generation g).0 ≡ true
    → Presence.active g ≡ true
unfolding Presence.confirm_current
confirm_active now_ms generation g h = ground arith

consume_active :
    (id : Bytes) (now_ms : ℕ) (g : UserPresenceGate)
    → Presence.active (Presence.consume_confirmation id now_ms g).0 ≡ true
    → Presence.active g ≡ true
unfolding Presence.consume_confirmation
consume_active id now_ms g h = ground arith

counted-Inv : (u : UiModel) {n : ℕ} → Inv u → Inv (record u { button_press_generation = n })
counted-Inv u v = ground arith

primary_button_pressed-Inv :
    (now_ms : ℕ) (u : UiModel) → Inv u → Inv (primary_button_pressed now_ms u).1
unfolding primary_button_pressed
primary_button_pressed-Inv now_ms u v = elim (Bool-cases (Presence.active u.presence)) [
  | inr idle ↦ rw idle (counted-Inv u v)
  | inl busy ↦ rw busy (gate-Inv _ _ (counted-Inv u v) (λ e. busy))
]

step-Inv : (c : Call) (u : UiModel) → Inv u → Inv (step c u)
unfolding step expire_unlock_request cancel_unlock_request observe_primary_button_state
    consume_unlock_confirmation
step-Inv (updates accounts preferred_id) u v = update_accounts-Inv accounts preferred_id u v
step-Inv nexts u v = select_next-Inv u v
step-Inv previouses u v = select_previous-Inv u v
step-Inv hides u v = hide_reveal-Inv u v
step-Inv cancels_request u v = gate-Inv u Presence.cleared v λ e. absurd (ground (arith, e))
step-Inv (reveals code now_ms) u v = reveal-Inv code now_ms u v
step-Inv (expires now_ms) u v = expire-Inv now_ms u v
step-Inv (expires_request now_ms) u v = gate-Inv u _ v (expire_active now_ms u.presence)
step-Inv (presses now_ms) u v = primary_button_pressed-Inv now_ms u v
step-Inv (requests operation attempt_id now_ms) u v =
    begin_unlock_request-Inv operation attempt_id now_ms u v
step-Inv (observes pressed) u v = gate-Inv u _ v (observe_active pressed u.presence)
step-Inv (consumes attempt_id now_ms) u v =
    gate-Inv u _ v (consume_active attempt_id now_ms u.presence)

new_ui-Inv : Inv new_ui
unfolding has_id
new_ui-Inv = ground arith

run-Inv : (calls : List Call) (u : UiModel) → Inv u → Inv (run calls u)
unfolding run
run-Inv [] u v = v
run-Inv (c ∷ calls) u v = run-Inv calls (step c u) (step-Inv c u v)

-- After any calls of a new display: one of the accounts is selected, unless there is none and the
-- selection is 0; the accounts are sorted by order and id; a code that is not shown is wiped with its
-- deadline; no code is shown while a request waits for the button; and one that is shown has the
-- selected account.
pub run-new_ui-Inv : (calls : List Call) → Inv (run calls new_ui)
run-new_ui-Inv calls = run-Inv calls new_ui new_ui-Inv
