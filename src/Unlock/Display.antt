-- ===== src/Unlock/Display.antt =====
-- The display's own calls leave the request at the gate.
use m5authenticator.Prelude.{
  ℕ, ◌≡◌, refl, inl, inr, Bool, true, Option, none, some, List, ◌∷◌, arith, Bool-cases, Bytes,
}
use m5authenticator.Presence.{UserPresenceGate, PresenceOperation, attempt_ttl_ms}
use m5authenticator.Presence
use m5authenticator.Presence.Gesture.{Reach}
use m5authenticator.Ui.{
  AccountMetadata, id_after, id_before, last_id, front_id, UiModel, new_ui, begin_unlock_request,
  consume_unlock_confirmation, cancel_unlock_request, unlock_request_confirmed, hide_reveal,
  update_accounts, select_valid, select_next, select_previous, select_id, reveal,
  expire_unlock_request, observe_primary_button_state, primary_button_pressed,
}
use m5authenticator.Ui
use m5authenticator.Ui.Steps.{
  updates, nexts, previouses, hides, cancels_request, reveals, expires_request, presses, requests,
  observes, consumes,
}
use m5authenticator.Ui.Steps
use m5authenticator.Unlock.{is_own, Waits}

hide_reveal_presence : (u : UiModel) → (hide_reveal u).1.presence ≡ u.presence
unfolding hide_reveal
hide_reveal_presence u = refl

update_accounts_presence :
    (accounts : List AccountMetadata) (preferred_id : ℕ) (u : UiModel)
    → (update_accounts accounts preferred_id u).1.presence ≡ u.presence
unfolding update_accounts select_valid hide_reveal
update_accounts_presence accounts preferred_id u = ground arith

select_id_presence :
    (m : Option ℕ) (u : UiModel) (changed : Bool) → (select_id m u changed).1.presence ≡ u.presence
unfolding select_id
select_id_presence none u changed = refl
select_id_presence (some id) u changed = refl

select_next_presence : (u : UiModel) → (select_next u).1.presence ≡ u.presence
unfolding select_next hide_reveal
select_next_presence u = ground (
  arith,
  select_id_presence (id_after (front_id u.accounts) u.selected_id u.accounts) (hide_reveal u).1
      (hide_reveal u).0,
)

select_previous_presence : (u : UiModel) → (select_previous u).1.presence ≡ u.presence
unfolding select_previous hide_reveal
select_previous_presence u = ground (
  arith,
  select_id_presence (id_before (last_id 0 u.accounts) u.selected_id u.accounts) (hide_reveal u).1
      (hide_reveal u).0,
)

reveal_presence : (code now_ms : ℕ) (u : UiModel) → (reveal code now_ms u).1.presence ≡ u.presence
unfolding reveal
reveal_presence code now_ms u = ground arith

expire_presence : (now_ms : ℕ) (u : UiModel) → (Ui.expire now_ms u).1.presence ≡ u.presence
unfolding Ui.expire hide_reveal
expire_presence now_ms u = ground arith

module _ {operation : PresenceOperation} {id : Bytes} where
  Waits-same : {g g' : UserPresenceGate} → g' ≡ g → Waits operation id g → Waits operation id g'
  Waits-same e w = rw e w

  presses-Waits :
      (now_ms : ℕ) (u : UiModel)
      → Waits operation id u.presence
      → Waits operation id (primary_button_pressed now_ms u).1.presence
  unfolding primary_button_pressed
  presses-Waits now_ms u w = elim (Bool-cases (Presence.active u.presence)) [
    | inr resting ↦ rw resting w
    | inl busy ↦ rw busy (record {
      start = w.start;
      generation = w.generation;
      samples = w.samples;
      reach = Reach.confirms now_ms _ w.reach;
    })
  ]

  pub ui_step-Waits :
      (a : Ui.Steps.Call) (u : UiModel)
      → is_own a ≡ true
      → Waits operation id u.presence
      → Waits operation id (Ui.Steps.step a u).presence
  unfolding Ui.Steps.step expire_unlock_request cancel_unlock_request observe_primary_button_state
      consume_unlock_confirmation
  ui_step-Waits (updates accounts preferred_id) u own w =
      Waits-same (update_accounts_presence accounts preferred_id u) w
  ui_step-Waits nexts u own w = Waits-same (select_next_presence u) w
  ui_step-Waits previouses u own w = Waits-same (select_previous_presence u) w
  ui_step-Waits hides u own w = Waits-same (hide_reveal_presence u) w
  ui_step-Waits cancels_request u own w = record {
    start = w.start;
    generation = w.generation;
    samples = w.samples;
    reach = Reach.cancels w.reach;
  }
  ui_step-Waits (reveals code now_ms) u own w = Waits-same (reveal_presence code now_ms u) w
  ui_step-Waits (Ui.Steps.expires now_ms) u own w = Waits-same (expire_presence now_ms u) w
  ui_step-Waits (expires_request now_ms) u own w = record {
    start = w.start;
    generation = w.generation;
    samples = w.samples;
    reach = Reach.expires now_ms w.reach;
  }
  ui_step-Waits (presses now_ms) u own w = presses-Waits now_ms u w
  ui_step-Waits (requests operation attempt_id now_ms) u own w = cc
  ui_step-Waits (observes pressed) u own w = record {
    start = w.start;
    generation = w.generation;
    samples = pressed ∷ w.samples;
    reach = Reach.observed pressed w.reach;
  }
  ui_step-Waits (consumes attempt_id now_ms) u own w = record {
    start = w.start;
    generation = w.generation;
    samples = w.samples;
    reach = Reach.consumes attempt_id now_ms w.reach;
  }
