-- ===== src/Ui/Reveal.antt =====
-- Whose code the display shows.
use m5authenticator.Prelude.{
  ℕ, ◌<◌, ◌≡◌, refl, ◌≢◌, ltb→lt, inl, inr, Bool, true, false, Option, none, some, List, arith,
  ◌==◌, Bool-cases, ==_iff, bytes_eq_iff,
}
use m5authenticator.Presence.{UserPresenceGate, PresenceOperation}
use m5authenticator.Presence
use m5authenticator.Ui.{
  AccountMetadata, UiModel, new_ui, account_equal, has_id, contains_id, front_id, hide_reveal,
  select_valid, update_accounts, id_after, last_id, id_before, select_id, select_next,
  select_previous, expire, begin_unlock_request, expire_unlock_request, cancel_unlock_request,
  observe_primary_button_state, primary_button_pressed, consume_unlock_confirmation,
}
use m5authenticator.Ui.Steps.{
  Call, updates, nexts, previouses, hides, cancels_request, reveals, expires, expires_request,
  presses, requests, observes, consumes, step, run, run-new_ui-Inv,
}
use m5authenticator.Ui.Steps.Selection.{Inv}

-- The code that `r` shows is the one that `u` showed, for the same account and no longer.
pub record Shows (u r : UiModel) : Type 0 where
  pub shown : u.reveal_active ≡ true
  pub same_code : r.revealed_code ≡ u.revealed_code
  pub same_deadline : r.reveal_deadline_ms ≡ u.reveal_deadline_ms
  pub same_account : r.selected_id ≡ u.selected_id
  pub same_accounts : r.accounts ≡ u.accounts

kept-Shows :
    (u : UiModel) (g : UserPresenceGate) (n : ℕ)
    → u.reveal_active ≡ true
    → Shows u (record u { presence = g; button_press_generation = n })
kept-Shows u g n e = record {
  shown = e;
  same_code = refl;
  same_deadline = refl;
  same_account = refl;
  same_accounts = refl;
}

account_equal-eq : (a b : AccountMetadata) → account_equal a b ≡ true → a ≡ b
unfolding account_equal
account_equal-eq a b h = ground (
  arith,
  bytes_eq_iff a.issuer b.issuer,
  bytes_eq_iff a.account b.account,
  bytes_eq_iff a.display_name b.display_name,
)

zero_absent :
    (u : UiModel)
    → has_id 0 u.accounts ≡ false
    → has_id u.selected_id u.accounts ≡ true
    → contains_id u.selected_id u.accounts ≡ true
zero_absent u absent h = elim (Bool-cases (u.selected_id == 0)) [
  | inl e ↦ absurd (
      let zero_id : u.selected_id ≡ 0 = (==_iff u.selected_id 0).0 e in
      let there : has_id 0 u.accounts ≡ true = rw zero_id at h in ground (arith, there, absent))
  | inr e ↦ rw (e, h)
]

same-Shows : (u : UiModel) → u.reveal_active ≡ true → Shows u u
same-Shows u e = kept-Shows u u.presence u.button_press_generation e

select_id_hides :
    (u : UiModel) (m : Option ℕ) (changed : Bool)
    → (select_id m (hide_reveal u).1 changed).1.reveal_active ≡ false
unfolding select_id hide_reveal
select_id_hides u none changed = refl
select_id_hides u (some id) changed = refl

select_next-Shows :
    (u : UiModel) → (select_next u).1.reveal_active ≡ true → Shows u (select_next u).1
unfolding select_next hide_reveal
select_next-Shows u e = ground (
  arith,
  same-Shows u,
  select_id_hides u (id_after (front_id u.accounts) u.selected_id u.accounts) (hide_reveal u).0,
)

select_previous-Shows :
    (u : UiModel) → (select_previous u).1.reveal_active ≡ true → Shows u (select_previous u).1
unfolding select_previous hide_reveal
select_previous-Shows u e = ground (
  arith,
  same-Shows u,
  select_id_hides u (id_before (last_id 0 u.accounts) u.selected_id u.accounts) (hide_reveal u).0,
)

select_valid-hidden :
    (preferred_id : ℕ) (u : UiModel) → (select_valid preferred_id u).reveal_active ≡ u.reveal_active
unfolding select_valid
select_valid-hidden preferred_id u = ground arith

update_accounts-Shows :
    (accounts : List AccountMetadata) (preferred_id : ℕ) (u : UiModel)
    → Inv u
    → has_id 0 u.accounts ≡ false
    → (update_accounts accounts preferred_id u).1.reveal_active ≡ true
    → Shows u (update_accounts accounts preferred_id u).1
unfolding update_accounts hide_reveal select_valid
update_accounts-Shows accounts preferred_id u v absent e =
    ground (arith, same-Shows u, λ (h : u.reveal_active ≡ true). zero_absent u absent (v.owned h))

pressed-Shows :
    (now_ms : ℕ) (u : UiModel)
    → (primary_button_pressed now_ms u).1.reveal_active ≡ true
    → Shows u (primary_button_pressed now_ms u).1
unfolding primary_button_pressed
pressed-Shows now_ms u e = elim (Bool-cases (Presence.active u.presence)) [
  | inr resting ↦ rw resting (kept-Shows u _ _ (rw resting at e))
  | inl busy ↦ rw busy (kept-Shows u _ _ (rw busy at e))
]

step-Shows :
    (c : Call) (u : UiModel)
    → Inv u
    → has_id 0 u.accounts ≡ false
    → ((code now_ms : ℕ) → c ≢ reveals code now_ms)
    → (step c u).reveal_active ≡ true
    → Shows u (step c u)
unfolding step hide_reveal expire begin_unlock_request expire_unlock_request cancel_unlock_request
    observe_primary_button_state consume_unlock_confirmation primary_button_pressed
step-Shows (updates accounts preferred_id) u v absent other e =
    update_accounts-Shows accounts preferred_id u v absent e
step-Shows nexts u v absent other e = select_next-Shows u e
step-Shows previouses u v absent other e = select_previous-Shows u e
step-Shows hides u v absent other e = absurd (ground (arith, e))
step-Shows cancels_request u v absent other e =
    kept-Shows u Presence.cleared u.button_press_generation e
step-Shows (reveals code now_ms) u v absent other e = absurd (other code now_ms refl)
step-Shows (expires now_ms) u v absent other e = ground (arith, same-Shows u)
step-Shows (expires_request now_ms) u v absent other e =
    kept-Shows u (Presence.expire now_ms u.presence).0 u.button_press_generation e
step-Shows (presses now_ms) u v absent other e = pressed-Shows now_ms u e
step-Shows (requests operation attempt_id now_ms) u v absent other e = absurd (ground (arith, e))
step-Shows (observes pressed) u v absent other e =
    kept-Shows u (Presence.observe_input_state pressed u.presence) u.button_press_generation e
step-Shows (consumes attempt_id now_ms) u v absent other e =
    kept-Shows u (Presence.consume_confirmation attempt_id now_ms u.presence).0
      u.button_press_generation e

-- Where the time is checked, the deadline is still ahead.
abbrev pub InTime : Call → UiModel → Type 0
InTime (expires now_ms) u = now_ms < u.reveal_deadline_ms
InTime _ u = Unit {0}

step-InTime : (c : Call) (u : UiModel) → (step c u).reveal_active ≡ true → InTime c u
unfolding step expire hide_reveal
step-InTime (expires now_ms) u e = ground (arith, ltb→lt now_ms u.reveal_deadline_ms)
step-InTime _ u e = tt

-- After any calls of a new display with accounts whose ids are not 0, every further call but `reveal`
-- either shows no code or goes on showing the same code, until the same deadline, for the same account
-- of the same list: a code never stands beside another account. Where `expire` goes on showing it, its
-- time lies before the deadline: from the deadline on it hides the code.
pub run-step-Shows :
    (calls : List Call) (c : Call)
    → has_id 0 (run calls new_ui).accounts ≡ false
    → ((code now_ms : ℕ) → c ≢ reveals code now_ms)
    → (step c (run calls new_ui)).reveal_active ≡ true
    → Shows (run calls new_ui) (step c (run calls new_ui)) × InTime c (run calls new_ui)
run-step-Shows calls c absent other e = (
  step-Shows c (run calls new_ui) (run-new_ui-Inv calls) absent other e,
  step-InTime c (run calls new_ui) e,
)
