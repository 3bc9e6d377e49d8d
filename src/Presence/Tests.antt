-- ===== src/Presence/Tests.antt =====
-- The gate and the quarantine on concrete presses.
use m5authenticator.Presence.Gesture.{Reach, Pressed, Released}
use m5authenticator.Presence.Approval.{consume_confirmation-Pressed}
use m5authenticator.Presence.Quarantine.{
  PresenceGestureQuarantine, Sample, cancelled, observe_all, observe, UpSince, observe_all_lifts,
}
use m5authenticator.Presence.Quarantine
use m5authenticator.Presence.Samples.{sampled, sampled-confirm_current_iff}
use m5authenticator.Prelude.{
  ℕ, ◌<◌, Bytes, List, false, true, replicate, inl, inr, Bool, ◌≡◌, ◌∷◌, refl, [], arith,
  saturating_deadline, constant_time_equal,
}
use m5authenticator.Presence.{
  begin, UserPresenceGate, vmk_rekey, observe_input_state, consume_confirmation, cleared,
  confirm_current, confirmed, attempt_ttl_ms,
}

abbrev request : Bytes
request = replicate 16 7

abbrev history : List Bool
history = true ∷ false ∷ false ∷ true ∷ []

abbrev begun : UserPresenceGate
begun = begin vmk_rekey request 1_000 4 cleared

abbrev pressed_gate : UserPresenceGate
pressed_gate =
    observe_input_state true
      (observe_input_state false (observe_input_state false (observe_input_state true begun)))

abbrev approved : UserPresenceGate
approved = (confirm_current 2_000 5 pressed_gate).0

approved-Reach : Reach vmk_rekey request 1_000 4 history approved
approved-Reach = Reach.confirms 2_000 5 (
    Reach.observed true
      (Reach.observed false (Reach.observed false (Reach.observed true (Reach.begun cleared)))))

approved_state : approved.state ≡ confirmed
unfolding begin saturating_deadline observe_input_state confirm_current
approved_state = refl

-- A press that began before the request confirms nothing.
held_press : (confirm_current 2_000 5 (observe_input_state true begun)).1 ≡ false
unfolding begin saturating_deadline observe_input_state confirm_current
held_press = refl

consumed : (consume_confirmation request 2_001 approved).1 ≡ true
unfolding begin saturating_deadline observe_input_state confirm_current consume_confirmation
    constant_time_equal
consumed = refl

consume_confirmation-Pressed_example : Pressed history
consume_confirmation-Pressed_example =
    (consume_confirmation-Pressed request 2_001 approved-Reach consumed).2

before_deadline : 2_000 < saturating_deadline 1_000 attempt_ttl_ms
unfolding saturating_deadline
before_deadline = omega arith

sampled-confirm_current_iff_example : (confirm_current 2_000 5 (sampled history begun)).1 ≡ true
sampled-confirm_current_iff_example =
    (sampled-confirm_current_iff vmk_rekey request 1_000 4 cleared history 2_000 5).1
      (before_deadline, omega arith, (refl, Released.now (true ∷ [])))

abbrev up_at : ℕ → Sample
up_at t = record { pressed = false; deciding_click_count = false; at_ms = t }

abbrev down_at : ℕ → Sample
down_at t = record { pressed = true; deciding_click_count = true; at_ms = t }

abbrev samples : List Sample
samples = up_at 1_500 ∷ up_at 1_300 ∷ down_at 1_100 ∷ up_at 1_050 ∷ []

-- The run with the button up began at 1300, not at 1050.
samples-UpSince : UpSince 1_300 samples
samples-UpSince = (refl, inr (refl, inl (refl, refl)))

-- At 1800 the timeout is not over yet.
still_active :
    (observe_all (up_at 1_800 ∷ samples) (Quarantine.begin 1_000 500 cancelled)).active ≡ true
unfolding observe_all observe Quarantine.begin
still_active = refl

observe_all_lifts_example :
    (observe_all (up_at 1_801 ∷ samples) (Quarantine.begin 1_000 500 cancelled)).active ≡ false
observe_all_lifts_example =
    (observe_all_lifts 1_000 500 cancelled (up_at 1_801 ∷ samples)).1
      (inl (refl, refl, (1_300, samples-UpSince, omega arith)))
