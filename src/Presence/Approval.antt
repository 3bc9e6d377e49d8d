-- ===== src/Presence/Approval.antt =====
-- What an approval by the gate means to the one who consumes it.
use m5authenticator.Prelude.{
  ℕ, ◌<◌, ◌≡◌, Bool, true, false, List, Bytes, arith, constant_time_equal_iff, saturating_deadline,
  ◌↔◌, ◌≢◌,
}
use m5authenticator.Presence.{
  UserPresenceGate, PresenceOperation, awaiting, confirmed, begin, attempt_ttl_ms,
  observe_input_state, confirm_current, consume_confirmation, is_idle,
}
use m5authenticator.Presence.Gesture.{
  Reach, Pressed, Reach-confirmed, begun, observed, confirms, consumes, expires, cancels,
}

-- The request that a gate which is not idle stands for.
record Holds (operation : PresenceOperation) (id : Bytes) (start generation : ℕ)
    (g : UserPresenceGate) : Type 0 where
  same_request : is_idle g.state ≡ false → g.operation ≡ operation
  same_id : is_idle g.state ≡ false → g.attempt_id ≡ id
  same_deadline :
      is_idle g.state ≡ false → g.expires_at_ms ≡ saturating_deadline start attempt_ttl_ms
  same_generation : is_idle g.state ≡ false → g.input_generation_at_start ≡ generation

module _ {operation : PresenceOperation} {id : Bytes} {start generation : ℕ} where
  Reach-Holds :
      {h : List Bool} {g : UserPresenceGate}
      → Reach operation id start generation h g
      → Holds operation id start generation g
  unfolding begin observe_input_state confirm_current consume_confirmation
  Reach-Holds (begun g) = ground arith
  Reach-Holds (observed {h} {g} pressed r) = ground (arith, Reach-Holds r)
  Reach-Holds (confirms {h} {g} now_ms gen r) = ground (arith, Reach-Holds r)
  Reach-Holds (consumes {h} {g} a now_ms r) = ground (arith, Reach-Holds r)
  Reach-Holds (expires {h} {g} now_ms r) = ground (arith, Reach-Holds r)
  Reach-Holds (cancels {h} {g} r) = ground arith

  -- From any gate, after `begin` and whatever calls but `begin`: a confirmation is consumed only for the
  -- attempt id that was begun, before the deadline of that request, and only if the button was
  -- seen released twice in a row and pressed later, all since `begin`.
  pub consume_confirmation-Pressed :
      {h : List Bool} {g : UserPresenceGate} (attempt_id : Bytes) (now_ms : ℕ)
      → Reach operation id start generation h g
      → (consume_confirmation attempt_id now_ms g).1 ≡ true
      → (attempt_id ≡ id) × (now_ms < saturating_deadline start attempt_ttl_ms) × Pressed h
  unfolding consume_confirmation
  consume_confirmation-Pressed {h} {g} attempt_id now_ms r e =
      ground
        (arith, Reach-Holds r, Reach-confirmed r, constant_time_equal_iff attempt_id g.attempt_id)

-- Whatever the gate and the ids, a second consumption right after a first one returns false.
consume_confirmation_once :
    (a b : Bytes) (now_ms later : ℕ) (g : UserPresenceGate)
    → (consume_confirmation b later (consume_confirmation a now_ms g).0).1 ≡ false
consume_confirmation_once a b now_ms later g =
    not_confirmed b later (consume_confirmation a now_ms g).0 (consumed a now_ms g)
  where
    consumed :
        (a : Bytes) (now_ms : ℕ) (g : UserPresenceGate)
        → (consume_confirmation a now_ms g).0.state ≢ confirmed
    consumed a now_ms g = unfold consume_confirmation in ground arith

    not_confirmed :
        (b : Bytes) (later : ℕ) (g : UserPresenceGate)
        → g.state ≢ confirmed
        → (consume_confirmation b later g).1 ≡ false
    not_confirmed b later g ne = unfold consume_confirmation in ground arith

-- The gate confirms exactly when a request awaits, the deadline has not come, the gate is armed
-- and holds an unused press, and the input generation has grown since the request began.
confirm_current_iff :
    (now_ms input_generation : ℕ) (g : UserPresenceGate)
    → ((confirm_current now_ms input_generation g).1 ≡ true) ↔ (
        (g.state ≡ awaiting)
        × (now_ms < g.expires_at_ms)
        × (g.input_armed ≡ true)
        × (g.post_arm_press_edge ≡ true)
        × (g.input_generation_at_start < input_generation))
unfolding confirm_current
confirm_current_iff now_ms input_generation g = (λ h. ground arith, λ h. ground arith)
