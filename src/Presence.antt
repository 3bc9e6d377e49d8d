-- ===== src/Presence.antt =====
-- firmware/components/m5auth_session/user_presence.cpp: the gate that turns a press of the
-- Device's button into the approval of one request. A time is a number of milliseconds and a
-- generation counts presses; both are 64-bit numbers that the gate only compares.
pub mod Gesture
pub mod Approval
pub mod Samples
pub mod Quarantine
mod Tests
use m5authenticator.Prelude.{
  ℕ, ◌+◌, ◌-◌, Bool, true, false, not, ◌&&◌, ◌||◌, Bytes, ltb, leb, ◌==◌, if◌then◌else◌,
  constant_time_equal, replicate, saturating_deadline,
}

abbrev pub attempt_ttl_ms : ℕ
attempt_ttl_ms = 30_000

pub data PresenceOperation : Type 0 where
  trusted_browser_unlock initial_provisioning recovery : PresenceOperation
  browser_replacement vmk_rekey factory_reset : PresenceOperation

pub data PresenceState : Type 0 where
  idle awaiting confirmed : PresenceState

pub record UserPresenceGate : Type 0 where
  pub state : PresenceState
  pub operation : PresenceOperation
  pub attempt_id : Bytes
  pub expires_at_ms : ℕ
  pub input_generation_at_start : ℕ
  pub neutral_samples : ℕ
  pub input_armed : Bool
  pub last_input_pressed : Bool
  pub post_arm_press_edge : Bool

-- The member initialisers, and what `clear` leaves: an attempt id is 16 bytes.
abbrev pub cleared : UserPresenceGate
cleared = record {
  state = idle;
  operation = trusted_browser_unlock;
  attempt_id = replicate 16 0;
  expires_at_ms = 0;
  input_generation_at_start = 0;
  neutral_samples = 0;
  input_armed = false;
  last_input_pressed = false;
  post_arm_press_edge = false;
}

abbrev pub clear : UserPresenceGate → UserPresenceGate
clear g = cleared

abbrev pub is_idle : PresenceState → Bool
is_idle idle = true
is_idle _ = false

abbrev pub is_awaiting : PresenceState → Bool
is_awaiting awaiting = true
is_awaiting _ = false

abbrev pub is_confirmed : PresenceState → Bool
is_confirmed confirmed = true
is_confirmed _ = false

-- Its result is always true.
unfoldable pub begin : PresenceOperation → Bytes → ℕ → ℕ → UserPresenceGate → UserPresenceGate
begin operation attempt_id now_ms input_generation g = record (clear g) {
  operation = operation;
  attempt_id = attempt_id;
  expires_at_ms = saturating_deadline now_ms attempt_ttl_ms;
  input_generation_at_start = input_generation;
  state = awaiting;
}

-- The branch before the gate is armed.
arm : Bool → UserPresenceGate → UserPresenceGate
arm pressed g =
    let watched = record g { post_arm_press_edge = false; last_input_pressed = pressed } in
    let samples =
      (if ltb watched.neutral_samples 2
        then watched.neutral_samples + 1
        else watched.neutral_samples) in
    if pressed
    then record watched { neutral_samples = 0 }
    else if leb 2 samples
    then record watched {
      neutral_samples = samples;
      input_armed = true;
      last_input_pressed = false;
    }
    else record watched { neutral_samples = samples }

unfoldable pub observe_input_state : Bool → UserPresenceGate → UserPresenceGate
unfolding arm
observe_input_state pressed g =
    if not (is_awaiting g.state) then g else if not g.input_armed then arm pressed g else record g {
      post_arm_press_edge =
          (if pressed && not g.last_input_pressed
            then true
            else if not pressed
            then false
            else g.post_arm_press_edge);
      last_input_pressed = pressed;
    }

unfoldable pub expire : ℕ → UserPresenceGate → UserPresenceGate × Bool
expire now_ms g =
    if is_idle g.state || ltb now_ms g.expires_at_ms then (g, false) else (clear g, true)

-- The body behind the expiry check.
confirm_live : ℕ → UserPresenceGate → UserPresenceGate × Bool
confirm_live input_generation g =
    if not g.input_armed || not g.post_arm_press_edge
    then (g, false)
    else if leb input_generation g.input_generation_at_start
    then (record g { post_arm_press_edge = false }, false)
    else (record g { post_arm_press_edge = false; state = confirmed }, true)

unfoldable pub confirm_current : ℕ → ℕ → UserPresenceGate → UserPresenceGate × Bool
unfolding expire confirm_live
confirm_current now_ms input_generation g =
    let (g', expired) = expire now_ms g in
    if expired || not (is_awaiting g'.state) then (g', false) else confirm_live input_generation g'

unfoldable pub consume_confirmation : Bytes → ℕ → UserPresenceGate → UserPresenceGate × Bool
unfolding expire
consume_confirmation attempt_id now_ms g =
    let (g', expired) = expire now_ms g in
    if expired || not (is_confirmed g'.state)
    then (g', false)
    else if not (constant_time_equal attempt_id g'.attempt_id)
    then (clear g', false)
    else (clear g', true)

abbrev pub cancel : UserPresenceGate → UserPresenceGate
cancel g = clear g

abbrev pub active : UserPresenceGate → Bool
active g = not (is_idle g.state)
