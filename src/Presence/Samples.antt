-- ===== src/Presence/Samples.antt =====
-- The gate that is shown nothing but samples of the button, as the Device's loop does while a
-- request waits. Histories are newest first.
use m5authenticator.Prelude.{
  ℕ, ◌<◌, ◌≡◌, ◌↔◌, Bool, true, false, not, ◌&&◌, ◌||◌, if◌then◌else◌, List, [], ◌∷◌, Bytes, arith,
  saturating_deadline, refl, constant_time_equal_iff,
}
use m5authenticator.Presence.{
  UserPresenceGate, PresenceOperation, awaiting, attempt_ttl_ms, begin, observe_input_state,
  confirm_current, cleared, consume_confirmation,
}
use m5authenticator.Presence.Gesture.{Released}

abbrev pub sampled : List Bool → UserPresenceGate → UserPresenceGate
sampled [] g = g
sampled (pressed ∷ h) g = observe_input_state pressed (sampled h g)

-- The last sample shows the button pressed, and before it there are two released ones in a row.
abbrev pub PressedNow : List Bool → Type 0
PressedNow [] = ⊥
PressedNow (pressed ∷ h) = (pressed ≡ true) × Released h

down : List Bool → Bool
down [] = false
down (pressed ∷ h) = pressed

up : List Bool → Bool
up [] = false
up (pressed ∷ h) = not pressed

released : List Bool → Bool
unfolding up
released [] = false
released (pressed ∷ h) = not pressed && up h || released h

pressed_now : List Bool → Bool
unfolding released
pressed_now [] = false
pressed_now (pressed ∷ h) = pressed && released h

module _ (operation : PresenceOperation) (id : Bytes) (start generation : ℕ) where
  -- The gate after the samples of a history.
  seen : List Bool → UserPresenceGate
  unfolding down up released pressed_now
  seen h = record cleared {
    operation = operation;
    attempt_id = id;
    expires_at_ms = saturating_deadline start attempt_ttl_ms;
    input_generation_at_start = generation;
    state = awaiting;
    neutral_samples = (if released h then 2 else if up h then 1 else 0);
    input_armed = released h;
    last_input_pressed = down h;
    post_arm_press_edge = pressed_now h;
  }

  begin-seen : (g : UserPresenceGate) → begin operation id start generation g ≡ seen []
  unfolding begin seen
  begin-seen g = refl

  observe-seen :
      (pressed : Bool) (h : List Bool) → observe_input_state pressed (seen h) ≡ seen (pressed ∷ h)
  unfolding observe_input_state seen
  observe-seen pressed [] = ground arith
  observe-seen pressed (b ∷ h) = ground arith

  sampled-seen :
      (h : List Bool) (g : UserPresenceGate)
      → sampled h (begin operation id start generation g) ≡ seen h
  sampled-seen [] g = begin-seen g
  sampled-seen (pressed ∷ h) g = rw (sampled-seen h g) (observe-seen pressed h)

released→Released : (h : List Bool) → released h ≡ true → Released h
unfolding released
released→Released [] e = cc
released→Released (pressed ∷ []) e = ground arith
released→Released (false ∷ false ∷ h) e = Released.now h
released→Released (true ∷ b ∷ h) e = Released.before true (released→Released (b ∷ h) e)
released→Released (false ∷ true ∷ h) e = Released.before false (released→Released (true ∷ h) e)

Released→released : {h : List Bool} → Released h → released h ≡ true
unfolding released
Released→released (Released.now h) = refl
Released→released (Released.before b {h} r) = ground (arith, Released→released r)

pressed_now→PressedNow : (h : List Bool) → pressed_now h ≡ true → PressedNow h
unfolding pressed_now
pressed_now→PressedNow [] e = cc
pressed_now→PressedNow (pressed ∷ h) e = (ground arith, released→Released h (ground arith))

PressedNow→pressed_now : (h : List Bool) → PressedNow h → pressed_now h ≡ true
unfolding pressed_now
PressedNow→pressed_now [] p = absurd p
PressedNow→pressed_now (pressed ∷ h) p = ground (arith, Released→released p.1)

module _ (operation : PresenceOperation) (id : Bytes) (start generation : ℕ) where
  -- After `begin` and samples of the button alone: the gate confirms exactly when the last sample
  -- shows the button pressed, two released samples in a row came before it, the deadline of the
  -- request has not come, and the input generation has grown since the request began.
  pub sampled-confirm_current_iff :
      (g : UserPresenceGate) (h : List Bool) (now_ms input_generation : ℕ)
      → ((confirm_current now_ms input_generation
            (sampled h (begin operation id start generation g))).1
          ≡ true)
        ↔ ((now_ms < saturating_deadline start attempt_ttl_ms)
            × (generation < input_generation)
            × PressedNow h)
  unfolding confirm_current seen
  sampled-confirm_current_iff g h now_ms input_generation =
      rw (sampled-seen operation id start generation h g) (
        (
          λ e. ground (arith, pressed_now→PressedNow h),
          λ p. ground (arith, PressedNow→pressed_now h),
        ))

  -- After a confirmation that such samples allow, the attempt consumes it in time.
  pub sampled-consume_confirmation :
      (g : UserPresenceGate) (h : List Bool) (now_ms later_ms input_generation : ℕ)
      → PressedNow h
      → now_ms < saturating_deadline start attempt_ttl_ms
      → later_ms < saturating_deadline start attempt_ttl_ms
      → generation < input_generation
      → (consume_confirmation id later_ms
          (confirm_current now_ms input_generation
            (sampled h (begin operation id start generation g))).0).1
        ≡ true
  unfolding confirm_current consume_confirmation seen
  sampled-consume_confirmation g h now_ms later_ms input_generation p a b c =
      rw (sampled-seen operation id start generation h g)
        (ground (arith, PressedNow→pressed_now h p, (constant_time_equal_iff id id).1 refl))
