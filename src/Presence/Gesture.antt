-- ===== src/Presence/Gesture.antt =====
-- The gesture behind a confirmation: in the samples of the button since `begin`, two released
-- ones in a row, and a press after them. Histories are newest first.
use m5authenticator.Prelude.{ℕ, Bool, true, false, List, [], ◌∷◌, Bytes, ◌≡◌, arith, ◌⊎◌, inl, refl}
use m5authenticator.Presence.{
  UserPresenceGate, PresenceOperation, begin, observe_input_state, expire, confirm_current,
  consume_confirmation, cancel, cleared, idle, confirmed,
}

-- Two released samples in a row.
pub data Released : List Bool → Type 0 where
  now : (h : List Bool) → Released (false ∷ false ∷ h)
  before : (b : Bool) {h : List Bool} → Released h → Released (b ∷ h)

-- A press that comes after them.
pub data Pressed : List Bool → Type 0 where
  now : {h : List Bool} → Released h → Pressed (true ∷ h)
  before : (b : Bool) {h : List Bool} → Pressed h → Pressed (b ∷ h)

-- What a gate can become after one `begin`, with the samples that it was shown.
pub data Reach (operation : PresenceOperation) (id : Bytes) (start generation : ℕ)
    : List Bool → UserPresenceGate → Type 0 where
  begun :
      (g : UserPresenceGate)
      → Reach operation id start generation [] (begin operation id start generation g)
  observed :
      {h : List Bool} {g : UserPresenceGate} (pressed : Bool)
      → Reach operation id start generation h g
      → Reach operation id start generation (pressed ∷ h) (observe_input_state pressed g)
  confirms :
      {h : List Bool} {g : UserPresenceGate} (now_ms input_generation : ℕ)
      → Reach operation id start generation h g
      → Reach operation id start generation h (confirm_current now_ms input_generation g).0
  consumes :
      {h : List Bool} {g : UserPresenceGate} (attempt_id : Bytes) (now_ms : ℕ)
      → Reach operation id start generation h g
      → Reach operation id start generation h (consume_confirmation attempt_id now_ms g).0
  expires :
      {h : List Bool} {g : UserPresenceGate} (now_ms : ℕ)
      → Reach operation id start generation h g
      → Reach operation id start generation h (expire now_ms g).0
  cancels :
      {h : List Bool} {g : UserPresenceGate}
      → Reach operation id start generation h g
      → Reach operation id start generation h (cancel g)

abbrev LastReleased : List Bool → Type 0
LastReleased [] = ⊥
LastReleased (b ∷ h) = b ≡ false

Released-cons : (h : List Bool) → LastReleased h → Released (false ∷ h)
Released-cons [] e = absurd e
Released-cons (false ∷ h) e = Released.now h
Released-cons (true ∷ h) e = cc

Pressed-cons : (h : List Bool) → Released h → Pressed (true ∷ h)
Pressed-cons h r = Pressed.now r

Pressed-skip : (b : Bool) (h : List Bool) → Pressed h → Pressed (b ∷ h)
Pressed-skip b h p = Pressed.before b p

Released-skip : (b : Bool) (h : List Bool) → Released h → Released (b ∷ h)
Released-skip b h r = Released.before b r

-- What the fields of a gate say about the samples.
record Seen (h : List Bool) (g : UserPresenceGate) : Type 0 where
  armed : g.input_armed ≡ true → Released h
  full : g.input_armed ≡ true → g.neutral_samples ≡ 2
  half :
      g.input_armed ≡ false → (g.neutral_samples ≡ 0) ⊎ ((g.neutral_samples ≡ 1) × LastReleased h)
  quiet : g.state ≡ idle → (g.input_armed ≡ false) × (g.neutral_samples ≡ 0)
  edge : g.post_arm_press_edge ≡ true → (g.input_armed ≡ true) × Pressed h
  done : g.state ≡ confirmed → (g.input_armed ≡ true) × Pressed h

cleared-Seen : (h : List Bool) → Seen h cleared
cleared-Seen h = record {
  armed = λ e. cc;
  full = λ e. cc;
  half = λ e. inl refl;
  quiet = λ e. (refl, refl);
  edge = λ e. cc;
  done = λ e. cc;
}

observe-Seen :
    (pressed : Bool) (h : List Bool) (g : UserPresenceGate)
    → Seen h g
    → Seen (pressed ∷ h) (observe_input_state pressed g)
unfolding observe_input_state
observe-Seen pressed h g s = record {
  armed = λ e. ground (arith, Released-cons h, Released-skip pressed h);
  full = ground arith;
  half = ground arith;
  quiet = ground arith;
  edge = λ e. ground (arith, Pressed-skip pressed h, Pressed-cons h);
  done = λ e. ground (arith, Pressed-skip pressed h);
}

expire-Seen :
    (now_ms : ℕ) (h : List Bool) (g : UserPresenceGate) → Seen h g → Seen h (expire now_ms g).0
unfolding expire
expire-Seen now_ms h g s = ground (arith, cleared-Seen h)

confirm-Seen :
    (now_ms generation : ℕ) (h : List Bool) (g : UserPresenceGate)
    → Seen h g
    → Seen h (confirm_current now_ms generation g).0
unfolding confirm_current
confirm-Seen now_ms generation h g s = ground (arith, cleared-Seen h)

consume-Seen :
    (id : Bytes) (now_ms : ℕ) (h : List Bool) (g : UserPresenceGate)
    → Seen h g
    → Seen h (consume_confirmation id now_ms g).0
unfolding consume_confirmation
consume-Seen id now_ms h g s = ground (arith, cleared-Seen h)

begin-Seen :
    (operation : PresenceOperation) (id : Bytes) (start generation : ℕ) (g : UserPresenceGate)
    → Seen [] (begin operation id start generation g)
unfolding begin
begin-Seen operation id start generation g = record {
  armed = λ e. cc;
  full = λ e. cc;
  half = λ e. inl refl;
  quiet = λ e. cc;
  edge = λ e. cc;
  done = λ e. cc;
}

module _ {operation : PresenceOperation} {id : Bytes} {start generation : ℕ} where
  Reach-Seen :
      {h : List Bool} {g : UserPresenceGate} → Reach operation id start generation h g → Seen h g
  Reach-Seen (begun g) = begin-Seen operation id start generation g
  Reach-Seen (observed {h} {g} pressed r) = observe-Seen pressed h g (Reach-Seen r)
  Reach-Seen (confirms {h} {g} now_ms gen r) = confirm-Seen now_ms gen h g (Reach-Seen r)
  Reach-Seen (consumes {h} {g} a now_ms r) = consume-Seen a now_ms h g (Reach-Seen r)
  Reach-Seen (expires {h} {g} now_ms r) = expire-Seen now_ms h g (Reach-Seen r)
  Reach-Seen (cancels {h} {g} r) = cleared-Seen h

  pub Reach-confirmed :
      {h : List Bool} {g : UserPresenceGate}
      → Reach operation id start generation h g
      → g.state ≡ confirmed
      → Pressed h
  Reach-confirmed r e = ((Reach-Seen r).done e).1
