-- ===== src/Presence/Quarantine.antt =====
-- `PresenceGestureQuarantine`: the time for which the gesture that approved a request is kept
-- from the buttons' other meanings.
use m5authenticator.Prelude.{
  ℕ, ◌+◌, ◌-◌, Bool, true, false, not, List, [], ◌∷◌, ltb, leb, if◌then◌else◌, ◌≡◌, arith, ◌<◌,
  refl, sym, ◌∙◌, ◌↔◌, ◌⊎◌, inl, inr, Bool-cases,
}

pub record PresenceGestureQuarantine : Type 0 where
  pub active : Bool
  pub release_observed : Bool
  pub release_observed_at_ms : ℕ
  pub click_decision_timeout_ms : ℕ

abbrev pub cancelled : PresenceGestureQuarantine
cancelled = record {
  active = false;
  release_observed = false;
  release_observed_at_ms = 0;
  click_decision_timeout_ms = 0;
}

unfoldable pub begin : ℕ → ℕ → PresenceGestureQuarantine → PresenceGestureQuarantine
begin now_ms click_decision_timeout_ms q = record {
  active = true;
  release_observed = false;
  release_observed_at_ms = now_ms;
  click_decision_timeout_ms = click_decision_timeout_ms;
}

unfoldable pub observe : Bool → Bool → ℕ → PresenceGestureQuarantine → PresenceGestureQuarantine
observe pressed deciding_click_count now_ms q =
    if not q.active
    then q
    else if pressed
    then record q { release_observed = false }
    else if not q.release_observed
    then record q { release_observed = true; release_observed_at_ms = now_ms }
    else if deciding_click_count
    then q
    else if ltb now_ms q.release_observed_at_ms
    then q
    else if leb (now_ms - q.release_observed_at_ms) q.click_decision_timeout_ms
    then q
    else cancelled

-- One sample of the main loop: the button, the click decoder, and the time.
pub record Sample : Type 0 where
  pub pressed : Bool
  pub deciding_click_count : Bool
  pub at_ms : ℕ

-- The samples newest first.
unfoldable pub observe_all : List Sample → PresenceGestureQuarantine → PresenceGestureQuarantine
observe_all [] q = q
observe_all (s ∷ h) q = observe s.pressed s.deciding_click_count s.at_ms (observe_all h q)

-- The newest of the samples, if there is one, shows the button down.
abbrev pub Fresh : List Sample → Type 0
Fresh [] = Unit {0}
Fresh (s ∷ h) = s.pressed ≡ true

-- The samples end in a run of samples with the button up, the oldest of which was taken at time t.
abbrev pub UpSince : ℕ → List Sample → Type 0
UpSince t [] = ⊥
UpSince t (s ∷ h) = (s.pressed ≡ false) × ((Fresh h × (s.at_ms ≡ t)) ⊎ UpSince t h)

-- The sample shows the button up and the click count decided, and a run of the samples in front of it
-- with the button up began more than the timeout earlier.
abbrev pub Ends : ℕ → Sample → List Sample → Type 0
Ends timeout s h =
    (s.pressed ≡ false)
    × (s.deciding_click_count ≡ false)
    × ((t : ℕ) × UpSince t h × (t + timeout < s.at_ms))

-- One of the samples was such.
abbrev pub Lifted : ℕ → List Sample → Type 0
Lifted timeout [] = ⊥
Lifted timeout (s ∷ h) = Ends timeout s h ⊎ Lifted timeout h

Fresh-UpSince : (t : ℕ) (h : List Sample) → Fresh h → ¬ UpSince t h
Fresh-UpSince t [] f u = u
Fresh-UpSince t (s ∷ h) f u = cc (f, u.0)

UpSince_unique : (t t' : ℕ) (h : List Sample) → UpSince t h → UpSince t' h → t ≡ t'
UpSince_unique t t' [] u u' = absurd u
UpSince_unique t t' (s ∷ h) (up, inl (f, e)) (up', inl (f', e')) = sym e ∙ e'
UpSince_unique t t' (s ∷ h) (up, inl (f, e)) (up', inr u') = absurd (Fresh-UpSince t' h f u')
UpSince_unique t t' (s ∷ h) (up, inr u) (up', inl (f, e)) = absurd (Fresh-UpSince t h f u)
UpSince_unique t t' (s ∷ h) (up, inr u) (up', inr u') = UpSince_unique t t' h u u'

-- What an active quarantine remembers of the samples since it began.
record Tracks (timeout : ℕ) (h : List Sample) (q : PresenceGestureQuarantine) : Type 0 where
  up : q.active ≡ true → q.release_observed ≡ true → UpSince q.release_observed_at_ms h
  down : q.active ≡ true → q.release_observed ≡ false → Fresh h
  kept : q.active ≡ true → q.click_decision_timeout_ms ≡ timeout

observe-Tracks :
    (timeout : ℕ) (s : Sample) (h : List Sample) (q : PresenceGestureQuarantine)
    → Tracks timeout h q
    → Tracks timeout (s ∷ h) (observe s.pressed s.deciding_click_count s.at_ms q)
unfolding observe
observe-Tracks timeout s h q t = elim (Bool-cases q.release_observed) [
  | inl e ↦ record {
    up = λ on r. ground arith;
    down = λ on r. ground arith;
    kept = λ on. ground arith;
  }
  | inr e ↦ record {
    up = λ on r. ground arith;
    down = λ on r. ground arith;
    kept = λ on. ground arith;
  }
]

-- What one sample does to an active quarantine.
observe_ends :
    (s : Sample) (q : PresenceGestureQuarantine)
    → q.active ≡ true
    → ((observe s.pressed s.deciding_click_count s.at_ms q).active ≡ false) ↔ (
        (s.pressed ≡ false)
        × (s.deciding_click_count ≡ false)
        × (q.release_observed ≡ true)
        × (q.release_observed_at_ms + q.click_decision_timeout_ms < s.at_ms))
unfolding observe
observe_ends s q on = ground arith

observe_inactive :
    (s : Sample) (q : PresenceGestureQuarantine)
    → q.active ≡ false
    → (observe s.pressed s.deciding_click_count s.at_ms q).active ≡ false
unfolding observe
observe_inactive s q off = ground arith

module _ (start timeout : ℕ) (before : PresenceGestureQuarantine) where
  abbrev since : List Sample → PresenceGestureQuarantine
  since h = observe_all h (begin start timeout before)

  since-Tracks : (h : List Sample) → Tracks timeout h (since h)
  unfolding observe_all begin
  since-Tracks [] = record { up = λ on e. cc; down = λ on e. tt; kept = λ on. refl }
  since-Tracks (s ∷ h) = observe-Tracks timeout s h (since h) (since-Tracks h)

  -- The sample that ends an active quarantine, by the samples alone.
  since-Ends :
      (s : Sample) (h : List Sample)
      → (since h).active ≡ true
      → ((since (s ∷ h)).active ≡ false) ↔ Ends timeout s h
  unfolding observe_all
  since-Ends s h on =
      let q = since h in
      let v = since-Tracks h in
      let (ends, ended) = observe_ends s q on in
      let k = v.kept on in
      (
        λ e.
            let (up, decided, released, late) = ends e in
            (up, decided, (q.release_observed_at_ms, v.up on released, ground arith)),
        λ (up, decided, (t, u, late)). elim (Bool-cases q.release_observed) [
          | inr e ↦ absurd (Fresh-UpSince t h (v.down on e) u)
          | inl e ↦
              let same = UpSince_unique t q.release_observed_at_ms h u (v.up on e) in
              ended (up, decided, e, ground arith)
        ],
      )

  inactive_stays :
      (s : Sample) (h : List Sample) → (since h).active ≡ false → (since (s ∷ h)).active ≡ false
  unfolding observe_all
  inactive_stays s h off = observe_inactive s (since h) off

  -- After `begin`, whatever the samples, their order and their times: the quarantine is over exactly when
  -- some sample so far has shown the button up and the click count decided, and the samples in front of
  -- it, back to the beginning of the quarantine, end in an unbroken run with the button up whose oldest
  -- sample was taken more than the timeout earlier. So the first such sample ends the quarantine, and
  -- nothing else does.
  pub observe_all_lifts :
      (h : List Sample)
      → ((observe_all h (begin start timeout before)).active ≡ false) ↔ Lifted timeout h
  unfolding observe_all
  observe_all_lifts [] = (unfold begin in λ e. cc, λ e. absurd e)
  observe_all_lifts (s ∷ h) =
      let (over, lifted) = observe_all_lifts h in
      elim (Bool-cases (since h).active) [
        | inl on ↦
            let (ends, ended) = since-Ends s h on in
            (
              λ e. inl (ends e),
              λ l. elim l [ inl now ↦ ended now | inr past ↦ inactive_stays s h (lifted past) ],
            )
        | inr off ↦ (λ e. inr (over off), λ l. inactive_stays s h off)
      ]
