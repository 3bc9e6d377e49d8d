-- ===== src/Time/Ntp.antt =====
-- What a network sample may do to the clock.
use m5authenticator.Prelude.{ℕ, ◌+◌, ◌≤◌, ◌≡◌, ◌⊎◌, true, false, some, arith, u64_max}
use m5authenticator.Prelude.Int.{ℤ}
use m5authenticator.Time.{
  TrustedClock, ntp, mark_synchronized, accept_ntp_sample, ntp_admissible, current_unix_seconds,
  elapsed_us, max_ntp_jump_seconds,
}

-- A refused sample leaves the clock as it was; an accepted one makes it the anchor, from the
-- source ntp.
accept_ntp_sample_anchor :
    (s : ℕ) (m : ℤ) (c : TrustedClock)
    → (((accept_ntp_sample s m c).1 ≡ false) × ((accept_ntp_sample s m c).0 ≡ c))
      ⊎ (((accept_ntp_sample s m c).1 ≡ true)
          × ((accept_ntp_sample s m c).0 ≡ mark_synchronized s m ntp c))
unfolding accept_ntp_sample
accept_ntp_sample_anchor s m c = ground arith

-- While the clock gives a time, an accepted network sample moves that time by at most
-- 300 seconds, either way, and the clock still gives a time.
pub accept_ntp_sample_jump :
    (s : ℕ) (m : ℤ) (c : TrustedClock) {t : ℕ}
    → current_unix_seconds m c ≡ some t
    → (accept_ntp_sample s m c).1 ≡ true
    → s ≤ u64_max
    → (current_unix_seconds m (accept_ntp_sample s m c).0 ≡ some s)
      × (s ≤ t + max_ntp_jump_seconds)
      × (t ≤ s + max_ntp_jump_seconds)
unfolding accept_ntp_sample ntp_admissible current_unix_seconds elapsed_us
accept_ntp_sample_jump s m c h a b = ground arith

-- While the clock gives a time, it accepts every network sample within 300 seconds of that time.
accept_ntp_sample_near :
    (s : ℕ) (m : ℤ) (c : TrustedClock) {t : ℕ}
    → current_unix_seconds m c ≡ some t
    → s ≤ t + max_ntp_jump_seconds
    → t ≤ s + max_ntp_jump_seconds
    → (accept_ntp_sample s m c).1 ≡ true
unfolding accept_ntp_sample ntp_admissible current_unix_seconds
accept_ntp_sample_near s m c h a b = ground arith
