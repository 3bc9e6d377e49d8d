-- ===== src/Time/Reading.antt =====
-- When the clock gives a time, and how the readings of one anchor move.
use m5authenticator.Prelude.{ℕ, ◌+◌, ◌≤◌, ◌≡◌, ◌↔◌, false, some, arith, u64_max}
use m5authenticator.Prelude.Int.{ℤ, ltb_ℤ}
use m5authenticator.Time.{TrustedClock, ready, snapshot, current_unix_seconds, elapsed_us, project}

-- The clock gives the time t exactly when its snapshot says ready, t is the anchor plus the age
-- that the snapshot reports, and t is a 64-bit number.
pub current_unix_seconds-snapshot :
    (m : ℤ) (c : TrustedClock) (t : ℕ)
    → (current_unix_seconds m c ≡ some t) ↔ (
        ((snapshot m c).readiness ≡ ready)
        × ((snapshot m c).last_sync_unix_seconds + (snapshot m c).age_seconds ≡ t)
        × (t ≤ u64_max))
unfolding current_unix_seconds snapshot project
current_unix_seconds-snapshot m c t = (λ h. ground arith, λ h. ground arith)

-- A later reading of the timer under the same anchor gives no earlier time.
current_unix_seconds_mono :
    (m n : ℤ) (c : TrustedClock) {t u : ℕ}
    → ltb_ℤ n m ≡ false
    → current_unix_seconds m c ≡ some t
    → current_unix_seconds n c ≡ some u
    → t ≤ u
unfolding current_unix_seconds elapsed_us project
current_unix_seconds_mono m n c h p q = ground arith
