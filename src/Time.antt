-- ===== src/Time.antt =====
-- firmware/components/m5auth_time/trusted_time.cpp: the clock that turns one trusted anchor and
-- the monotonic timer into Unix time. The mutex is not modelled: each method is one step.
-- A `std::int64_t` is an integer; the difference of two readings of the timer is taken to fit.
pub mod Reading
pub mod Ntp
pub mod Service
mod Tests
use m5authenticator.Prelude.{
  ℕ, ◌+◌, ◌-◌, ◌*◌, ◌/◌, Bool, true, false, Option, none, some, ltb, leb, if◌then◌else◌, u64_max,
}
use m5authenticator.Prelude.Int.{ℤ, pos, negsuc, ◌-ℤ◌, ltb_ℤ}

abbrev pub resync_interval_seconds : ℕ
resync_interval_seconds = 6 * 60 * 60

abbrev pub stale_after_seconds : ℕ
stale_after_seconds = 24 * 60 * 60

abbrev pub max_ntp_jump_seconds : ℕ
max_ntp_jump_seconds = 300

pub data Readiness : Type 0 where
  not_synced ready stale : Readiness

-- `kNone` is `no_source`.
pub data Source : Type 0 where
  no_source ntp usb : Source

pub record Snapshot : Type 0 where
  pub readiness : Readiness
  pub source : Source
  pub last_sync_unix_seconds : ℕ
  pub age_seconds : ℕ
  pub resync_due : Bool

pub record TrustedClock : Type 0 where
  pub synchronized : Bool
  pub base_unix_seconds : ℕ
  pub base_monotonic_us : ℤ
  pub source : Source

-- The member initialisers.
abbrev pub initial_clock : TrustedClock
initial_clock = record {
  synchronized = false;
  base_unix_seconds = 0;
  base_monotonic_us = pos 0;
  source = no_source;
}

unfoldable pub elapsed_us : ℤ → ℤ → ℤ
elapsed_us now base = if ltb_ℤ now base then negsuc 0 else now -ℤ base

unfoldable pub mark_synchronized : ℕ → ℤ → Source → TrustedClock → TrustedClock
mark_synchronized unix_seconds monotonic_us source c = record {
  synchronized = true;
  base_unix_seconds = unix_seconds;
  base_monotonic_us = monotonic_us;
  source = source;
}

-- The base plus the elapsed whole seconds, or nothing where the sum would pass 2^64 - 1.
unfoldable pub project : ℕ → ℕ → Option ℕ
project base seconds = if ltb (u64_max - seconds) base then none else some (base + seconds)

-- `delta > kMaxNtpJumpSeconds` is refused.
unfoldable pub within_jump : ℕ → ℕ → Bool
within_jump unix_seconds projected =
    let delta =
      (if leb projected unix_seconds then unix_seconds - projected else projected - unix_seconds) in
    if ltb max_ntp_jump_seconds delta then false else true

-- The checks on a sample where the clock has an anchor.
unfoldable pub ntp_admissible : ℕ → ℤ → TrustedClock → Bool
unfolding project within_jump
ntp_admissible unix_seconds monotonic_us c = elim (elapsed_us monotonic_us c.base_monotonic_us) [
  | negsuc _ ↦ false
  | pos elapsed ↦ elim (project c.base_unix_seconds (elapsed / 1_000_000)) [
    | none ↦ false
    | some projected ↦ within_jump unix_seconds projected
  ]
]

unfoldable pub accept_ntp_sample : ℕ → ℤ → TrustedClock → TrustedClock × Bool
unfolding mark_synchronized
accept_ntp_sample unix_seconds monotonic_us c =
    if (if c.synchronized then ntp_admissible unix_seconds monotonic_us c else true)
    then (mark_synchronized unix_seconds monotonic_us ntp c, true)
    else (c, false)

abbrev empty_snapshot : Snapshot
empty_snapshot = record {
  readiness = not_synced;
  source = no_source;
  last_sync_unix_seconds = 0;
  age_seconds = 0;
  resync_due = false;
}

unfoldable pub snapshot : ℤ → TrustedClock → Snapshot
snapshot monotonic_us c =
    let anchored = record empty_snapshot {
      source = c.source;
      last_sync_unix_seconds = c.base_unix_seconds;
    } in
    let aged : Snapshot = elim (elapsed_us monotonic_us c.base_monotonic_us) [
      | negsuc _ ↦ record anchored { readiness = stale; resync_due = true }
      | pos elapsed ↦ record anchored {
        readiness = (if ltb (stale_after_seconds * 1_000_000) elapsed then stale else ready);
        age_seconds = elapsed / 1_000_000;
        resync_due = leb (resync_interval_seconds * 1_000_000) elapsed;
      }
    ] in
    if c.synchronized then aged else empty_snapshot

-- `none` is the result false; the output pointer is taken to be given.
unfoldable pub current_unix_seconds : ℤ → TrustedClock → Option ℕ
unfolding project
current_unix_seconds monotonic_us c =
    let reading : Option ℕ = elim (elapsed_us monotonic_us c.base_monotonic_us) [
      | negsuc _ ↦ none
      | pos elapsed ↦
          if ltb (stale_after_seconds * 1_000_000) elapsed
          then none
          else project c.base_unix_seconds (elapsed / 1_000_000)
    ] in
    if c.synchronized then reading else none
