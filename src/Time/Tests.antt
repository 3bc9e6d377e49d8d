-- ===== src/Time/Tests.antt =====
-- Runs of the clock on concrete readings.
use m5authenticator.Prelude.{◌≡◌, refl, true, false, none, some, arith, Bool}
use m5authenticator.Prelude.Int.{pos}
use m5authenticator.Time.{
  TrustedClock, initial_clock, usb, ready, stale, snapshot, current_unix_seconds, accept_ntp_sample,
  ntp_admissible, elapsed_us,
}
use m5authenticator.Time.Ntp.{accept_ntp_sample_jump}

-- Set by the host 5 seconds after boot.
abbrev anchored : TrustedClock
anchored = record {
  synchronized = true;
  base_unix_seconds = 1_700_000_000;
  base_monotonic_us = pos 5_000_000;
  source = usb;
}

reads_anchored : current_unix_seconds (pos 65_500_000) anchored ≡ some 1_700_000_060
unfolding current_unix_seconds elapsed_us
reads_anchored = refl

unset : current_unix_seconds (pos 0) initial_clock ≡ none
unfolding current_unix_seconds
unset = refl

-- A timer that runs backwards makes the clock stale.
backwards : (snapshot (pos 4_999_999) anchored).readiness ≡ stale
unfolding snapshot elapsed_us
backwards = refl

far_sample : (accept_ntp_sample 1_700_000_361 (pos 65_500_000) anchored).1 ≡ false
unfolding accept_ntp_sample ntp_admissible elapsed_us
far_sample = refl

near_sample : (accept_ntp_sample 1_700_000_360 (pos 65_500_000) anchored).1 ≡ true
unfolding accept_ntp_sample ntp_admissible elapsed_us
near_sample = refl

is_ready : (snapshot (pos 65_500_000) anchored).readiness ≡ ready
unfolding snapshot elapsed_us
is_ready = refl

abbrev sampled : TrustedClock × Bool
sampled = accept_ntp_sample 1_700_000_360 (pos 65_500_000) anchored

accept_ntp_sample_jump_example :
    current_unix_seconds
      (pos 65_500_000)
      (accept_ntp_sample 1_700_000_360 (pos 65_500_000) anchored).0
    ≡ some 1_700_000_360
accept_ntp_sample_jump_example =
    (accept_ntp_sample_jump 1_700_000_360 (pos 65_500_000) anchored reads_anchored near_sample
      (ground arith)).0
