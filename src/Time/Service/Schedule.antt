-- ===== src/Time/Service/Schedule.antt =====
-- When the clock is synchronized: the methods of `TimeService` that the firmware calls (canonical_time_service.cpp).
use m5authenticator.Prelude.{ℕ, zero, suc, ◌*◌, Bool, true, false, not, ◌&&◌, if◌then◌else◌}
use m5authenticator.Prelude.Int.{ℤ, pos, negsuc, ◌-ℤ◌, ltb_ℤ}
use m5authenticator.Vault.Crypto.{AesGcm}
use m5authenticator.VaultRuntime.{Persistence, is_unlocked_now}
use m5authenticator.Time.{
  TrustedClock, Readiness, not_synced, accept_ntp_sample, mark_synchronized, usb,
  resync_interval_seconds,
}
use m5authenticator.Time
use m5authenticator.Time.Service.{
  Wifi, SyncResult, sync_ntp_once, TimeService, teardown_network, not_configured, with_world,
  initial_ntp_retry_seconds, not_due, acceptable_unix_seconds, invalid_time, sync_locked,
  internal_error, sync_ok,
}
use m5authenticator.Time.Service.{
  sync_ok, not_configured, sync_locked, internal_error, not_due, invalid_time,
}

module _ {P W : Type 0} (persistence : Persistence P) (gcm : AesGcm) (wifi : Wifi W) where
  -- The results on which `boot_sync` does not try again.
  abbrev pub final : SyncResult → Bool
  final sync_ok = true
  final not_configured = true
  final sync_locked = true
  final internal_error = true
  final _ = false

  -- The pause in front of the attempts that are left: one second, then three.
  unfoldable pub boot_backoff : ℕ → W → W
  boot_backoff zero w = w
  boot_backoff (suc zero) w = wifi.delay 3_000 w
  boot_backoff (suc (suc n)) w = wifi.delay 1_000 w

  -- The attempts that are left.
  unfoldable pub boot_attempts : ℕ → SyncResult → TimeService P W → SyncResult × TimeService P W
  unfolding sync_ntp_once boot_backoff
  boot_attempts zero result s = (result, s)
  boot_attempts (suc left) result s =
      let (next, s1) = sync_ntp_once persistence gcm wifi s in
      let paused = record s1 { world = boot_backoff left s1.world } in
      let rest = boot_attempts left next paused in if final next then (next, s1) else rest

  unfoldable pub boot_sync : TimeService P W → SyncResult × TimeService P W
  unfolding boot_attempts
  boot_sync s = boot_attempts 3 not_configured s

  unfoldable pub sync_from_usb : ℕ → TimeService P W → SyncResult × TimeService P W
  sync_from_usb unix_seconds s =
      let (set, s1) = with_world persistence gcm wifi (wifi.set_time_of_day unix_seconds) s in
      if not (acceptable_unix_seconds unix_seconds)
      then (invalid_time, s)
      else if not (is_unlocked_now s.runtime.0)
      then (sync_locked, s)
      else if not set
      then (internal_error, s1)
      else (
        sync_ok,
        record s1 {
          clock = mark_synchronized unix_seconds (wifi.monotonic_us s1.world) usb s1.clock;
        },
      )

  abbrev pub is_not_synced : Readiness → Bool
  is_not_synced not_synced = true
  is_not_synced _ = false

  -- An attempt was made, less than these seconds ago.
  unfoldable pub too_early : ℤ → ℤ → ℕ → Bool
  too_early last now seconds =
      not (ltb_ℤ last (pos 0)) && ltb_ℤ (now -ℤ last) (pos (seconds * 1_000_000))

  -- The attempts while the clock has no time.
  unfoldable pub initial_resync : ℤ → TimeService P W → SyncResult × TimeService P W
  unfolding too_early sync_ntp_once
  initial_resync now s =
      let (result, s1) = sync_ntp_once persistence gcm wifi s in
      if too_early s.last_initial_attempt_us now initial_ntp_retry_seconds
      then (not_due, s)
      else (result, record s1 { last_initial_attempt_us = last result s1 })
    where
      last : SyncResult → TimeService P W → ℤ
      last sync_ok s1 = negsuc 0
      last sync_locked s1 = s1.last_initial_attempt_us
      last _ s1 = now

  unfoldable pub periodic_resync : ℤ → TimeService P W → SyncResult × TimeService P W
  unfolding too_early sync_ntp_once
  periodic_resync now s =
      let synced =
        sync_ntp_once persistence gcm wifi (record s { last_periodic_attempt_us = now }) in
      if not (Time.snapshot now s.clock).resync_due
      then (not_due, s)
      else if too_early s.last_periodic_attempt_us now resync_interval_seconds
      then (not_due, s)
      else synced

  -- The first number is the reading of the timer before the lock is taken.
  unfoldable pub resync_if_due : ℤ → TimeService P W → SyncResult × TimeService P W
  unfolding initial_resync periodic_resync
  resync_if_due before_lock s =
      let before = Time.snapshot before_lock s.clock in
      let now = wifi.monotonic_us s.world in
      let initial = initial_resync now s in
      let periodic = periodic_resync now s in
      if not (is_not_synced before.readiness) && not before.resync_due
      then (not_due, s)
      else if is_not_synced (Time.snapshot now s.clock).readiness
      then initial
      else periodic

  -- `with_secret_boundary`, with what the caller's function does.
  unfoldable pub with_secret_boundary :
      (TimeService P W → TimeService P W) → TimeService P W → TimeService P W
  unfolding teardown_network
  with_secret_boundary callback s = callback (teardown_network persistence gcm wifi s)
