-- ===== src/Time/Service/Range/Schedule.antt =====
-- Lemmas on the synchronizations that the firmware calls.
use m5authenticator.Prelude.{ℕ, zero, suc, ◌≡◌, ◌≢◌, ◌∙◌, false, refl, inl, inr, arith, Bool-cases}
use m5authenticator.Prelude.Int.{ℤ}
use m5authenticator.Vault.Crypto.{AesGcm}
use m5authenticator.VaultRuntime.{Persistence}
use m5authenticator.Time.{
  TrustedClock, initial_clock, accept_ntp_sample, mark_synchronized, resync_interval_seconds,
}
use m5authenticator.Time
use m5authenticator.Time.Service.{
  Wifi, TimeService, SyncResult, sync_ok, sync_ntp_once, not_due, initial_ntp_retry_seconds,
}
use m5authenticator.Time.Service.Schedule.{
  boot_attempts, boot_backoff, sync_from_usb, initial_resync, periodic_resync, resync_if_due, final,
  too_early,
}
use m5authenticator.Time.Service.Driver.{Radio, at_rest, WifiLaws, Down}
use m5authenticator.Time.Service.Range.{sync_ntp_once-Syncs, Syncs, same-Syncs, InRange}

module _ {P W : Type 0} (persistence : Persistence P) (gcm : AesGcm) (wifi : Wifi W)
    (radio : W → Radio) (laws : WifiLaws wifi radio) where
  final-ok : (next : SyncResult) → final persistence gcm wifi next ≡ false → next ≢ sync_ok
  final-ok next e h = ground arith

  boot_backoff-radio :
      (left : ℕ) (w : W) → radio (boot_backoff persistence gcm wifi left w) ≡ radio w
  unfolding boot_backoff
  boot_backoff-radio zero w = refl
  boot_backoff-radio (suc zero) w = laws.delay_lem 3_000 w
  boot_backoff-radio (suc (suc n)) w = laws.delay_lem 1_000 w

  -- A failed attempt leaves the clock to the next one.
  pub boot_attempts-Syncs :
      (left : ℕ) (result : SyncResult) (s : TimeService P W)
      → Down persistence gcm wifi radio laws s
      → InRange s.clock
      → Syncs persistence gcm wifi radio laws s (boot_attempts persistence gcm wifi left result s)
  unfolding boot_attempts
  boot_attempts-Syncs zero result s down r =
      same-Syncs persistence gcm wifi radio laws result s s down r refl
  boot_attempts-Syncs (suc left) result s down r =
      let (next, s1) = sync_ntp_once persistence gcm wifi s in
      let v = sync_ntp_once-Syncs persistence gcm wifi radio laws s down r in
      elim (Bool-cases (final persistence gcm wifi next)) [
        | inl e ↦ rw e v
        | inr e ↦
            let quiet : radio (boot_backoff persistence gcm wifi left s1.world) ≡ at_rest =
              boot_backoff-radio left s1.world ∙ v.down.2 in
            let paused = record s1 { world = boot_backoff persistence gcm wifi left s1.world } in
            let w = boot_attempts-Syncs left next paused (v.down.0, v.down.1, quiet) v.range in
            rw e (record {
              down = w.down;
              range = w.range;
              unchanged = λ h. w.unchanged h ∙ v.unchanged (final-ok next e);
            })
      ]

  pub usb-Syncs :
      (n : ℕ) (s : TimeService P W)
      → Down persistence gcm wifi radio laws s
      → InRange s.clock
      → Syncs persistence gcm wifi radio laws s (sync_from_usb persistence gcm wifi n s)
  unfolding sync_from_usb mark_synchronized
  usb-Syncs n s down r = ground (arith, laws.set_time_of_day_lem n s.world)

  pub initial-Syncs :
      (now : ℤ) (s : TimeService P W)
      → Down persistence gcm wifi radio laws s
      → InRange s.clock
      → Syncs persistence gcm wifi radio laws s (initial_resync persistence gcm wifi now s)
  unfolding initial_resync
  initial-Syncs now s down r =
      let v = sync_ntp_once-Syncs persistence gcm wifi radio laws s down r in
      elim (Bool-cases
        (too_early persistence gcm wifi s.last_initial_attempt_us now initial_ntp_retry_seconds)) [
          | inl e ↦ rw e (same-Syncs persistence gcm wifi radio laws not_due s s down r refl)
          | inr e ↦ rw e (record { down = v.down; range = v.range; unchanged = v.unchanged })
        ]

  pub periodic-Syncs :
      (now : ℤ) (s : TimeService P W)
      → Down persistence gcm wifi radio laws s
      → InRange s.clock
      → Syncs persistence gcm wifi radio laws s (periodic_resync persistence gcm wifi now s)
  unfolding periodic_resync
  periodic-Syncs now s down r =
      let v =
        sync_ntp_once-Syncs persistence gcm wifi radio laws
          (record s { last_periodic_attempt_us = now }) down r in
      let none = same-Syncs persistence gcm wifi radio laws not_due s s down r refl in
      elim (Bool-cases (Time.snapshot now s.clock).resync_due) [
        | inr e ↦ rw e none
        | inl e ↦
            elim (Bool-cases (
              too_early persistence gcm wifi s.last_periodic_attempt_us now
                resync_interval_seconds)) [
                  | inl early ↦ rw (e, early) none
                  | inr late ↦
                      rw (e, late)
                        (record { down = v.down; range = v.range; unchanged = v.unchanged })
                ]
      ]

  pub resync-Syncs :
      (before : ℤ) (s : TimeService P W)
      → Down persistence gcm wifi radio laws s
      → InRange s.clock
      → Syncs persistence gcm wifi radio laws s (resync_if_due persistence gcm wifi before s)
  unfolding resync_if_due
  resync-Syncs before s down r =
      let now = wifi.monotonic_us s.world in
      ground (
        arith,
        same-Syncs persistence gcm wifi radio laws not_due s s down r refl,
        initial-Syncs now s down r,
        periodic-Syncs now s down r,
      )
