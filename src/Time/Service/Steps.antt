-- ===== src/Time/Service/Steps.antt =====
-- Any calls of the time service from its construction on.
use m5authenticator.Prelude.{ℕ, ◌≡◌, ◌∙◌, refl, arith, false, List, [], ◌∷◌}
use m5authenticator.Prelude.Int.{ℤ, negsuc}
use m5authenticator.Vault.Crypto.{AesGcm}
use m5authenticator.VaultRuntime.{Persistence, Runtime}
use m5authenticator.Time.{initial_clock}
use m5authenticator.Time.Service.{TimeService, Wifi, teardown_network, not_configured}
use m5authenticator.Time.Service.Driver.{Radio, at_rest, WifiLaws, Down}
use m5authenticator.Time.Service.Range.{Syncs, InRange}
use m5authenticator.Time.Service.Range.Schedule.{boot_attempts-Syncs, usb-Syncs, resync-Syncs}
use m5authenticator.Time.Service.Schedule.{
  boot_sync, with_secret_boundary, sync_from_usb, resync_if_due,
}

pub data Call (P W : Type 0) : Type 0 where
  boots : Call P W
  resyncs : ℤ → Call P W
  sets : ℕ → Call P W
  -- What other parts do to the runtime, also within a boundary, and what passes in the libraries.
  bounds : (Runtime × P → Runtime × P) → Call P W
  runs : (Runtime × P → Runtime × P) → Call P W
  passes : (W → W) → Call P W

unfoldable pub new_service : {P W : Type 0} → Runtime × P → W → TimeService P W
new_service x w = record {
  network_initialized = false;
  station = false;
  last_initial_attempt_us = negsuc 0;
  last_periodic_attempt_us = negsuc 0;
  clock = initial_clock;
  runtime = x;
  world = w;
}

module _ {P W : Type 0} (persistence : Persistence P) (gcm : AesGcm) (wifi : Wifi W) where
  unfoldable pub step : Call P W → TimeService P W → TimeService P W
  step boots s = (boot_sync persistence gcm wifi s).1
  step (resyncs before) s = (resync_if_due persistence gcm wifi before s).1
  step (sets n) s = (sync_from_usb persistence gcm wifi n s).1
  step (bounds f) s =
      with_secret_boundary persistence gcm wifi (λ s'. record s' { runtime = f s'.runtime }) s
  step (runs f) s = record s { runtime = f s.runtime }
  step (passes f) s = record s { world = f s.world }

  unfoldable pub run : List (Call P W) → TimeService P W → TimeService P W
  unfolding step
  run [] s = s
  run (c ∷ calls) s = run calls (step c s)

-- What passes in the libraries does not touch the radio.
abbrev pub Outside : {P W : Type 0} → (W → Radio) → List (Call P W) → Type 0
Outside radio [] = Unit {0}
Outside {W} radio (passes f ∷ calls) = ((w : W) → radio (f w) ≡ radio w) × Outside radio calls
Outside radio (_ ∷ calls) = Outside radio calls

module _ {P W : Type 0} (persistence : Persistence P) (gcm : AesGcm) (wifi : Wifi W)
    (radio : W → Radio) (laws : WifiLaws wifi radio) where
  abbrev Kept : TimeService P W → Type 0
  Kept s = Down persistence gcm wifi radio laws s × InRange s.clock

  bounds-Kept :
      (f : Runtime × P → Runtime × P) (s : TimeService P W)
      → Kept s
      → Kept (step persistence gcm wifi (bounds f) s)
  unfolding step with_secret_boundary teardown_network
  bounds-Kept f s v = ground arith

  run-Kept :
      (calls : List (Call P W)) (s : TimeService P W)
      → Outside radio calls
      → Kept s
      → Kept (run persistence gcm wifi calls s)
  unfolding run step boot_sync
  run-Kept [] s o v = v
  run-Kept (boots ∷ calls) s o v =
      let w = boot_attempts-Syncs persistence gcm wifi radio laws 3 not_configured s v.0 v.1 in
      run-Kept calls _ o (w.down, w.range)
  run-Kept (resyncs before ∷ calls) s o v =
      let w = resync-Syncs persistence gcm wifi radio laws before s v.0 v.1 in
      run-Kept calls _ o (w.down, w.range)
  run-Kept (sets n ∷ calls) s o v =
      let w = usb-Syncs persistence gcm wifi radio laws n s v.0 v.1 in
      run-Kept calls _ o (w.down, w.range)
  run-Kept (bounds f ∷ calls) s o v = run-Kept calls _ o (bounds-Kept f s v)
  run-Kept (runs f ∷ calls) s o v = run-Kept calls (record s { runtime = f s.runtime }) o v
  run-Kept (passes f ∷ calls) s o v =
      run-Kept calls (record s { world = f s.world }) o.1 ((v.0.0, v.0.1, o.0 s.world ∙ v.0.2), v.1)

  -- Where the calls of the Wi-Fi library do what ESP-IDF documents, and nothing but the service uses its
  -- driver: after any calls of a new service, whatever the network answers, the driver is stopped and
  -- removed, the station object is gone, and no credentials are left in the driver or in the flash; a
  -- synchronized clock is anchored at a time in the accepted range. A synchronization at the start, over
  -- USB or when it is due keeps this, and it changes the clock only where it reports success.
  pub run-new_service-Syncs :
      (calls : List (Call P W)) (x : Runtime × P) (w : W)
      → Outside radio calls
      → radio w ≡ at_rest
      → let s = run persistence gcm wifi calls (new_service x w) in
        Down persistence gcm wifi radio laws s
        × InRange s.clock
        × Syncs persistence gcm wifi radio laws s (boot_sync persistence gcm wifi s)
        × ((n : ℕ)
            → Syncs persistence gcm wifi radio laws s (sync_from_usb persistence gcm wifi n s))
        × ((before : ℤ)
            → Syncs persistence gcm wifi radio laws s (resync_if_due persistence gcm wifi before s))
  unfolding boot_sync
  run-new_service-Syncs calls x w outside rest =
      let s = run persistence gcm wifi calls (new_service x w) in
      let (down, range) : Kept s =
        run-Kept calls (new_service x w) outside
          (unfold new_service in ((refl, refl, rest), λ h. absurd cc)) in
      (
        down,
        range,
        boot_attempts-Syncs persistence gcm wifi radio laws 3 not_configured s down range,
        λ n. usb-Syncs persistence gcm wifi radio laws n s down range,
        λ before. resync-Syncs persistence gcm wifi radio laws before s down range,
      )
