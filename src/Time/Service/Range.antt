-- ===== src/Time/Service/Range.antt =====
-- Between any two calls of the service the Wi-Fi station is down and the clock has a time in the
-- accepted range, and the loop that waits for an address ends.
pub mod Schedule
use m5authenticator.Prelude.{
  ℕ, zero, suc, ◌+◌, ◌*◌, ◌≤◌, ◌<◌, ◌≡◌, refl, sym, ap, ◌∙◌, ◌≢◌, inl, inr, Bool, true, false, ◌||◌,
  Option, none, some, arith, ltb, if◌then◌else◌, Bool-cases, length, Bytes, is_empty,
}
use m5authenticator.Prelude.Int.{ℤ, pos, negsuc}
use m5authenticator.Vault.{WifiRecord}
use m5authenticator.Vault.Crypto.{AesGcm}
use m5authenticator.VaultRuntime.{ok, Persistence, Status}
use m5authenticator.Time.{
  TrustedClock, initial_clock, accept_ntp_sample, mark_synchronized, resync_interval_seconds,
}
use m5authenticator.Time
use m5authenticator.Time.Service.{
  acceptable_unix_seconds, accepted_time, Wifi, TimeService, wait_for_ip, wifi_connect_timeout,
  poll_interval, got_ip, or_no_ip, SyncResult, teardown_network, use_sample, sync_ok, ask_time,
  ensure_network_initialized, connect_and_sync, with_world, sync_failed, network_unavailable,
  sync_with, sync_ntp_once, copy_credentials, not_due, initial_ntp_retry_seconds,
}
use m5authenticator.Time.Service.Driver.{
  Radio, WifiLaws, Down, Up, teardown-Down, ensure-Up, set_config-InUse, start-InUse, same-InUse,
  got_ip-radio,
}
use m5authenticator.Time.Service.Schedule.{
  boot_attempts, sync_from_usb, initial_resync, periodic_resync, resync_if_due, final, too_early,
}

-- The anchor of a synchronized clock is an accepted time.
abbrev pub InRange : TrustedClock → Type 0
InRange c = c.synchronized ≡ true → acceptable_unix_seconds c.base_unix_seconds ≡ true

accepted_time-range :
    (t : Option ℤ) (n : ℕ) → accepted_time t ≡ some n → acceptable_unix_seconds n ≡ true
accepted_time-range none n e = cc
accepted_time-range (some (negsuc k)) n e = cc
accepted_time-range (some (pos k)) n e = ground arith

module _ {P W : Type 0} (persistence : Persistence P) (gcm : AesGcm) (wifi : Wifi W) where
  -- Where the fuel reaches one poll past the timeout, the loop ends.
  wait_for_ip_total :
      (fuel waited : ℕ) (w : W)
      → waited < wifi_connect_timeout + poll_interval
      → wifi_connect_timeout + poll_interval ≤ waited + fuel * poll_interval
      → (result : Bool × W) × (wait_for_ip persistence gcm wifi fuel waited w ≡ some result)
  unfolding wait_for_ip
  wait_for_ip_total zero waited w b h = absurd (omega arith)
  wait_for_ip_total (suc fuel) waited w b h =
      let (got, w1) = wifi.has_ip w in
      elim (Bool-cases (ltb waited wifi_connect_timeout)) [
        | inr over ↦ ((false, w), rw over refl)
        | inl waiting ↦ elim (Bool-cases got) [
          | inl seen ↦ ((true, w1), rw (waiting, seen) refl)
          | inr unseen ↦
              let (result, e) =
                wait_for_ip_total fuel (waited + poll_interval) (wifi.delay poll_interval w1)
                  (ground arith) (ground arith) in
              (result, rw (waiting, unseen) e)
        ]
      ]

  -- More fuel changes nothing.
  wait_for_ip_more :
      (fuel more waited : ℕ) (w : W) (result : Bool × W)
      → fuel ≤ more
      → wait_for_ip persistence gcm wifi fuel waited w ≡ some result
      → wait_for_ip persistence gcm wifi more waited w ≡ some result
  unfolding wait_for_ip
  wait_for_ip_more zero more waited w result h e = cc
  wait_for_ip_more (suc fuel) zero waited w result h e = absurd (omega arith)
  wait_for_ip_more (suc fuel) (suc more) waited w result h e =
      let (got, w1) = wifi.has_ip w in
      ground (
        arith,
        wait_for_ip_more fuel more (waited + poll_interval) (wifi.delay poll_interval w1) result,
      )

  -- The loop that waits for an address ends: with fuel for 61 rounds or more, whatever the library
  -- answers, its result is the one that `connect_and_sync` goes on with.
  pub wait_for_ip-got_ip :
      (fuel : ℕ) (w : W)
      → 61 ≤ fuel
      → wait_for_ip persistence gcm wifi fuel 0 w ≡ some (got_ip persistence gcm wifi w)
  unfolding got_ip
  wait_for_ip-got_ip fuel w h =
      let (result, e) = wait_for_ip_total 61 0 w (ground arith) (ground arith) in
      let more = wait_for_ip_more 61 fuel 0 w result h e in
      more ∙ ap (λ m. some (or_no_ip persistence gcm wifi w m)) (sym e)

-- `radio` reads from the library's state what the library holds.
module _ {P W : Type 0} (persistence : Persistence P) (gcm : AesGcm) (wifi : Wifi W)
    (radio : W → Radio) (laws : WifiLaws wifi radio) where
  -- What a synchronization leaves: the station is down, the clock is in the range, and it has changed
  -- only where the result is success.
  pub record Syncs (s : TimeService P W) (x : SyncResult × TimeService P W) : Type 0 where
    pub down : Down persistence gcm wifi radio laws x.1
    pub range : InRange x.1.clock
    pub unchanged : x.0 ≢ sync_ok → x.1.clock ≡ s.clock

  teardown-Syncs :
      (result : SyncResult) (s s' : TimeService P W)
      → InRange s.clock
      → s'.clock ≡ s.clock
      → Up persistence gcm wifi radio laws s'
      → Syncs s (result, teardown_network persistence gcm wifi s')
  unfolding teardown_network
  teardown-Syncs result s s' r e up = record {
    down = teardown-Down persistence gcm wifi radio laws s' up;
    range = rw e r;
    unchanged = λ h. e;
  }

  use_sample-Syncs :
      (t : Option ℤ) (s s' : TimeService P W)
      → InRange s.clock
      → s'.clock ≡ s.clock
      → Down persistence gcm wifi radio laws s'
      → (synced : Bool)
      → Syncs s (use_sample persistence gcm wifi (if synced then accepted_time t else none) s')
  unfolding use_sample accept_ntp_sample mark_synchronized
  use_sample-Syncs t s s' r e down synced =
      ground (arith, λ (n : ℕ) (p : accepted_time t ≡ some n). accepted_time-range t n p)

  ask_time-Syncs :
      (s s' : TimeService P W)
      → InRange s.clock
      → s'.clock ≡ s.clock
      → Up persistence gcm wifi radio laws s'
      → Syncs s (ask_time persistence gcm wifi s')
  unfolding ask_time
  ask_time-Syncs s s' r e up =
      let (synced, w) = wifi.sntp_wait s'.world in
      let asked = record s' { world = wifi.sntp_deinit w } in
      let held =
        same-InUse persistence gcm wifi radio laws s'.world asked.world
          (laws.sntp_deinit_lem w ∙ laws.sntp_wait_lem s'.world) up.2 in
      use_sample-Syncs (wifi.time_of_day w) s (teardown_network persistence gcm wifi asked) r
        (unfold teardown_network in e)
        (teardown-Down persistence gcm wifi radio laws asked (up.0, up.1, held)) synced

  same-Syncs :
      (result : SyncResult) (s s' : TimeService P W)
      → Down persistence gcm wifi radio laws s'
      → InRange s.clock
      → s'.clock ≡ s.clock
      → Syncs s (result, s')
  same-Syncs result s s' down r e = record { down = down; range = rw e r; unchanged = λ h. e }

  stays-Up :
      (ssid password : Bytes) (s1 : TimeService P W)
      → Up persistence gcm wifi radio laws s1
      → let s2 = (with_world persistence gcm wifi (wifi.set_config ssid password) s1).1 in
        let s3 = (with_world persistence gcm wifi wifi.start s2).1 in
        let s4 = (with_world persistence gcm wifi wifi.connect s3).1 in
        let s5 = (with_world persistence gcm wifi (got_ip persistence gcm wifi) s4).1 in
        let s6 = (with_world persistence gcm wifi wifi.sntp_init s5).1 in
        Up persistence gcm wifi radio laws s2
        × Up persistence gcm wifi radio laws s3
        × Up persistence gcm wifi radio laws s4
        × Up persistence gcm wifi radio laws s5
        × Up persistence gcm wifi radio laws s6
  stays-Up ssid password s1 (i, station, u1) =
      let w1 = s1.world in
      let w2 = (wifi.set_config ssid password w1).1 in
      let w3 = (wifi.start w2).1 in
      let w4 = (wifi.connect w3).1 in
      let w5 = (got_ip persistence gcm wifi w4).1 in
      let w6 = (wifi.sntp_init w5).1 in
      let keeps = same-InUse persistence gcm wifi radio laws in
      let u2 = set_config-InUse persistence gcm wifi radio laws ssid password w1 u1 in
      let u3 = start-InUse persistence gcm wifi radio laws w2 u2 in
      let u4 = keeps w3 w4 (laws.connect_lem w3) u3 in
      let u5 = keeps w4 w5 (got_ip-radio persistence gcm wifi radio laws w4) u4 in
      let u6 = keeps w5 w6 (laws.sntp_init_lem w5) u5 in
      ((i, station, u2), (i, station, u3), (i, station, u4), (i, station, u5), (i, station, u6))

  connect_and_sync-Syncs :
      (ssid password : Bytes) (s : TimeService P W)
      → Down persistence gcm wifi radio laws s
      → InRange s.clock
      → Syncs s (connect_and_sync persistence gcm wifi ssid password s)
  unfolding connect_and_sync
  connect_and_sync-Syncs ssid password s down r =
      let (ensured, s1) = ensure_network_initialized persistence gcm wifi s in
      let (same, opened, closed) = ensure-Up persistence gcm wifi radio laws s down in
      let (configured, s2) = with_world persistence gcm wifi (wifi.set_config ssid password) s1 in
      let (started, s3) = with_world persistence gcm wifi wifi.start s2 in
      let (connected, s4) = with_world persistence gcm wifi wifi.connect s3 in
      let (got, s5) = with_world persistence gcm wifi (got_ip persistence gcm wifi) s4 in
      let (sntp, s6) = with_world persistence gcm wifi wifi.sntp_init s5 in
      elim (Bool-cases
        (is_empty ssid || ltb 32 (length ssid) || is_empty password || ltb 64 (length password))) [
          | inl bad ↦ rw bad (same-Syncs sync_failed s s down r refl)
          | inr fits ↦ rw fits (elim (Bool-cases ensured) [
            | inr e ↦ rw e (same-Syncs network_unavailable s s1 (closed e) r same)
            | inl e1 ↦ rw e1 (
                let (u2, u3, u4, u5, u6) = stays-Up ssid password s1 (opened e1) in
                elim (Bool-cases configured) [
                  | inr e ↦ rw e (teardown-Syncs sync_failed s s2 r same u2)
                  | inl e2 ↦ rw e2 (elim (Bool-cases started) [
                    | inr e ↦ rw e (teardown-Syncs sync_failed s s3 r same u3)
                    | inl e3 ↦ rw e3 (elim (Bool-cases connected) [
                      | inr e ↦ rw e (teardown-Syncs sync_failed s s4 r same u4)
                      | inl e4 ↦ rw e4 (elim (Bool-cases got) [
                        | inr e ↦ rw e (teardown-Syncs sync_failed s s5 r same u5)
                        | inl e5 ↦ rw e5 (elim (Bool-cases sntp) [
                          | inr e ↦ rw e (teardown-Syncs sync_failed s s6 r same u6)
                          | inl e6 ↦ rw e6 (ask_time-Syncs s s6 r same u6)
                        ])
                      ])
                    ])
                  ])
                ])
          ])
        ]

  sync_with-Syncs :
      (status : Status) (credentials : Option WifiRecord) (s : TimeService P W)
      → Down persistence gcm wifi radio laws s
      → InRange s.clock
      → Syncs s (sync_with persistence gcm wifi status credentials s)
  sync_with-Syncs ok (some c) s down r = connect_and_sync-Syncs c.ssid c.password s down r
  sync_with-Syncs ok none s down r = same-Syncs _ s s down r refl
  sync_with-Syncs status credentials s down r = same-Syncs _ s s down r refl

  sync_ntp_once-Syncs :
      (s : TimeService P W)
      → Down persistence gcm wifi radio laws s
      → InRange s.clock
      → Syncs s (sync_ntp_once persistence gcm wifi s)
  unfolding sync_ntp_once
  sync_ntp_once-Syncs s down r =
      let (status, (credentials, x)) = copy_credentials persistence gcm wifi s.runtime in
      let v = sync_with-Syncs status credentials (record s { runtime = x }) down r in
      record { down = v.down; range = v.range; unchanged = v.unchanged }
