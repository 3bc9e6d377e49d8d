-- ===== src/Time/Service.antt =====
-- `TimeService` (firmware/components/m5auth_time/canonical_time_service.cpp): the synchronization of the
-- trusted clock with the network or over USB. The network library and the timers of ESP-IDF are the
-- interface `Wifi`, over any state of their own; a time in ticks is written in milliseconds. The mutexes
-- make each method one step; the wiping of the Wi-Fi credentials is left out, and the task of
-- `start_periodic_resync` is any sequence of calls.
pub mod Schedule
pub mod Driver
pub mod Range
pub mod Steps
mod Tests
use m5authenticator.Prelude.{
  ℕ, zero, suc, ◌+◌, Bool, true, false, not, ◌&&◌, ◌||◌, Option, none, some, ltb, leb,
  if◌then◌else◌, length, Bytes, is_empty,
}
use m5authenticator.Prelude.Int.{ℤ, pos}
use m5authenticator.Vault.{WifiRecord}
use m5authenticator.Vault.Crypto.{AesGcm}
use m5authenticator.VaultRuntime.{Persistence, Runtime, Status, ok, not_found}
use m5authenticator.VaultRuntime
use m5authenticator.VaultRuntime.Access.{with_plaintext}
use m5authenticator.Time.{TrustedClock, accept_ntp_sample}
use m5authenticator.Time

abbrev pub min_accepted_unix_seconds : ℕ
min_accepted_unix_seconds = 1_577_836_800

abbrev pub max_accepted_unix_seconds : ℕ
max_accepted_unix_seconds = 4_102_444_800

abbrev pub initial_ntp_retry_seconds : ℕ
initial_ntp_retry_seconds = 60

abbrev pub wifi_connect_timeout : ℕ
wifi_connect_timeout = 6_000

abbrev pub poll_interval : ℕ
poll_interval = 100

pub data SyncResult : Type 0 where
  sync_ok not_configured sync_locked not_due invalid_time rejected_jump : SyncResult
  network_unavailable sync_failed internal_error : SyncResult

unfoldable pub acceptable_unix_seconds : ℕ → Bool
acceptable_unix_seconds s = leb min_accepted_unix_seconds s && leb s max_accepted_unix_seconds

-- Each call says whether it succeeded. `start_network` and `start_events` succeed also where that is
-- done already; `create_station` where it gives an object; `has_ip` is one look at the access point and the
-- address; `time_of_day` is nothing where the call fails.
pub record Wifi (W : Type 0) : Type 0 where
  pub start_network : W → Bool × W
  pub start_events : W → Bool × W
  pub create_station : W → Bool × W
  pub init : W → Bool × W
  pub set_storage : W → Bool × W
  pub set_mode : W → Bool × W
  pub set_config : Bytes → Bytes → W → Bool × W
  pub start : W → Bool × W
  pub connect : W → Bool × W
  pub has_ip : W → Bool × W
  pub sntp_init : W → Bool × W
  pub sntp_wait : W → Bool × W
  pub time_of_day : W → Option ℤ
  pub set_time_of_day : ℕ → W → Bool × W
  pub monotonic_us : W → ℤ
  pub sntp_deinit : W → W
  pub disconnect : W → W
  pub stop : W → W
  pub deinit : W → W
  pub destroy_station : W → W
  pub delay : ℕ → W → W

-- With the clock that it refers to, the runtime and the state of the libraries.
pub record TimeService (P W : Type 0) : Type 0 where
  pub network_initialized : Bool
  pub station : Bool
  pub last_initial_attempt_us : ℤ
  pub last_periodic_attempt_us : ℤ
  pub clock : TrustedClock
  pub runtime : Runtime × P
  pub world : W

-- The number of seconds of an accepted answer: not negative and in the range.
abbrev pub accepted_time : Option ℤ → Option ℕ
accepted_time (some (pos s)) = if acceptable_unix_seconds s then some s else none
accepted_time _ = none

module _ {P W : Type 0} (persistence : Persistence P) (gcm : AesGcm) (wifi : Wifi W) where
  abbrev pub with_world : (W → Bool × W) → TimeService P W → Bool × TimeService P W
  with_world f s = let (done, w) = f s.world in (done, record s { world = w })

  unfoldable pub teardown_network : TimeService P W → TimeService P W
  teardown_network s =
      let w =
        (if s.network_initialized
          then wifi.deinit (wifi.stop (wifi.disconnect s.world))
          else s.world) in
      record s {
        network_initialized = false;
        station = false;
        world = (if s.station then wifi.destroy_station w else w);
      }

  -- The failures behind `esp_wifi_init`.
  abbrev pub abandon : TimeService P W → TimeService P W
  abandon s = record s { station = false; world = wifi.destroy_station (wifi.deinit s.world) }

  unfoldable pub ensure_network_initialized : TimeService P W → Bool × TimeService P W
  ensure_network_initialized s =
      let (network, s1) = with_world wifi.start_network s in
      let (events, s2) = with_world wifi.start_events s1 in
      let (created, s3) = with_world wifi.create_station s2 in
      let (initialized, s4) = with_world wifi.init (record s3 { station = true }) in
      let (stored, s5) = with_world wifi.set_storage s4 in
      let (moded, s6) = with_world wifi.set_mode s5 in
      if s.network_initialized
      then (true, s)
      else if not network
      then (false, s1)
      else if not events
      then (false, s2)
      else if not created
      then (false, record s3 { station = false })
      else if not initialized
      then (false, record s4 { station = false; world = wifi.destroy_station s4.world })
      else if not stored
      then (false, abandon s5)
      else if not moded
      then (false, abandon s6)
      else (true, record s6 { network_initialized = true })

  -- The loop that waits for an address. Nothing means that the fuel ran out.
  unfoldable pub wait_for_ip : ℕ → ℕ → W → Option (Bool × W)
  wait_for_ip zero waited w = none
  wait_for_ip (suc fuel) waited w =
      let (got_ip, w1) = wifi.has_ip w in
      let rest = wait_for_ip fuel (waited + poll_interval) (wifi.delay poll_interval w1) in
      if not (ltb waited wifi_connect_timeout)
      then some (false, w)
      else if got_ip
      then some (true, w1)
      else rest

  abbrev pub or_no_ip : W → Option (Bool × W) → Bool × W
  or_no_ip w none = (false, w)
  or_no_ip w (some result) = result

  -- With fuel for every poll that the timeout allows.
  unfoldable pub got_ip : W → Bool × W
  unfolding wait_for_ip
  got_ip w = or_no_ip w (wait_for_ip 61 0 w)

  -- Behind the teardown of the network.
  unfoldable pub use_sample : Option ℕ → TimeService P W → SyncResult × TimeService P W
  use_sample none s = (sync_failed, s)
  use_sample (some unix_seconds) s =
      let (clock, accepted) = accept_ntp_sample unix_seconds (wifi.monotonic_us s.world) s.clock in
      if accepted then (sync_ok, record s { clock = clock }) else (rejected_jump, s)

  -- Behind `esp_netif_sntp_init`.
  unfoldable pub ask_time : TimeService P W → SyncResult × TimeService P W
  unfolding use_sample teardown_network
  ask_time s =
      let (synced, s1) = with_world wifi.sntp_wait s in
      use_sample (if synced then accepted_time (wifi.time_of_day s1.world) else none)
        (teardown_network (record s1 { world = wifi.sntp_deinit s1.world }))

  unfoldable pub connect_and_sync : Bytes → Bytes → TimeService P W → SyncResult × TimeService P W
  unfolding ensure_network_initialized teardown_network got_ip ask_time
  connect_and_sync ssid password s =
      let (ensured, s1) = ensure_network_initialized s in
      let (configured, s2) = with_world (wifi.set_config ssid password) s1 in
      let (started, s3) = with_world wifi.start s2 in
      let (connected, s4) = with_world wifi.connect s3 in
      let (got, s5) = with_world got_ip s4 in
      let (sntp, s6) = with_world wifi.sntp_init s5 in
      let asked = ask_time s6 in
      if is_empty ssid || ltb 32 (length ssid) || is_empty password || ltb 64 (length password)
      then (sync_failed, s)
      else if not ensured
      then (network_unavailable, s1)
      else if not configured
      then (sync_failed, teardown_network s2)
      else if not started
      then (sync_failed, teardown_network s3)
      else if not connected
      then (sync_failed, teardown_network s4)
      else if not got
      then (sync_failed, teardown_network s5)
      else if not sntp
      then (sync_failed, teardown_network s6)
      else asked

  -- The copy of the credentials, by `with_wifi`.
  abbrev pub copied : Option WifiRecord → Runtime × P → Status × (Option WifiRecord × (Runtime × P))
  copied none x = (not_found, (none, x))
  copied (some record_) x = (ok, (some record_, x))

  unfoldable pub copy_credentials : Runtime × P → Status × (Option WifiRecord × (Runtime × P))
  unfolding with_plaintext
  copy_credentials x = with_plaintext persistence gcm none (λ plaintext. copied plaintext.wifi x) x

  -- A status other than success.
  abbrev pub refused_sync : Status → SyncResult
  refused_sync not_found = not_configured
  refused_sync VaultRuntime.locked_status = sync_locked
  refused_sync VaultRuntime.invalid_state = sync_locked
  refused_sync _ = internal_error

  abbrev pub sync_with : Status → Option WifiRecord → TimeService P W → SyncResult × TimeService P W
  sync_with ok (some credentials) s = connect_and_sync credentials.ssid credentials.password s
  sync_with status _ s = (refused_sync status, s)

  unfoldable pub sync_ntp_once : TimeService P W → SyncResult × TimeService P W
  unfolding copy_credentials connect_and_sync
  sync_ntp_once s =
      let (status, (credentials, x)) = copy_credentials s.runtime in
      sync_with status credentials (record s { runtime = x })
