-- ===== src/Time/Service/Driver.antt =====
-- What `TimeService` (canonical_time_service.cpp) relies on in the Wi-Fi library: what each call does to
-- the driver, its station and the places where the library keeps the credentials.
use m5authenticator.Prelude.{
  ℕ, zero, suc, ◌+◌, ◌≡◌, refl, inl, inr, Bool, true, false, some, arith, ltb, Option-cases,
  Bool-cases, ◌∙◌, some_eq, if◌then◌else◌, Bytes,
}
use m5authenticator.Vault.Crypto.{AesGcm}
use m5authenticator.VaultRuntime.{Persistence}
use m5authenticator.Time.Service.{
  Wifi, TimeService, wait_for_ip, got_ip, poll_interval, wifi_connect_timeout,
  ensure_network_initialized, teardown_network,
}

-- The driver exists; it is started; there is a station object; settings are kept in RAM only;
-- credentials lie in the driver's memory, or in the flash.
pub record Radio : Type 0 where
  pub driver : Bool
  pub started : Bool
  pub station : Bool
  pub ram_only : Bool
  pub in_driver : Bool
  pub in_flash : Bool

abbrev pub at_rest : Radio
at_rest = record {
  driver = false;
  started = false;
  station = false;
  ram_only = false;
  in_driver = false;
  in_flash = false;
}

-- After `esp_wifi_init` with `WIFI_STORAGE_RAM`.
abbrev pub configurable : Radio
configurable = record at_rest { driver = true; station = true; ram_only = true }

-- The documentation of ESP-IDF. A driver that is new keeps its settings in the flash until it is told
-- otherwise, and one that is not stopped cannot be removed. What a configuration that fails leaves in
-- the driver, and whether one that fails has started it, is left open.
pub record WifiLaws {W : Type 0} (wifi : Wifi W) (radio : W → Radio) : Type 0 where
  pub start_network_lem : (w : W) → radio (wifi.start_network w).1 ≡ radio w
  pub start_events_lem : (w : W) → radio (wifi.start_events w).1 ≡ radio w
  pub create_station_lem :
      (w : W)
      → radio (wifi.create_station w).1
        ≡ (if (wifi.create_station w).0 then record (radio w) { station = true } else radio w)
  pub init_lem :
      (w : W)
      → radio (wifi.init w).1 ≡ (
          if (wifi.init w).0
          then record (radio w) { driver = true; started = false; ram_only = false }
          else radio w)
  pub set_storage_lem :
      (w : W)
      → radio (wifi.set_storage w).1
        ≡ (if (wifi.set_storage w).0 then record (radio w) { ram_only = true } else radio w)
  pub set_mode_lem : (w : W) → radio (wifi.set_mode w).1 ≡ radio w
  pub set_config_lem :
      (ssid password : Bytes) (w : W)
      → record (radio (wifi.set_config ssid password w).1) { in_driver = false; in_flash = false }
        ≡ record (radio w) { in_driver = false; in_flash = false }
  pub set_config_ram :
      (ssid password : Bytes) (w : W)
      → (radio w).ram_only ≡ true
      → (radio (wifi.set_config ssid password w).1).in_flash ≡ (radio w).in_flash
  pub start_lem :
      (w : W)
      → record (radio (wifi.start w).1) { started = false } ≡ record (radio w) { started = false }
  pub connect_lem : (w : W) → radio (wifi.connect w).1 ≡ radio w
  pub has_ip_lem : (w : W) → radio (wifi.has_ip w).1 ≡ radio w
  pub sntp_init_lem : (w : W) → radio (wifi.sntp_init w).1 ≡ radio w
  pub sntp_wait_lem : (w : W) → radio (wifi.sntp_wait w).1 ≡ radio w
  pub set_time_of_day_lem : (n : ℕ) (w : W) → radio (wifi.set_time_of_day n w).1 ≡ radio w
  pub sntp_deinit_lem : (w : W) → radio (wifi.sntp_deinit w) ≡ radio w
  pub disconnect_lem : (w : W) → radio (wifi.disconnect w) ≡ radio w
  pub stop_lem : (w : W) → radio (wifi.stop w) ≡ record (radio w) { started = false }
  pub deinit_lem :
      (w : W)
      → radio (wifi.deinit w) ≡ (
          if (radio w).started
          then radio w
          else record (radio w) { driver = false; ram_only = false; in_driver = false })
  pub destroy_station_lem :
      (w : W) → radio (wifi.destroy_station w) ≡ record (radio w) { station = false }
  pub delay_lem : (n : ℕ) (w : W) → radio (wifi.delay n w) ≡ radio w

-- With the driver up: it is bound to the RAM, and nothing is in the flash.
pub record InUse (r : Radio) : Type 0 where
  pub driver : r.driver ≡ true
  pub station : r.station ≡ true
  pub ram_only : r.ram_only ≡ true
  pub in_flash : r.in_flash ≡ false

module _ {P W : Type 0} (persistence : Persistence P) (gcm : AesGcm) (wifi : Wifi W)
    (radio : W → Radio) (laws : WifiLaws wifi radio) where
  -- Neither station nor driver, and no credentials in the library or in the flash.
  abbrev pub Down : TimeService P W → Type 0
  Down s = (s.network_initialized ≡ false) × (s.station ≡ false) × (radio s.world ≡ at_rest)

  abbrev pub Up : TimeService P W → Type 0
  Up s = (s.network_initialized ≡ true) × (s.station ≡ true) × InUse (radio s.world)

  pub teardown-Down : (s : TimeService P W) → Up s → Down (teardown_network persistence gcm wifi s)
  unfolding teardown_network
  teardown-Down s up =
      let w1 = wifi.disconnect s.world in
      let w2 = wifi.stop w1 in
      let w3 = wifi.deinit w2 in
      (
        refl,
        refl,
        ground (
          arith,
          laws.disconnect_lem s.world,
          laws.stop_lem w1,
          laws.deinit_lem w2,
          laws.destroy_station_lem w3,
        ),
      )

  pub ensure-Up :
      (s : TimeService P W)
      → Down s
      → let (ensured, s') = ensure_network_initialized persistence gcm wifi s in
        (s'.clock ≡ s.clock) × (ensured ≡ true → Up s') × (ensured ≡ false → Down s')
  unfolding ensure_network_initialized
  ensure-Up s down =
      let w1 = (wifi.start_network s.world).1 in
      let w2 = (wifi.start_events w1).1 in
      let w3 = (wifi.create_station w2).1 in
      let w4 = (wifi.init w3).1 in
      let w5 = (wifi.set_storage w4).1 in
      let w6 = (wifi.set_mode w5).1 in
      ground (
        arith,
        laws.start_network_lem s.world,
        laws.start_events_lem w1,
        laws.create_station_lem w2,
        laws.init_lem w3,
        laws.set_storage_lem w4,
        laws.set_mode_lem w5,
        laws.deinit_lem w5,
        laws.deinit_lem w6,
        laws.destroy_station_lem w4,
        laws.destroy_station_lem (wifi.deinit w5),
        laws.destroy_station_lem (wifi.deinit w6),
      )

  pub set_config-InUse :
      (ssid password : Bytes) (w : W)
      → InUse (radio w)
      → InUse (radio (wifi.set_config ssid password w).1)
  set_config-InUse ssid password w u =
      ground (arith, laws.set_config_lem ssid password w, laws.set_config_ram ssid password w)

  pub start-InUse : (w : W) → InUse (radio w) → InUse (radio (wifi.start w).1)
  start-InUse w u = ground (arith, laws.start_lem w)

  pub same-InUse : (w w' : W) → radio w' ≡ radio w → InUse (radio w) → InUse (radio w')
  same-InUse w w' e u = rw e u

  wait_for_ip-radio :
      (fuel waited : ℕ) (w : W) (result : Bool × W)
      → wait_for_ip persistence gcm wifi fuel waited w ≡ some result
      → radio result.1 ≡ radio w
  unfolding wait_for_ip
  wait_for_ip-radio zero waited w result e = cc
  wait_for_ip-radio (suc fuel) waited w result e =
      let (got, w1) = wifi.has_ip w in
      let paused = wifi.delay poll_interval w1 in
      elim (Bool-cases (ltb waited wifi_connect_timeout)) [
        | inr over ↦ let p = rw over at e in cc (some_eq p)
        | inl waiting ↦ elim (Bool-cases got) [
          | inl seen ↦ let p = rw (waiting, seen) at e in cc (some_eq p, laws.has_ip_lem w)
          | inr unseen ↦
              let p = rw (waiting, unseen) at e in
              wait_for_ip-radio fuel (waited + poll_interval) paused result p
              ∙ laws.delay_lem poll_interval w1
              ∙ laws.has_ip_lem w
        ]
      ]

  pub got_ip-radio : (w : W) → radio (got_ip persistence gcm wifi w).1 ≡ radio w
  unfolding got_ip
  got_ip-radio w = elim (Option-cases (wait_for_ip persistence gcm wifi 61 0 w)) [
    | inl e ↦ rw e refl
    | inr (result, e) ↦ rw e (wait_for_ip-radio 61 0 w result e)
  ]
