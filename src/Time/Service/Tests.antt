-- ===== src/Time/Service/Tests.antt =====
-- The time service over a network that answers after five polls.
use m5authenticator.Prelude.{
  ℕ, suc, ◌++◌, ◌*◌, ◌≡◌, refl, Bool, true, false, not, ◌||◌, some, List, [], ◌∷◌, arith, leb,
  codes, bytes_eq, if◌then◌else◌,
}
use m5authenticator.Prelude.Int.{ℤ, pos}
use m5authenticator.Vault.Crypto.{decrypt_vault, build_vault_aad}
use m5authenticator.Vault.Encode.{plaintext_magic}
use m5authenticator.Vault.Decode.{
  decode_plaintext, read_bytes, detect_format, read_u16, read_records, read_wifi, read_u8,
  read_auto_lock, read_auto_lock_flag, read_days, read_sized_text,
}
use m5authenticator.Vault.Utf8.{is_valid_utf8}
use m5authenticator.VaultRuntime.{
  PersistedSnapshot, Runtime, validate_envelope_with_key, valid_envelope_framing, open_envelope,
  is_unlocked_now,
}
use m5authenticator.VaultRuntime.Access.{with_plaintext}
use m5authenticator.VaultRuntime.Tests
use m5authenticator.VaultRuntime.Tests.{open_gcm, in_use, formatted}
use m5authenticator.Time.{accept_ntp_sample, mark_synchronized}
use m5authenticator.Time.Service.{
  Wifi, sync_ok, sync_ntp_once, copy_credentials, wait_for_ip, got_ip, connect_and_sync,
  ensure_network_initialized, ask_time, use_sample, teardown_network, acceptable_unix_seconds,
}
use m5authenticator.Time.Service.Driver.{Radio, at_rest, WifiLaws, Down}
use m5authenticator.Time.Service.Range.{wait_for_ip-got_ip, Syncs, InRange}
use m5authenticator.Time.Service.Steps.{
  Call, boots, sets, passes, run, new_service, run-new_service-Syncs,
}
use m5authenticator.Time.Service.Schedule.{boot_sync, boot_attempts, sync_from_usb, resync_if_due}

-- The radio, and the number of pauses so far.
record Station : Type 0 where
  radio : Radio
  pauses : ℕ

abbrev done : Station → Bool × Station
done w = (true, w)

abbrev with_radio : (Radio → Radio) → Station → Station
with_radio f w = record w { radio = f w.radio }

abbrev wifi : Wifi Station
wifi = record {
  start_network = done;
  start_events = done;
  create_station = λ w. (true, with_radio (λ r. record r { station = true }) w);
  init = λ w.
      (true, with_radio (λ r. record r { driver = true; started = false; ram_only = false }) w);
  set_storage = λ w. (true, with_radio (λ r. record r { ram_only = true }) w);
  set_mode = done;
  set_config = λ ssid password w. (
    true,
    with_radio (λ r. record r { in_driver = true; in_flash = not r.ram_only || r.in_flash }) w,
  );
  start = λ w. (true, with_radio (λ r. record r { started = true }) w);
  connect = done;
  has_ip = λ w. (leb 5 w.pauses, w);
  sntp_init = done;
  sntp_wait = done;
  time_of_day = λ w. some (pos 1_700_000_000);
  set_time_of_day = λ n. done;
  monotonic_us = λ w. pos (w.pauses * 100_000);
  sntp_deinit = λ w. w;
  disconnect = λ w. w;
  stop = with_radio (λ r. record r { started = false });
  deinit = with_radio (λ r.
      if r.started then r else record r { driver = false; ram_only = false; in_driver = false });
  destroy_station = with_radio (λ r. record r { station = false });
  delay = λ ticks w. record w { pauses = suc w.pauses };
}

wifi-WifiLaws : WifiLaws wifi (λ w. w.radio)
wifi-WifiLaws = record {
  start_network_lem = λ w. refl;
  start_events_lem = λ w. refl;
  create_station_lem = λ w. refl;
  init_lem = λ w. refl;
  set_storage_lem = λ w. refl;
  set_mode_lem = λ w. refl;
  set_config_lem = λ ssid password w. refl;
  set_config_ram = λ ssid password w e. ground arith;
  start_lem = λ w. refl;
  connect_lem = λ w. refl;
  has_ip_lem = λ w. refl;
  sntp_init_lem = λ w. refl;
  sntp_wait_lem = λ w. refl;
  set_time_of_day_lem = λ n w. refl;
  sntp_deinit_lem = λ w. refl;
  disconnect_lem = λ w. refl;
  stop_lem = λ w. refl;
  deinit_lem = λ w. refl;
  destroy_station_lem = λ w. refl;
  delay_lem = λ n w. refl;
}

abbrev begun : Station
begun = record { radio = at_rest; pauses = 0 }

finds_address :
    got_ip Tests.memory open_gcm wifi begun ≡ (true, record { radio = at_rest; pauses = 5 })
unfolding got_ip wait_for_ip
finds_address = refl

-- Nobody answers.
gives_up :
    got_ip Tests.memory open_gcm (record wifi { has_ip = λ w. (false, w) }) begun
    ≡ (false, record { radio = at_rest; pauses = 60 })
unfolding got_ip wait_for_ip
gives_up = refl

wait_for_ip-got_ip_example :
    wait_for_ip Tests.memory open_gcm wifi 100 0 begun
    ≡ some (got_ip Tests.memory open_gcm wifi begun)
wait_for_ip-got_ip_example = wait_for_ip-got_ip Tests.memory open_gcm wifi 100 begun (ground arith)

-- The runtime in use, with Wi-Fi credentials in its Vault.
abbrev online : Runtime
online = record in_use {
  envelope = record in_use.envelope {
    ciphertext =
        codes "M5AUTH-VLT-PT2"
        ++ ((0 ∷ 0 ∷ 2 ∷ 0 ∷ 0 ∷ 1 ∷ 0 ∷ 4 ∷ codes "home")
            ++ ((0 ∷ 6 ∷ codes "secret") ++ (1 ∷ 3 ∷ [])));
  };
}

-- The first synchronization finds the network, and takes the driver down behind it.
connects :
    let (result, s) =
      boot_sync Tests.memory open_gcm wifi (new_service (online, formatted) begun) in
    (result ≡ sync_ok) × (s.world ≡ record { radio = at_rest; pauses = 5 })
unfolding boot_sync boot_attempts sync_ntp_once copy_credentials connect_and_sync
    ensure_network_initialized ask_time use_sample accept_ntp_sample mark_synchronized
    teardown_network got_ip wait_for_ip new_service acceptable_unix_seconds with_plaintext
    validate_envelope_with_key valid_envelope_framing open_envelope decrypt_vault build_vault_aad
    bytes_eq decode_plaintext read_bytes detect_format plaintext_magic read_u16 read_records
    read_wifi read_u8 read_auto_lock read_auto_lock_flag read_days is_unlocked_now read_sized_text
    is_valid_utf8
connects = (refl, refl)

abbrev calls : List (Call PersistedSnapshot Station)
calls = boots ∷ sets 1_700_000_000 ∷ passes (λ w. record w { pauses = 9 }) ∷ []

run-new_service-Syncs_example :
    let s = run Tests.memory open_gcm wifi calls (new_service (online, formatted) begun) in
    Down Tests.memory open_gcm wifi (λ w. w.radio) wifi-WifiLaws s
    × InRange s.clock
    × Syncs Tests.memory open_gcm wifi
        (λ w. w.radio)
        wifi-WifiLaws
        s
        (boot_sync Tests.memory open_gcm wifi s)
    × ((n : ℕ)
        → Syncs Tests.memory open_gcm wifi
            (λ w. w.radio)
            wifi-WifiLaws
            s
            (sync_from_usb Tests.memory open_gcm wifi n s))
    × ((before : ℤ)
        → Syncs Tests.memory open_gcm wifi
            (λ w. w.radio)
            wifi-WifiLaws
            s
            (resync_if_due Tests.memory open_gcm wifi before s))
run-new_service-Syncs_example =
    run-new_service-Syncs Tests.memory open_gcm wifi (λ w. w.radio) wifi-WifiLaws calls
      (online, formatted) begun (λ w. refl, tt) refl
