-- ===== src/Registration/Operations.antt =====
-- The methods of `Store` (registration.cpp), on the store and the key-value store. `nvs_close` is
-- left out.
pub mod Recovery
use m5authenticator.Prelude.{
  ℕ, ◌+◌, Bool, true, false, not, ◌&&◌, ◌||◌, Option, none, some, List, [], ◌∷◌, ◌==◌,
  if◌then◌else◌, length, Bytes, replicate, bytes_eq, all_zero, u32_max,
}
use m5authenticator.Nvs.{
  Nvs, EspErr, esp_ok, nvs_not_found, esp_not_found, invalid_arg, is_esp_ok, is_nvs_not_found,
  readonly, readwrite,
}
use m5authenticator.Registration.{
  Status, ok, not_found, invalid_argument, conflict, corrupt, io, is_ok, is_corrupt, is_not_found,
  Snapshot, Store, unregistered, encoded_registration_bytes, encode_registration,
  decode_registration, new_store,
}

pub data RegistrationKey : Type 0 where
  device_id_key registration_key : RegistrationKey

unfoldable pub map_error : EspErr → Status
map_error esp_ok = ok
map_error nvs_not_found = not_found
map_error esp_not_found = not_found
map_error invalid_arg = invalid_argument
map_error _ = io

-- `generate_device_id_candidate`: the first of the random draws that is not zero. The loop ends when
-- one is; the draws are taken to be enough of them.
unfoldable pub generate_device_id_candidate : List Bytes → Bytes
generate_device_id_candidate [] = replicate 16 0
generate_device_id_candidate (drawn ∷ draws) =
    let rest = generate_device_id_candidate draws in if all_zero drawn then rest else drawn

-- What `clear_registration` and the recovery leave of the store.
abbrev pub cleared : Store → Store
cleared r = record r {
  current = unregistered r.current.device_id;
  recovery_reset_available = false;
  device_id_recovery_required = false;
}

unfoldable pub snapshot : Store → Status × Option Snapshot
snapshot r =
    if r.ready
    then (ok, some r.current)
    else if r.recovery_reset_available
    then (corrupt, some r.current)
    else (io, none)

module _ {S : Type 0} (nvs : Nvs RegistrationKey S) (valid_public_key : Bytes → Bool) where
  -- The bytes of the registration, behind the opening and with the length that was asked for first.
  unfoldable pub read_registration : Bytes → S → Status × Snapshot
  read_registration device_id s =
      let (probe, size) = nvs.get_blob_size registration_key s in
      let (result, encoded) = nvs.get_blob registration_key s in
      if is_nvs_not_found probe
      then (not_found, unregistered device_id)
      else if not (is_esp_ok probe)
      then (map_error probe, unregistered device_id)
      else if not (size == encoded_registration_bytes)
      then (corrupt, unregistered device_id)
      else if not (is_esp_ok result)
      then (map_error result, unregistered device_id)
      else if not (length encoded == encoded_registration_bytes)
      then (corrupt, unregistered device_id)
      else decode_registration valid_public_key encoded device_id

  -- With the snapshot that it leaves.
  unfoldable pub load_registration : Bytes → S → (Status × Snapshot) × S
  load_registration device_id s =
      let (opened, s') = nvs.open_namespace readonly s in
      let read = read_registration device_id s' in
      if is_esp_ok opened then (read, s') else ((map_error opened, unregistered device_id), s')

  -- The Device id that is there, checked.
  unfoldable pub existing_device_id : S → Status × Bytes
  existing_device_id s =
      let (probe, size) = nvs.get_blob_size device_id_key s in
      let (result, id) = nvs.get_blob device_id_key s in
      if not (size == 16)
      then (corrupt, replicate 16 0)
      else if not (is_esp_ok result)
      then (map_error result, replicate 16 0)
      else if not (length id == 16) || all_zero id
      then (corrupt, replicate 16 0)
      else (ok, id)

  -- The new one, written.
  unfoldable pub create_device_id : Bytes → S → (Status × Bytes) × S
  create_device_id id s =
      let (result, s1) = nvs.set_blob device_id_key id s in
      let (committed, s2) = nvs.commit s1 in
      if not (is_esp_ok result)
      then ((map_error result, replicate 16 0), s1)
      else if not (is_esp_ok committed)
      then ((map_error committed, replicate 16 0), s2)
      else ((ok, id), s2)

  unfoldable pub load_or_create_device_id : List Bytes → S → (Status × Bytes) × S
  load_or_create_device_id draws s =
      let (opened, s') = nvs.open_namespace readwrite s in
      let probe = (nvs.get_blob_size device_id_key s').0 in
      let existing = existing_device_id s' in
      let created = create_device_id (generate_device_id_candidate draws) s' in
      if not (is_esp_ok opened)
      then ((map_error opened, replicate 16 0), s')
      else if is_esp_ok probe
      then (existing, s')
      else if not (is_nvs_not_found probe)
      then ((map_error probe, replicate 16 0), s')
      else created

  -- `initialize` behind the Device id, with the registration that was loaded.
  unfoldable pub initialize_with : Bytes → Status × Snapshot → Status × Store
  initialize_with device_id (status, loaded) =
      if is_corrupt status
      then (
        status,
        record {
          ready = false;
          recovery_reset_available = true;
          device_id_recovery_required = false;
          current = unregistered device_id;
        },
      )
      else if not (is_ok status) && not (is_not_found status)
      then (status, new_store)
      else (ok, record new_store { ready = true; current = loaded })

  -- `draws` are those of a new id, `recovery_draws` those of the candidate for a corrupt one.
  unfoldable pub initialize : List Bytes → List Bytes → Store × S → Status × (Store × S)
  initialize draws recovery_draws (r, s) =
      let (started, s1) = nvs.init s in
      let ((status, device_id), s2) = load_or_create_device_id draws s1 in
      let (loaded, s3) = load_registration device_id s2 in
      let (result, r') = initialize_with device_id loaded in
      if not (is_esp_ok started)
      then (map_error started, (new_store, s1))
      else if is_corrupt status
      then (
        status,
        (
          record new_store {
            current = unregistered (generate_device_id_candidate recovery_draws);
            recovery_reset_available = true;
            device_id_recovery_required = true;
          },
          s2,
        ),
      )
      else if not (is_ok status)
      then (status, (record new_store { current = unregistered device_id }, s2))
      else (result, (r', s3))

  unfoldable pub persist_registration : Bytes → Bytes → ℕ → Bytes → Store × S → Status × (Store × S)
  persist_registration vault_id registration_id epoch brk_public_key (r, s) =
      let encoded = encode_registration vault_id registration_id epoch brk_public_key in
      let (opened, s1) = nvs.open_namespace readwrite s in
      let (result, s2) = nvs.set_blob registration_key encoded s1 in
      let (committed, s3) = nvs.commit s2 in
      if all_zero vault_id
        || all_zero registration_id
        || epoch == 0
        || not (valid_public_key brk_public_key)
      then (invalid_argument, (r, s))
      else if not (is_esp_ok opened)
      then (map_error opened, (r, s1))
      else if not (is_esp_ok result)
      then (map_error result, (r, s2))
      else if not (is_esp_ok committed)
      then (map_error committed, (r, s3))
      else (
        ok,
        (
          record r {
            current = record {
              device_id = r.current.device_id;
              registration_present = true;
              vault_id = vault_id;
              registration_id = registration_id;
              epoch = epoch;
              brk_public_key = brk_public_key;
            };
          },
          s3,
        ),
      )

  -- The store with what was read again.
  abbrev pub refreshed : Store → Snapshot → Store
  refreshed r loaded = record r { current = loaded }

  unfoldable pub install_initial : Bytes → Bytes → ℕ → Bytes → Store × S → Status × (Store × S)
  install_initial vault_id registration_id epoch brk_public_key (r, s) =
      let ((refresh, loaded), s1) = load_registration r.current.device_id s in
      let persisted =
        persist_registration vault_id registration_id epoch brk_public_key
          (refreshed r loaded, s1) in
      if not r.ready
      then (io, (r, s))
      else if is_ok refresh
      then (conflict, (refreshed r loaded, s1))
      else if not (is_not_found refresh)
      then (refresh, (refreshed r loaded, s1))
      else if not (epoch == 1)
      then (invalid_argument, (refreshed r loaded, s1))
      else persisted

  unfoldable pub replace : Bytes → ℕ → Bytes → ℕ → Bytes → Store × S → Status × (Store × S)
  replace vault_id expected_epoch registration_id new_epoch brk_public_key (r, s) =
      let ((refresh, loaded), s1) = load_registration r.current.device_id s in
      let persisted =
        persist_registration vault_id registration_id new_epoch brk_public_key
          (refreshed r loaded, s1) in
      if not r.ready
        || expected_epoch == 0
        || expected_epoch == u32_max
        || not (new_epoch == expected_epoch + 1)
      then (invalid_argument, (r, s))
      else if not (is_ok refresh)
      then (refresh, (refreshed r loaded, s1))
      else if not loaded.registration_present
          || not (bytes_eq loaded.vault_id vault_id)
          || not (loaded.epoch == expected_epoch)
      then (conflict, (refreshed r loaded, s1))
      else persisted
