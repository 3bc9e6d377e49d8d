-- ===== src/Registration/Operations/Recovery.antt =====
-- The removal of a registration and the recovery from a corrupt one (registration.cpp).
use m5authenticator.Prelude.{Bool, true, not, ◌||◌, List, if◌then◌else◌, Bytes, all_zero}
use m5authenticator.Nvs.{Nvs, EspErr, esp_ok, is_esp_ok, is_nvs_not_found, readwrite}
use m5authenticator.Registration.{Status, ok, io, Store, new_store}
use m5authenticator.Registration.Operations.{
  initialize, RegistrationKey, registration_key, map_error, device_id_key, cleared,
}

module _ {S : Type 0} (nvs : Nvs RegistrationKey S) (valid_public_key : Bytes → Bool) where
  -- `nvs_erase_key`, where a missing key is no error.
  unfoldable pub erase_registration : S → EspErr × S
  erase_registration s =
      let (result, s') = nvs.erase_key registration_key s in
      ((if is_nvs_not_found result then esp_ok else result), s')

  unfoldable pub clear_registration : Store × S → Status × (Store × S)
  clear_registration (r, s) =
      let (opened, s1) = nvs.open_namespace readwrite s in
      let (result, s2) = erase_registration s1 in
      let (committed, s3) = nvs.commit s2 in
      if not r.ready
      then (io, (r, s))
      else if not (is_esp_ok opened)
      then (map_error opened, (r, s1))
      else if not (is_esp_ok result)
      then (map_error result, (r, s2))
      else if not (is_esp_ok committed)
      then (map_error committed, (r, s3))
      else (ok, (cleared r, s3))

  -- A corrupt Device id: the namespace is cleared and the candidate is written.
  unfoldable pub rewrite_device_id : Bytes → S → EspErr × S
  rewrite_device_id id s =
      let (result, s1) = nvs.erase_namespace s in
      let written = nvs.set_blob device_id_key id s1 in
      if is_esp_ok result then written else (result, s1)

  unfoldable pub clear_corrupt_registration_for_recovery : Store × S → Status × (Store × S)
  clear_corrupt_registration_for_recovery (r, s) =
      let (opened, s1) = nvs.open_namespace readwrite s in
      let (result, s2) =
        (if r.device_id_recovery_required
          then rewrite_device_id r.current.device_id s1
          else erase_registration s1) in
      let (committed, s3) = nvs.commit s2 in
      let ordinary = clear_registration (r, s) in
      if r.ready
      then ordinary
      else if not r.recovery_reset_available || all_zero r.current.device_id
      then (io, (r, s))
      else if not (is_esp_ok opened)
      then (map_error opened, (r, s1))
      else if not (is_esp_ok result)
      then (map_error result, (r, s2))
      else if not (is_esp_ok committed)
      then (map_error committed, (r, s3))
      else (ok, (record (cleared r) { ready = true }, s3))

  unfoldable pub reinitialize_after_partition_reset :
      List Bytes → List Bytes → Store × S → Status × (Store × S)
  reinitialize_after_partition_reset draws recovery_draws (r, s) =
      initialize nvs valid_public_key draws recovery_draws (new_store, s)
