-- ===== src/VaultStore/Slots.antt =====
-- The operations of `NvsPersistence`: the two slots, the pointer to the active one, and the schema.
-- Opening changes no value, so a reading gives no new store. `nvs_close` releases a handle and is
-- left out, as is the wiping of buffers.
pub mod Answers
use m5authenticator.Prelude.{
  ℕ, ◌+◌, ◌-◌, true, false, not, ◌||◌, Option, none, some, [], ltb, ◌==◌, if◌then◌else◌, Bytes,
  bytes_eq, u64_max,
}
use m5authenticator.Nvs.{
  Nvs, EspErr, esp_ok, nvs_not_found, esp_not_found, invalid_arg, no_free_pages, new_version_found,
  other_error, is_esp_ok, is_nvs_not_found, is_esp_not_found, readonly, readwrite,
}
use m5authenticator.Vault.{VaultEnvelope, empty_envelope, credential_id_bytes}
use m5authenticator.VaultRuntime.{
  Status, ok, not_found, invalid_argument, corrupt, unsupported_schema, unprovisioned_status,
  reprovision_status, generation_mismatch, io, is_ok, PersistedSnapshot, Persistence, same_envelope,
  max_persisted_ciphertext_bytes,
}
use m5authenticator.VaultStore.{
  decode_envelope, encode_envelope, valid_envelope, Decoded, decoded, undecoded,
}
use m5authenticator.VaultStore.Slots.Answers.{
  active, no_active, failed, schema_key, active_slot_key, slot0_key, slot1_key, last_used_key,
  VaultKey, slot_key, map_error, Active, empty_snapshot, legacy_status, next_slot, pointed,
  load_schema, active, failed, active_slot_key, last_used_key, schema_key,
}

module _ {S : Type 0} (nvs : Nvs VaultKey S) where
  unfoldable pub read_blob : VaultKey → S → Status × Bytes
  read_blob key s =
      let (probe, size) = nvs.get_blob_size key s in
      let (result, output) = nvs.get_blob key s in
      if not (is_esp_ok probe)
      then (map_error probe, [])
      else if size == 0 || ltb (max_persisted_ciphertext_bytes + 128) size
      then (corrupt, [])
      else if not (is_esp_ok result)
      then (map_error result, [])
      else (ok, output)

  abbrev pub decoded_slot : ℕ → Decoded → Active
  decoded_slot slot (decoded e) = active slot e
  decoded_slot slot (undecoded status) = failed status

  -- The blob of a slot, decoded.
  unfoldable pub read_slot : ℕ → S → Active
  read_slot slot s =
      let (status, encoded) = read_blob (slot_key slot) s in
      if is_ok status then decoded_slot slot (decode_envelope encoded) else failed status

  unfoldable pub read_active : S → Active
  unfolding pointed
  read_active s = pointed (nvs.get_u8 active_slot_key s) (λ slot. read_slot slot s)

  unfoldable pub read_last_used : S → Status × Option Bytes
  read_last_used s =
      let (probe, size) = nvs.get_blob_size last_used_key s in
      let (result, credential_id) = nvs.get_blob last_used_key s in
      if is_nvs_not_found probe
      then (ok, none)
      else if not (is_esp_ok probe)
      then (map_error probe, none)
      else if not (size == credential_id_bytes)
      then (corrupt, none)
      else if not (is_esp_ok result)
      then (map_error result, none)
      else (ok, some credential_id)

  -- What `load` fills in and returns behind the reading of the active envelope.
  unfoldable pub load_vault : Active → Status × Option Bytes → Status × PersistedSnapshot
  load_vault (failed status) last = (status, record empty_snapshot { schema_ready = true })
  load_vault no_active (status, last) =
      (status, record empty_snapshot { schema_ready = true; last_used = last })
  load_vault (active slot e) (status, last) = (
    status,
    record empty_snapshot { schema_ready = true; has_vault = true; envelope = e; last_used = last },
  )

  -- `load` behind the opening of the namespace.
  unfoldable pub load_opened : S → Status × PersistedSnapshot
  unfolding load_schema
  load_opened s =
      load_schema (nvs.get_u32 schema_key s) (load_vault (read_active s) (read_last_used s))

  -- The schema number that a write requires.
  unfoldable pub write_status : S → Status
  write_status s =
      let (result, schema) = nvs.get_u32 schema_key s in
      if not (is_esp_ok result)
      then map_error result
      else if schema == 2
      then ok
      else unsupported_schema

  -- Phase 2: the pointer is set to the slot.
  unfoldable pub flip_active : ℕ → S → Status × S
  flip_active slot s =
      let (result, s') = nvs.set_u8 active_slot_key slot s in
      let (committed, s'') = nvs.commit s' in
      if is_esp_ok result then (map_error committed, s'') else (map_error result, s')

  -- The staged copy is read back and compared.
  unfoldable pub staged_status : VaultEnvelope → Active → Status
  staged_status e (active slot staged) = if same_envelope staged e then ok else corrupt
  staged_status e no_active = corrupt
  staged_status e (failed status) = status

  -- Phase 1: the candidate is written to the inactive slot.
  unfoldable pub stage : ℕ → VaultEnvelope → Bytes → S → Status × S
  stage slot e encoded s =
      let (result, s') = nvs.set_blob (slot_key slot) encoded s in
      let (committed, s'') = nvs.commit s' in
      let status = staged_status e (read_slot slot s'') in
      let flipped = flip_active slot s'' in
      if not (is_esp_ok result)
      then (map_error result, s')
      else if not (is_esp_ok committed)
      then (map_error committed, s'')
      else if not (is_ok status)
      then (status, s'')
      else flipped

  -- `replace_envelope` behind the check of the generations.
  unfoldable pub stage_next : VaultEnvelope → Option ℕ → Option Bytes → S → Status × S
  stage_next e none encoded s = (generation_mismatch, s)
  stage_next e (some slot) none s = (invalid_argument, s)
  stage_next e (some slot) (some encoded) s = stage slot e encoded s

  abbrev pub refuse_failed : Active → S → Status × S → Status × S
  refuse_failed (failed status) s written = (status, s)
  refuse_failed _ s written = written

  -- `replace_envelope` behind the opening of the namespace.
  unfoldable pub replace_opened : ℕ → VaultEnvelope → S → Status × S
  replace_opened expected_generation e s =
      let now = read_active s in
      let written = stage_next e (next_slot expected_generation e now) (encode_envelope e) s in
      if not (is_ok (write_status s)) then (write_status s, s) else refuse_failed now s written

  unfoldable pub replace_envelope : ℕ → VaultEnvelope → S → Status × S
  replace_envelope expected_generation e s =
      let (initialised, s1) = nvs.init s in
      let (opened, s2) = nvs.open_namespace readwrite s1 in
      let replaced = replace_opened expected_generation e s2 in
      if not (valid_envelope e)
      then (invalid_argument, s)
      else if not (is_esp_ok initialised)
      then (map_error initialised, s1)
      else if not (is_esp_ok opened)
      then (map_error opened, s2)
      else replaced

  unfoldable pub write_last_used : Option Bytes → S → EspErr × S
  write_last_used (some id) s = nvs.set_blob last_used_key id s
  write_last_used none s =
      let (result, s') = nvs.erase_key last_used_key s in
      ((if is_nvs_not_found result then esp_ok else result), s')

  unfoldable pub set_last_used : Option Bytes → S → Status × S
  set_last_used id s =
      let (initialised, s1) = nvs.init s in
      let (opened, s2) = nvs.open_namespace readwrite s1 in
      let (result, s3) = write_last_used id s2 in
      let (committed, s4) = nvs.commit s3 in
      if not (is_esp_ok initialised)
      then (map_error initialised, s1)
      else if not (is_esp_ok opened)
      then (map_error opened, s2)
      else if not (is_ok (write_status s2))
      then (write_status s2, s2)
      else if not (is_esp_ok result)
      then (map_error result, s3)
      else (map_error committed, s4)

  unfoldable pub format_schema2 : S → Status × S
  format_schema2 s =
      let (erased, s1) = nvs.erase_partition s in
      let (initialised, s2) = nvs.init s1 in
      let (opened, s3) = nvs.open_namespace readwrite s2 in
      let (result, s4) = nvs.set_u32 schema_key 2 s3 in
      let (committed, s5) = nvs.commit s4 in
      if not (is_esp_ok erased)
      then (map_error erased, s1)
      else if not (is_esp_ok initialised)
      then (map_error initialised, s2)
      else if not (is_esp_ok opened)
      then (map_error opened, s3)
      else if not (is_esp_ok result)
      then (map_error result, s4)
      else (map_error committed, s5)

  unfoldable pub erase_all : S → Status × S
  erase_all s = let (erased, s') = nvs.erase_partition s in (map_error erased, s')

  module _ (legacy : Nvs VaultKey S) where
    -- The namespace of the first schema.
    unfoldable pub detect_legacy_schema : S → Status
    detect_legacy_schema s =
        let (opened, s') = legacy.open_namespace readonly s in
        let (result, schema) = legacy.get_u32 schema_key s' in
        if is_nvs_not_found opened
        then unprovisioned_status
        else if not (is_esp_ok opened)
        then map_error opened
        else if is_nvs_not_found result
        then unprovisioned_status
        else if not (is_esp_ok result)
        then map_error result
        else legacy_status schema

    unfoldable pub load : S → Status × PersistedSnapshot
    load s =
        let (initialised, s1) = nvs.init s in
        let (opened, s2) = nvs.open_namespace readonly s1 in
        let rest = load_opened s2 in
        if not (is_esp_ok initialised)
        then (map_error initialised, empty_snapshot)
        else if is_nvs_not_found opened || is_esp_not_found opened
        then (detect_legacy_schema s2, empty_snapshot)
        else if not (is_esp_ok opened)
        then (map_error opened, empty_snapshot)
        else rest

    -- The class, as the runtime's persistence.
    unfoldable pub nvs_persistence : Persistence S
    nvs_persistence = record {
      load = load;
      format_schema2 = format_schema2;
      replace_envelope = replace_envelope;
      set_last_used = set_last_used;
      erase_all = erase_all;
    }
