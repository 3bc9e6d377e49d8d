-- ===== src/VaultStore/Slots/Answers.antt =====
-- What `NvsPersistence` makes of the answers of the key-value store (nvs_persistence.cpp): its keys,
-- its statuses and the slot that comes next.
use m5authenticator.Prelude.{
  ℕ, ◌+◌, ◌-◌, false, not, ◌||◌, Option, none, some, ltb, ◌==◌, if◌then◌else◌, bytes_eq, u64_max,
}
use m5authenticator.Nvs.{
  EspErr, esp_ok, nvs_not_found, esp_not_found, invalid_arg, no_free_pages, new_version_found,
  other_error, is_esp_ok, is_nvs_not_found,
}
use m5authenticator.Vault.{VaultEnvelope, empty_envelope}
use m5authenticator.VaultRuntime.{
  Status, ok, not_found, invalid_argument, corrupt, unsupported_schema, reprovision_status, io,
  is_ok, PersistedSnapshot,
}

-- The keys of the namespace.
pub data VaultKey : Type 0 where
  schema_key active_slot_key slot0_key slot1_key last_used_key : VaultKey

abbrev pub slot_key : ℕ → VaultKey
slot_key slot = if slot == 0 then slot0_key else slot1_key

unfoldable pub map_error : EspErr → Status
map_error esp_ok = ok
map_error nvs_not_found = not_found
map_error esp_not_found = not_found
map_error invalid_arg = invalid_argument
map_error no_free_pages = corrupt
map_error new_version_found = unsupported_schema
map_error other_error = io

-- What a reading of the active envelope gives: the slot and the envelope, that there is none, or a
-- failure.
pub data Active : Type 0 where
  active : ℕ → VaultEnvelope → Active
  no_active : Active
  failed : Status → Active

abbrev pub empty_snapshot : PersistedSnapshot
empty_snapshot = record {
  schema_ready = false;
  has_vault = false;
  envelope = empty_envelope;
  last_used = none;
}

-- The tests of `NvsPersistence::load` on the schema number.
unfoldable pub schema_status : ℕ → Status
schema_status schema =
    if schema == 1
    then reprovision_status
    else if ltb 2 schema
    then unsupported_schema
    else if not (schema == 2)
    then corrupt
    else ok

unfoldable pub legacy_status : ℕ → Status
legacy_status schema =
    if schema == 1 then reprovision_status else if ltb 2 schema then unsupported_schema else corrupt

-- The check of the generations in `replace_envelope`: the slot to write, or nothing.
unfoldable pub next_slot : ℕ → VaultEnvelope → Active → Option ℕ
next_slot expected_generation e (failed status) = none
next_slot expected_generation e no_active = if expected_generation == 0 then some 0 else none
next_slot expected_generation e (active slot current) =
    if expected_generation == 0
      || not (current.generation == expected_generation)
      || expected_generation == u64_max
      || not (e.generation == expected_generation + 1)
      || not (bytes_eq e.vault_id current.vault_id)
    then none
    else some (1 - slot)

-- The envelope in the slot that the pointer names.
unfoldable pub pointed : EspErr × ℕ → (ℕ → Active) → Active
pointed (esp_ok, slot) there = if ltb 1 slot then failed corrupt else there slot
pointed (nvs_not_found, slot) there = no_active
pointed (result, slot) there = failed (map_error result)

-- The checks of the schema number, and what `load` gives behind them.
unfoldable pub load_schema : EspErr × ℕ → Status × PersistedSnapshot → Status × PersistedSnapshot
load_schema (result, schema) rest =
    if is_nvs_not_found result
    then (corrupt, empty_snapshot)
    else if not (is_esp_ok result)
    then (map_error result, empty_snapshot)
    else if not (is_ok (schema_status schema))
    then (schema_status schema, empty_snapshot)
    else rest
