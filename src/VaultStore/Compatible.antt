-- ===== src/VaultStore/Compatible.antt =====
-- compatible_nvs_persistence.cpp: a partition that the superseded first schema encrypted with its fixed
-- keys is told from a corrupt one. `secure` is the partition as it is initialised with those keys. Every
-- other method passes the call on.
use m5authenticator.Prelude.{◌≡◌, Bool, true, false, ◌&&◌, ◌||◌, arith, ◌==◌, if◌then◌else◌}
use m5authenticator.Nvs.{Nvs, readonly, is_esp_ok}
use m5authenticator.VaultRuntime.{
  Status, ok, is_ok, PersistedSnapshot, Persistence, reprovision_status,
}
use m5authenticator.VaultStore.Slots.{
  load, format_schema2, replace_envelope, set_last_used, erase_all,
}
use m5authenticator.VaultStore.Slots.Answers.{schema_key, VaultKey, empty_snapshot}

abbrev pub is_reprovision : Status → Bool
is_reprovision reprovision_status = true
is_reprovision _ = false

module _ {S : Type 0} (nvs legacy secure : Nvs VaultKey S) where
  unfoldable pub legacy_schema1_present : S → Bool
  legacy_schema1_present s =
      let (initialised, s1) = secure.init s in
      let (opened, s2) = secure.open_namespace readonly s1 in
      let (result, schema) = secure.get_u32 schema_key s2 in
      is_esp_ok initialised && is_esp_ok opened && is_esp_ok result && schema == 1

  unfoldable pub compatible_load : S → Status × PersistedSnapshot
  compatible_load s =
      let (primary, snapshot) = load nvs legacy s in
      if is_ok primary || is_reprovision primary
      then (primary, snapshot)
      else if legacy_schema1_present s
      then (reprovision_status, empty_snapshot)
      else (primary, snapshot)

  unfoldable pub compatible_nvs_persistence : Persistence S
  compatible_nvs_persistence = record {
    load = compatible_load;
    format_schema2 = format_schema2 nvs;
    replace_envelope = replace_envelope nvs;
    set_last_used = set_last_used nvs;
    erase_all = erase_all nvs;
  }

  -- The probe offers no Vault: what loads is what the two slots hold.
  compatible_load-ok : (s : S) → (compatible_load s).0 ≡ ok → compatible_load s ≡ load nvs legacy s
  unfolding compatible_load
  compatible_load-ok s h = ground arith
