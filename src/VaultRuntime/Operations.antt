-- ===== src/VaultRuntime/Operations.antt =====
-- The operations of `Runtime` (runtime.cpp, rekey.cpp, metadata.cpp). An operation takes the
-- runtime and what the persistence keeps, and gives its status with both after it. A consumer is
-- the function that the caller passes; what it does with the secret is the caller's.
pub mod Boundaries
use m5authenticator.Prelude.{
  ℕ, ◌+◌, Bool, true, false, not, ◌&&◌, ◌||◌, none, ◌==◌, if◌then◌else◌, Bytes, bytes_eq,
}
use m5authenticator.VaultRuntime.{
  unprovisioned_status, reprovision_status, Runtime, Status, Persistence, PersistedSnapshot,
  valid_envelope_framing, same_envelope, validate_envelope_with_key, clear_unlock_session_state,
  begin_unlock_session, explicit_reset_recovery_status, wipe_vmk, is_unlocked, error, is_ok,
  not_ready, corrupt, reprovision_required, unprovisioned, generation_mismatch, unlocked, is_error,
  ok, invalid_state, unprovisioned_status, unsupported_vault_format, is_unprovisioned, is_locked,
  locked, invalid_argument,
}
use m5authenticator.Vault.{
  VaultEnvelope, empty_envelope, is_supported_vault_format, vault_format_version2,
  vault_format_version1,
}
use m5authenticator.Vault.Crypto.{AesGcm}
use m5authenticator.Prelude.{u64_max}
use m5authenticator.VaultRuntime.Operations.Boundaries.{
  fail, or_corrupt, initialize_from, reset_fields, reload_from,
}

module _ {Store : Type 0} (persistence : Persistence Store) (gcm : AesGcm) where
  unfoldable pub initialize : Runtime × Store → Status × (Runtime × Store)
  unfolding initialize_from
  initialize (r, store) =
      let (status, snapshot) = persistence.load store in
      let (result, r') = initialize_from status snapshot (reset_fields r) in (result, (r', store))

  unfoldable pub reload_after_persistence : Runtime × Store → Status × (Runtime × Store)
  unfolding reload_from
  reload_after_persistence (r, store) =
      let (status, snapshot) = persistence.load store in
      let (result, r') = reload_from status snapshot r in (result, (r', store))

  unfoldable pub format_for_schema2 : Runtime × Store → Status × (Runtime × Store)
  unfolding reload_after_persistence
  format_for_schema2 (r, store) =
      let cleared = clear_unlock_session_state r in
      let (status, store') = persistence.format_schema2 store in
      let formatted = reload_after_persistence (cleared, store') in
      if not r.initialized
      then (not_ready, (r, store))
      else if not (is_ok status)
      then (
        status,
        (
          record cleared {
            state = error;
            recovery_reset_allowed = explicit_reset_recovery_status status;
          },
          store',
        ),
      )
      else formatted

  -- The end of `install_encrypted_vault`, on what the reload gave.
  unfoldable pub finish_install :
      VaultEnvelope → Status × (Runtime × Store) → Status × (Runtime × Store)
  finish_install envelope (status, (r, store)) =
      if not (is_ok status) || not r.has_vault || not (same_envelope r.envelope envelope)
      then (
        or_corrupt status,
        (fail (is_ok status || explicit_reset_recovery_status status) r, store),
      )
      else (ok, (r, store))

  unfoldable pub install_encrypted_vault :
      VaultEnvelope → Bytes → Runtime × Store → Status × (Runtime × Store)
  unfolding finish_install
  install_encrypted_vault envelope vmk (r, store) =
      let status = (validate_envelope_with_key gcm envelope vmk).0 in
      let (replaced, store') = persistence.replace_envelope 0 envelope store in
      let reloaded = reload_after_persistence (r, store') in
      if not r.initialized || not r.schema_ready
      then (not_ready, (r, store))
      else if not (is_unprovisioned r.state) || r.has_vault
      then (invalid_state, (r, store))
      else if not (is_ok status)
      then (status, (r, store))
      else if not (is_ok replaced)
      then (replaced, (r, store'))
      else finish_install envelope reloaded

  unfoldable pub unlock : Bytes → ℕ → Runtime × Store → Status × (Runtime × Store)
  unlock vmk now_ms (r, store) =
      let (status, policy) = validate_envelope_with_key gcm r.envelope vmk in
      if not r.initialized
      then (not_ready, (r, store))
      else if not (is_locked r.state) || not r.has_vault
      then (invalid_state, (r, store))
      else if not (is_ok status)
      then (status, (r, store))
      else (
        ok,
        (
          record (begin_unlock_session policy now_ms
              (record (clear_unlock_session_state r) { vmk = vmk; vmk_present = true })) {
                state = unlocked;
                recovery_reset_allowed = false;
              },
          store,
        ),
      )
