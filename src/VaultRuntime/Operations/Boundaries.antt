-- ===== src/VaultRuntime/Operations/Boundaries.antt =====
-- The steps of the runtime that call no medium: locking, the boundaries and what is taken over from a
-- snapshot (runtime.cpp, rekey.cpp, metadata.cpp).
use m5authenticator.Prelude.{
  ℕ, ◌+◌, Bool, true, false, not, ◌&&◌, ◌||◌, none, ◌==◌, if◌then◌else◌, bytes_eq,
}
use m5authenticator.VaultRuntime.{
  unprovisioned_status, reprovision_status, Runtime, Status, PersistedSnapshot,
  valid_envelope_framing, same_envelope, clear_unlock_session_state, explicit_reset_recovery_status,
  wipe_vmk, is_unlocked, error, is_ok, not_ready, corrupt, reprovision_required, unprovisioned,
  generation_mismatch, unlocked, is_error, ok, invalid_state, unprovisioned_status,
  unsupported_vault_format, locked, invalid_argument,
}
use m5authenticator.Vault.{
  VaultEnvelope, empty_envelope, is_supported_vault_format, vault_format_version2,
  vault_format_version1,
}
use m5authenticator.Prelude.{u64_max}

-- `state_ != kUnlocked || !vmk_present_ || !has_vault_` does not hold.
abbrev pub usable : Runtime → Bool
usable r = is_unlocked r.state && r.vmk_present && r.has_vault

abbrev pub fail : Bool → Runtime → Runtime
fail recovery_reset_allowed r =
    clear_unlock_session_state
      (record r { state = error; recovery_reset_allowed = recovery_reset_allowed })

-- The status of a failed call, or `kCorrupt` where only what it gave is wrong.
abbrev pub or_corrupt : Status → Status
or_corrupt status = if is_ok status then corrupt else status

unfoldable pub lock : Runtime → Status × Runtime
lock r =
    if not r.initialized
    then (not_ready, r)
    else if is_error r.state
    then (invalid_state, clear_unlock_session_state r)
    else (
      ok,
      record (clear_unlock_session_state r) {
        state = (if r.has_vault then locked else unprovisioned);
      },
    )

-- `enter_recovery_boundary`, whose body is that of `lock`.
unfoldable pub enter_recovery_boundary : Runtime → Status × Runtime
enter_recovery_boundary r =
    if not r.initialized
    then (not_ready, r)
    else if is_error r.state
    then (invalid_state, clear_unlock_session_state r)
    else (
      ok,
      record (clear_unlock_session_state r) {
        state = (if r.has_vault then locked else unprovisioned);
      },
    )

unfoldable pub fatal_security_error : Runtime → Status × Runtime
fatal_security_error r = if not r.initialized then (not_ready, r) else (
  ok,
  record (clear_unlock_session_state r) { state = error; recovery_reset_allowed = true },
)

unfoldable pub enter_vmk_rekey_boundary : Runtime → Status × Runtime
enter_vmk_rekey_boundary r =
    if not r.initialized
    then (not_ready, r)
    else if not (usable r) || not r.unlock_session_active
    then (invalid_state, r)
    else (ok, record (wipe_vmk r) { state = locked })

-- What `initialize` makes of the snapshot, on the runtime that it has reset.
unfoldable pub adopt_snapshot : PersistedSnapshot → Runtime → Status × Runtime
adopt_snapshot snapshot r =
    if not snapshot.schema_ready
    then (corrupt, record r { state = error; recovery_reset_allowed = true })
    else let supported_format = is_supported_vault_format snapshot.envelope.vault_format_version in
      let ready = record r { schema_ready = true; last_used = snapshot.last_used } in
      if not snapshot.has_vault
      then (unprovisioned_status, ready)
      else if not (valid_envelope_framing snapshot.envelope)
      then (
        (if supported_format then corrupt else unsupported_vault_format),
        record ready { state = error; recovery_reset_allowed = supported_format },
      )
      else (ok, record ready { has_vault = true; envelope = snapshot.envelope; state = locked })

unfoldable pub initialize_from : Status → PersistedSnapshot → Runtime → Status × Runtime
unfolding adopt_snapshot
initialize_from unprovisioned_status snapshot r = (unprovisioned_status, r)
initialize_from reprovision_status snapshot r =
    (reprovision_status, record r { state = reprovision_required; recovery_reset_allowed = true })
initialize_from ok snapshot r = adopt_snapshot snapshot r
initialize_from status snapshot r = (
  status,
  record r { state = error; recovery_reset_allowed = explicit_reset_recovery_status status },
)

-- The fields that `initialize` sets before it reads.
abbrev pub reset_fields : Runtime → Runtime
reset_fields r = record (clear_unlock_session_state r) {
  initialized = true;
  schema_ready = false;
  has_vault = false;
  recovery_reset_allowed = false;
  envelope = empty_envelope;
  last_used = none;
  state = unprovisioned;
}

-- `reload_after_persistence` behind its read.
unfoldable pub reload_from : Status → PersistedSnapshot → Runtime → Status × Runtime
reload_from status snapshot r =
    if not (is_ok status) || not snapshot.schema_ready
    then (or_corrupt status, fail (is_ok status || explicit_reset_recovery_status status) r)
    else let supported_format = is_supported_vault_format snapshot.envelope.vault_format_version in
      let ready = record r {
        recovery_reset_allowed = false;
        schema_ready = true;
        last_used = snapshot.last_used;
        has_vault = snapshot.has_vault;
      } in
      if not snapshot.has_vault
      then (
        ok,
        clear_unlock_session_state
            (record ready { envelope = empty_envelope; state = unprovisioned }),
      )
      else if not (valid_envelope_framing snapshot.envelope)
      then (
        (if supported_format then corrupt else unsupported_vault_format),
        fail supported_format ready,
      )
      else (
        ok,
        clear_unlock_session_state (record ready { envelope = snapshot.envelope; state = locked }),
      )

-- The check of the generation, the id and the format, which `update_encrypted_vault` and
-- `rekey_encrypted_vault` share.
unfoldable pub successor_status : ℕ → VaultEnvelope → VaultEnvelope → Status
successor_status expected_generation envelope current =
    if not (expected_generation == current.generation)
      || expected_generation == u64_max
      || not (envelope.generation == expected_generation + 1)
      || not (bytes_eq envelope.vault_id current.vault_id)
    then generation_mismatch
    else if not (is_supported_vault_format envelope.vault_format_version)
    then unsupported_vault_format
    else if current.vault_format_version == vault_format_version2
        && envelope.vault_format_version == vault_format_version1
    then invalid_argument
    else ok

-- The snapshot that is read after the commit is the committed one.
unfoldable pub committed : Status → PersistedSnapshot → VaultEnvelope → Bool
committed status snapshot envelope =
    is_ok status
    && snapshot.schema_ready
    && snapshot.has_vault
    && same_envelope snapshot.envelope envelope

abbrev pub adopt_committed : PersistedSnapshot → Runtime → Runtime
adopt_committed snapshot r = record r {
  envelope = snapshot.envelope;
  last_used = snapshot.last_used;
  schema_ready = true;
  has_vault = true;
  recovery_reset_allowed = false;
  state = unlocked;
}
