-- ===== src/Provisioning/Sink.antt =====
-- `CanonicalVmkSink` (firmware/components/m5auth_provisioning/canonical_v2_state.cpp): how a key
-- that an attempt has delivered reaches the runtime. For a first Vault, a recovery on a clean Device
-- and a rekeying it is held until the encrypted Vault follows. `runtime_monotonic_ms` is
-- `esp_timer_get_time`, whose value is an argument. The local copies of keys and their wiping are
-- left out; the mutex makes each method one step.
pub mod Pending
pub mod Install
pub mod History
pub mod Keeps
pub mod Closed
pub mod Delivery
mod Tests
use m5authenticator.Prelude.{
  ℕ, ◌+◌, ◌-◌, Bool, true, false, not, ◌&&◌, ◌||◌, Option, none, some, ltb, ◌==◌, if◌then◌else◌,
  Bytes, replicate, is_empty, bytes_eq, all_zero,
}
use m5authenticator.Session.{
  Operation, trusted_browser_unlock, initial_provisioning, recovery, browser_replacement, vmk_rekey,
  operation_code,
}
use m5authenticator.Session.Attempts.Context.{BeginContext, blank_context}
use m5authenticator.Nvs.{Nvs}
use m5authenticator.Registration
use m5authenticator.Registration.Operations.{RegistrationKey}
use m5authenticator.Registration.Operations
use m5authenticator.Vault.{
  VaultEnvelope, vmk_bytes, is_supported_vault_format, target_storage_schema_version,
}
use m5authenticator.Vault.Crypto.{AesGcm}
use m5authenticator.VaultRuntime.{
  Persistence, Runtime, Status, is_ok, is_unprovisioned, is_reprovision, is_locked, is_unlocked_now,
}
use m5authenticator.VaultRuntime.Access.{Metadata, metadata, factory_reset, rekey_encrypted_vault}
use m5authenticator.VaultRuntime.Operations.{format_for_schema2, install_encrypted_vault, unlock}
use m5authenticator.VaultRuntime.Operations.Boundaries.{
  lock, enter_recovery_boundary, enter_vmk_rekey_boundary,
}
use m5authenticator.Prelude.{saturating_deadline, u64_max}
use m5authenticator.Provisioning.Sink.Pending.{
  cancelled, Device, pending_valid, held, takes_vault, initial_allowed, recovered_allowed,
  rekeyed_allowed, and_then,
}

module _ {P S : Type 0} (persistence : Persistence P) (gcm : AesGcm) (nvs : Nvs RegistrationKey S)
    (valid_public_key : Bytes → Bool) where
  abbrev pub cancel_pending : Device P S → Device P S
  cancel_pending d = record d { sink = cancelled }

  -- A call of the runtime that does not touch the medium.
  abbrev pub with_runtime : (Runtime → Status × Runtime) → Device P S → Bool × Device P S
  with_runtime f d =
      let (status, r) = f d.runtime.0 in (is_ok status, record d { runtime = (r, d.runtime.1) })

  -- `enter_registration_replacement_boundary` calls `enter_recovery_boundary`.
  unfoldable pub prepare_operation : Operation → Metadata → Device P S → Bool × Device P S
  prepare_operation initial_provisioning m d = (not m.has_vault && takes_vault m, d)
  prepare_operation trusted_browser_unlock m d = (m.has_vault && is_locked m.state, d)
  prepare_operation recovery m d =
      let replaced = with_runtime enter_recovery_boundary d in
      if not m.has_vault then (takes_vault m, d) else replaced
  prepare_operation browser_replacement m d =
      let replaced = with_runtime enter_recovery_boundary d in
      if not m.has_vault then (false, d) else replaced
  prepare_operation vmk_rekey m d =
      let entered = with_runtime enter_vmk_rekey_boundary d in
      if not m.has_vault || not (is_unlocked_now d.runtime.0) then (false, d) else entered

  abbrev pub prepare_with : Operation → Option Metadata → Device P S → Bool × Device P S
  prepare_with operation none d = (false, d)
  prepare_with operation (some m) d = prepare_operation operation m d

  unfoldable pub prepare_attempt : BeginContext → Device P S → Bool × Device P S
  prepare_attempt context d =
      prepare_with context.operation (metadata d.runtime.0) (cancel_pending d)

  unfoldable pub unlock_device : Bytes → ℕ → Device P S → Bool × Device P S
  unlock_device vmk now_ms d =
      let (status, x) = unlock persistence gcm vmk now_ms d.runtime in
      (is_ok status, record d { runtime = x })

  -- The unlocking with the replacement of the registration: the recovery of a Device with a Vault,
  -- and `kBrowserReplacement`.
  unfoldable pub replace_registration : BeginContext → Bytes → ℕ → Device P S → Bool × Device P S
  replace_registration c vmk now_ms d =
      let (status, x) = unlock persistence gcm vmk now_ms d.runtime in
      let (replaced, y) =
        Registration.Operations.replace nvs valid_public_key c.vault_id (c.registration_epoch - 1)
          c.registration_id c.registration_epoch c.proposed_brk_public_key d.registration in
      if c.registration_epoch == 0
      then (false, d)
      else if not (is_ok status)
      then (false, record d { runtime = x })
      else if not (Registration.is_ok replaced)
      then (false, record d { runtime = ((lock x.0).1, x.1); registration = y })
      else (true, record d { runtime = x; registration = y })

  unfoldable pub recover :
      BeginContext → Bytes → ℕ → Option Metadata → Device P S → Bool × Device P S
  unfolding replace_registration held
  recover c vmk now_ms none d = (false, d)
  recover c vmk now_ms (some m) d =
      let replaced = replace_registration c vmk now_ms d in
      if m.has_vault
      then replaced
      else if not (takes_vault m)
          || c.expected_generation == 0
          || not (c.registration_epoch == 1)
          || not (all_zero c.current_brk_public_key)
      then (false, d)
      else (true, record d { sink = held c vmk })

  unfoldable pub install_operation :
      Operation → BeginContext → Bytes → ℕ → Device P S → Bool × Device P S
  install_operation trusted_browser_unlock c vmk now_ms d = unlock_device vmk now_ms d
  install_operation recovery c vmk now_ms d = recover c vmk now_ms (metadata d.runtime.0) d
  install_operation browser_replacement c vmk now_ms d = replace_registration c vmk now_ms d
  install_operation initial_provisioning c vmk now_ms d = (true, record d { sink = held c vmk })
  install_operation vmk_rekey c vmk now_ms d = (true, record d { sink = held c vmk })

  unfoldable pub install_vmk : BeginContext → Bytes → ℕ → Device P S → Bool × Device P S
  install_vmk context vmk now_ms d =
      install_operation context.operation context vmk now_ms (cancel_pending d)

  -- `format_for_schema2`, `install_encrypted_vault` and `unlock`, each where those before it succeeded.
  unfoldable pub store_vault : VaultEnvelope → Bytes → ℕ → Runtime × P → Status × (Runtime × P)
  store_vault e vmk now_ms x =
      and_then
        (and_then (format_for_schema2 persistence gcm x)
          (install_encrypted_vault persistence gcm e vmk))
        (unlock persistence gcm vmk now_ms)

  -- What `install_initial_vault` and `install_recovered_vault` do behind their checks.
  unfoldable pub commit_vault : VaultEnvelope → ℕ → Device P S → Bool × Device P S
  commit_vault e now_ms d =
      let c = d.sink.pending_context in
      let (status, x) = store_vault e d.sink.pending_vmk now_ms d.runtime in
      let reset = (factory_reset persistence gcm x).1 in
      let (registered, y) =
        Registration.Operations.install_initial nvs valid_public_key c.vault_id c.registration_id 1
          c.proposed_brk_public_key d.registration in
      if not (is_ok status)
      then (false, cancel_pending (record d { runtime = reset }))
      else if not (Registration.is_ok registered)
      then (false, cancel_pending (record d { runtime = reset; registration = y }))
      else (true, cancel_pending (record d { runtime = x; registration = y }))

  unfoldable pub install_initial_vault : VaultEnvelope → ℕ → Device P S → Bool × Device P S
  install_initial_vault e now_ms d =
      let (valid, p) = pending_valid initial_provisioning now_ms d.sink in
      let committed = commit_vault e now_ms (record d { sink = p }) in
      if not valid || not (initial_allowed e p.pending_context)
      then (false, cancel_pending d)
      else committed

  unfoldable pub install_recovered_vault : VaultEnvelope → ℕ → Device P S → Bool × Device P S
  install_recovered_vault e now_ms d =
      let (valid, p) = pending_valid recovery now_ms d.sink in
      let committed = commit_vault e now_ms (record d { sink = p }) in
      if not valid || not (recovered_allowed e p.pending_context)
      then (false, cancel_pending d)
      else committed

  unfoldable pub install_rekeyed_vault : ℕ → VaultEnvelope → ℕ → Device P S → Bool × Device P S
  install_rekeyed_vault expected_generation e now_ms d =
      let (valid, p) = pending_valid vmk_rekey now_ms d.sink in
      let (status, x) =
        rekey_encrypted_vault persistence gcm expected_generation e p.pending_vmk d.runtime in
      if not valid || not (rekeyed_allowed expected_generation e p.pending_context)
      then (false, cancel_pending d)
      else (is_ok status, cancel_pending (record d { runtime = x }))
