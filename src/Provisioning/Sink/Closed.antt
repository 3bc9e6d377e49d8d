-- ===== src/Provisioning/Sink/Closed.antt =====
-- The sink fails closed: a call that answers false leaves no newly opened Vault, and every call keeps
-- the invariant of the runtime.
pub mod Calls
use m5authenticator.Prelude.{
  ℕ, ◌≡◌, refl, ◌⊎◌, inl, inr, Bool, true, false, not, ◌||◌, Option, List, [], ◌∷◌, arith,
  Bool-cases, Bytes,
}
use m5authenticator.Session.{Operation, initial_provisioning, recovery, vmk_rekey}
use m5authenticator.Session.Attempts.Context.{BeginContext}
use m5authenticator.Nvs.{Nvs}
use m5authenticator.Registration
use m5authenticator.Registration.Operations.{RegistrationKey}
use m5authenticator.Vault.{VaultEnvelope}
use m5authenticator.Vault.Crypto.{AesGcm}
use m5authenticator.VaultRuntime.{Persistence, Runtime, is_unlocked, is_ok}
use m5authenticator.VaultRuntime.Access.{Metadata, factory_reset, metadata, rekey_encrypted_vault}
use m5authenticator.VaultRuntime.Steps
use m5authenticator.VaultRuntime.Invariant.{Inv, factory_reset-Inv}
use m5authenticator.Provisioning.Sink.History.{
  Call, prepares, delivers, arms, expires, cancels, installs_initial, installs_recovered,
  installs_rekeyed, runs, registers, step, after,
}
use m5authenticator.Provisioning.Sink.{
  prepare_operation, replace_registration, recover, install_operation, store_vault, prepare_attempt,
  unlock_device, install_vmk, install_initial_vault, prepare_with, install_recovered_vault,
  install_rekeyed_vault, commit_vault, cancel_pending,
}
use m5authenticator.Provisioning.Sink.Pending.{
  Device, pending_valid, initial_allowed, recovered_allowed, rekeyed_allowed,
}
use m5authenticator.VaultRuntime.Operations.{unlock}
use m5authenticator.VaultRuntime.Operations.Boundaries.{
  lock, enter_recovery_boundary, enter_vmk_rekey_boundary,
}
use m5authenticator.VaultRuntime.Commit.{rekey_encrypted_vault-Inv}
use m5authenticator.Provisioning.Sink.Keeps.{store_vault-Inv, prepare-Inv, install_operation-Inv}
use m5authenticator.Provisioning.Sink.Closed.Calls.{
  initial-Closed, install_operation-Closed, rekeyed-Closed, prepare-Closed, recovered-Closed,
  Closed,
}

module _ {P S : Type 0} (persistence : Persistence P) (gcm : AesGcm) (nvs : Nvs RegistrationKey S)
    (valid_public_key : Bytes → Bool) where
  -- What the call returns.
  unfoldable pub answer : Call S → Device P S → Bool
  answer (prepares c) d = (prepare_attempt persistence gcm nvs valid_public_key c d).0
  answer (delivers c vmk now_ms) d =
      (install_vmk persistence gcm nvs valid_public_key c vmk now_ms d).0
  answer (installs_initial e now_ms) d =
      (install_initial_vault persistence gcm nvs valid_public_key e now_ms d).0
  answer (installs_recovered e now_ms) d =
      (install_recovered_vault persistence gcm nvs valid_public_key e now_ms d).0
  answer (installs_rekeyed generation e now_ms) d =
      (install_rekeyed_vault persistence gcm nvs valid_public_key generation e now_ms d).0
  answer _ d = true

  step-Closed :
      (a : Call S) (d : Device P S)
      → Inv gcm d.runtime.0
      → answer a d ≡ false
      → Closed d.runtime.0 (step persistence gcm nvs valid_public_key a d).runtime.0
  unfolding step answer prepare_attempt install_vmk
  step-Closed (prepares c) d v h =
      prepare-Closed persistence gcm nvs valid_public_key c.operation (metadata d.runtime.0)
        (cancel_pending persistence gcm nvs valid_public_key d) h
  step-Closed (delivers c vmk now_ms) d v h =
      install_operation-Closed persistence gcm nvs valid_public_key c.operation c vmk now_ms
        (cancel_pending persistence gcm nvs valid_public_key d) h
  step-Closed (installs_initial e now_ms) d v h =
      (initial-Closed persistence gcm nvs valid_public_key e now_ms d v).1 h
  step-Closed (installs_recovered e now_ms) d v h =
      (recovered-Closed persistence gcm nvs valid_public_key e now_ms d v).1 h
  step-Closed (installs_rekeyed generation e now_ms) d v h =
      (rekeyed-Closed persistence gcm nvs valid_public_key generation e now_ms d v).1 h
  step-Closed _ d v h = absurd cc

  step-Inv :
      (a : Call S) (d : Device P S)
      → Inv gcm d.runtime.0
      → Inv gcm (step persistence gcm nvs valid_public_key a d).runtime.0
  unfolding step prepare_attempt install_vmk
  step-Inv (prepares c) d v =
      prepare-Inv persistence gcm nvs valid_public_key c.operation (metadata d.runtime.0)
        (cancel_pending persistence gcm nvs valid_public_key d) v
  step-Inv (delivers c vmk now_ms) d v =
      install_operation-Inv persistence gcm nvs valid_public_key c.operation c vmk now_ms
        (cancel_pending persistence gcm nvs valid_public_key d) v
  step-Inv (arms now_ms) d v = v
  step-Inv (expires now_ms) d v = v
  step-Inv cancels d v = v
  step-Inv (installs_initial e now_ms) d v =
      (initial-Closed persistence gcm nvs valid_public_key e now_ms d v).0
  step-Inv (installs_recovered e now_ms) d v =
      (recovered-Closed persistence gcm nvs valid_public_key e now_ms d v).0
  step-Inv (installs_rekeyed generation e now_ms) d v =
      (rekeyed-Closed persistence gcm nvs valid_public_key generation e now_ms d v).0
  step-Inv (runs a) d v = Steps.step-Inv persistence gcm a d.runtime.0 d.runtime.1 v
  step-Inv (registers f) d v = v

  after-Inv :
      (h : List (Call S)) (x : Runtime × P) (y : Registration.Store × S)
      → Inv gcm x.0
      → Inv gcm (after persistence gcm nvs valid_public_key h x y).runtime.0
  unfolding after
  after-Inv [] x y v = v
  after-Inv (a ∷ h) x y v =
      step-Inv a (after persistence gcm nvs valid_public_key h x y) (after-Inv h x y v)

  -- Whatever was called before, on a runtime that satisfied its invariant: a call of the sink that
  -- answers false leaves the runtime as it was before the call, or not unlocked, and every call keeps
  -- the invariant.
  pub after-Closed :
      (a : Call S) (h : List (Call S)) (x : Runtime × P) (y : Registration.Store × S)
      → Inv gcm x.0
      → let d = after persistence gcm nvs valid_public_key h x y in
        let d' = step persistence gcm nvs valid_public_key a d in
        Inv gcm d'.runtime.0 × (answer a d ≡ false → Closed d.runtime.0 d'.runtime.0)
  after-Closed a h x y v =
      let d = after persistence gcm nvs valid_public_key h x y in
      let w = after-Inv h x y v in (step-Inv a d w, step-Closed a d w)
