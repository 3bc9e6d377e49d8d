-- ===== src/Provisioning/Sink/Closed/Calls.antt =====
-- Lemmas on the refused calls of the sink.
use m5authenticator.Prelude.{
  ℕ, ◌≡◌, refl, ◌⊎◌, inl, inr, Bool, true, false, not, ◌||◌, Option, arith, Bool-cases, Bytes,
}
use m5authenticator.Session.{Operation, initial_provisioning, recovery, vmk_rekey}
use m5authenticator.Session.Attempts.Context.{BeginContext}
use m5authenticator.Nvs.{Nvs}
use m5authenticator.Registration
use m5authenticator.Registration.Operations.{RegistrationKey}
use m5authenticator.Vault.{VaultEnvelope}
use m5authenticator.Vault.Crypto.{AesGcm}
use m5authenticator.VaultRuntime.{Persistence, Runtime, is_unlocked, is_ok}
use m5authenticator.VaultRuntime.Access.{Metadata, factory_reset, metadata, rekey_encrypted_vault}
use m5authenticator.VaultRuntime.Invariant.{Inv, factory_reset-Inv}
use m5authenticator.Provisioning.Sink.History.{after}
use m5authenticator.Provisioning.Sink.{
  prepare_operation, replace_registration, recover, install_operation, store_vault, unlock_device,
  install_initial_vault, prepare_with, install_recovered_vault, install_rekeyed_vault, commit_vault,
}
use m5authenticator.Provisioning.Sink.Pending.{
  Device, pending_valid, initial_allowed, recovered_allowed, rekeyed_allowed,
}
use m5authenticator.VaultRuntime.Operations.{unlock}
use m5authenticator.VaultRuntime.Operations.Boundaries.{
  lock, enter_recovery_boundary, enter_vmk_rekey_boundary,
}
use m5authenticator.VaultRuntime.Commit.{rekey_encrypted_vault-Inv}
use m5authenticator.Provisioning.Sink.Keeps.{store_vault-Inv}

-- The runtime is as before, or it is not unlocked.
abbrev pub Closed : Runtime → Runtime → Type 0
Closed r after = (after ≡ r) ⊎ (is_unlocked after.state ≡ false)

module _ {P S : Type 0} (persistence : Persistence P) (gcm : AesGcm) (nvs : Nvs RegistrationKey S)
    (valid_public_key : Bytes → Bool) where
  pub prepare-Closed :
      (operation : Operation) (m : Option Metadata) (d : Device P S)
      → let (result, d') = prepare_with persistence gcm nvs valid_public_key operation m d in
        result ≡ false → Closed d.runtime.0 d'.runtime.0
  unfolding prepare_operation enter_recovery_boundary enter_vmk_rekey_boundary
  prepare-Closed operation m d h = ground arith

  pub unlock-Refused :
      (vmk : Bytes) (now_ms : ℕ) (r : Runtime) (s : P)
      → is_ok (unlock persistence gcm vmk now_ms (r, s)).0 ≡ false
      → (unlock persistence gcm vmk now_ms (r, s)).1 ≡ (r, s)
  unfolding unlock
  unlock-Refused vmk now_ms r s h = ground arith

  pub unlock-initialized :
      (vmk : Bytes) (now_ms : ℕ) (r : Runtime) (s : P)
      → is_ok (unlock persistence gcm vmk now_ms (r, s)).0 ≡ true
      → (unlock persistence gcm vmk now_ms (r, s)).1.0.initialized ≡ true
  unfolding unlock
  unlock-initialized vmk now_ms r s h = ground arith

  pub lock-Locks : (r : Runtime) → r.initialized ≡ true → is_unlocked (lock r).1.state ≡ false
  unfolding lock
  lock-Locks r h = ground arith

  pub replace_registration-Closed :
      (c : BeginContext) (vmk : Bytes) (now_ms : ℕ) (d : Device P S)
      → let (result, d') =
          replace_registration persistence gcm nvs valid_public_key c vmk now_ms d in
        result ≡ false → Closed d.runtime.0 d'.runtime.0
  unfolding replace_registration
  replace_registration-Closed c vmk now_ms d h = ground (
    arith,
    unlock-Refused vmk now_ms d.runtime.0 d.runtime.1,
    unlock-initialized vmk now_ms d.runtime.0 d.runtime.1,
    lock-Locks (unlock persistence gcm vmk now_ms d.runtime).1.0,
  )

  pub recover-Closed :
      (c : BeginContext) (vmk : Bytes) (now_ms : ℕ) (m : Option Metadata) (d : Device P S)
      → let (result, d') = recover persistence gcm nvs valid_public_key c vmk now_ms m d in
        result ≡ false → Closed d.runtime.0 d'.runtime.0
  unfolding recover
  recover-Closed c vmk now_ms m d h = ground (arith, replace_registration-Closed c vmk now_ms d)

  pub install_operation-Closed :
      (operation : Operation) (c : BeginContext) (vmk : Bytes) (now_ms : ℕ) (d : Device P S)
      → let (result, d') =
          install_operation persistence gcm nvs valid_public_key operation c vmk now_ms d in
        result ≡ false → Closed d.runtime.0 d'.runtime.0
  unfolding install_operation unlock_device
  install_operation-Closed operation c vmk now_ms d h = ground (
    arith,
    unlock-Refused vmk now_ms d.runtime.0 d.runtime.1,
    recover-Closed c vmk now_ms (metadata d.runtime.0) d,
    replace_registration-Closed c vmk now_ms d,
  )

  pub factory_reset-Locks :
      (r : Runtime) (s : P)
      → Inv gcm r
      → is_unlocked (factory_reset persistence gcm (r, s)).1.0.state ≡ false
  unfolding factory_reset
  factory_reset-Locks r s v = ground (arith, v.started)

  pub commit_vault-Closed :
      (e : VaultEnvelope) (now_ms : ℕ) (d : Device P S)
      → Inv gcm d.runtime.0
      → let (result, d') = commit_vault persistence gcm nvs valid_public_key e now_ms d in
        Inv gcm d'.runtime.0 × (result ≡ false → is_unlocked d'.runtime.0.state ≡ false)
  unfolding commit_vault
  commit_vault-Closed e now_ms d v =
      let vmk = d.sink.pending_vmk in
      let x = (store_vault persistence gcm nvs valid_public_key e vmk now_ms d.runtime).1 in
      let w =
        store_vault-Inv persistence gcm nvs valid_public_key e vmk now_ms d.runtime.0 d.runtime.1
          v in
      let closed = factory_reset-Locks x.0 x.1 w in
      let kept = factory_reset-Inv gcm persistence x.0 x.1 w in
      elim (Bool-cases
        (is_ok (store_vault persistence gcm nvs valid_public_key e vmk now_ms d.runtime).0)) [
          | inr bad ↦ rw bad (kept, λ h. closed)
          | inl fine ↦
              let c = d.sink.pending_context in
              elim (Bool-cases (
                Registration.is_ok
                  (Registration.Operations.install_initial nvs valid_public_key c.vault_id
                    c.registration_id 1 c.proposed_brk_public_key d.registration).0)) [
                      | inr bad ↦ rw (fine, bad) (kept, λ h. closed)
                      | inl registered ↦ rw (fine, registered) (w, λ h. cc)
                    ]
        ]

  pub initial-Closed :
      (e : VaultEnvelope) (now_ms : ℕ) (d : Device P S)
      → Inv gcm d.runtime.0
      → let (result, d') = install_initial_vault persistence gcm nvs valid_public_key e now_ms d in
        Inv gcm d'.runtime.0 × (result ≡ false → Closed d.runtime.0 d'.runtime.0)
  unfolding install_initial_vault
  initial-Closed e now_ms d v =
      let (valid, p) = pending_valid initial_provisioning now_ms d.sink in
      let rest = commit_vault-Closed e now_ms (record d { sink = p }) v in
      elim (Bool-cases (not valid || not (initial_allowed e p.pending_context))) [
        | inl bad ↦ rw bad (v, λ h. inl refl)
        | inr fine ↦ rw fine (rest.0, λ h. inr (rest.1 h))
      ]

  pub recovered-Closed :
      (e : VaultEnvelope) (now_ms : ℕ) (d : Device P S)
      → Inv gcm d.runtime.0
      → let (result, d') =
          install_recovered_vault persistence gcm nvs valid_public_key e now_ms d in
        Inv gcm d'.runtime.0 × (result ≡ false → Closed d.runtime.0 d'.runtime.0)
  unfolding install_recovered_vault
  recovered-Closed e now_ms d v =
      let (valid, p) = pending_valid recovery now_ms d.sink in
      let rest = commit_vault-Closed e now_ms (record d { sink = p }) v in
      elim (Bool-cases (not valid || not (recovered_allowed e p.pending_context))) [
        | inl bad ↦ rw bad (v, λ h. inl refl)
        | inr fine ↦ rw fine (rest.0, λ h. inr (rest.1 h))
      ]

  pub rekey-Closed :
      (generation : ℕ) (e : VaultEnvelope) (vmk : Bytes) (r : Runtime) (s : P)
      → let (status, x) = rekey_encrypted_vault persistence gcm generation e vmk (r, s) in
        is_ok status ≡ false → Closed r x.0
  unfolding rekey_encrypted_vault
  rekey-Closed generation e vmk r s h = ground arith

  pub rekeyed-Closed :
      (generation : ℕ) (e : VaultEnvelope) (now_ms : ℕ) (d : Device P S)
      → Inv gcm d.runtime.0
      → let (result, d') =
          install_rekeyed_vault persistence gcm nvs valid_public_key generation e now_ms d in
        Inv gcm d'.runtime.0 × (result ≡ false → Closed d.runtime.0 d'.runtime.0)
  unfolding install_rekeyed_vault
  rekeyed-Closed generation e now_ms d v =
      let (valid, p) = pending_valid vmk_rekey now_ms d.sink in
      let (r, s) = d.runtime in
      let kept = rekey_encrypted_vault-Inv gcm persistence generation e p.pending_vmk r s v in
      elim (Bool-cases (not valid || not (rekeyed_allowed generation e p.pending_context))) [
        | inl bad ↦ rw bad (v, λ h. inl refl)
        | inr fine ↦ rw fine (kept, rekey-Closed generation e p.pending_vmk r s)
      ]
