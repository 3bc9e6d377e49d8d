-- ===== src/Provisioning/Sink/Keeps.antt =====
-- The calls of the sink keep the invariant of the runtime.
use m5authenticator.Prelude.{ℕ, ◌-◌, inl, inr, Bool, Option, arith, ◌==◌, Bool-cases, Bytes}
use m5authenticator.Session.{Operation}
use m5authenticator.Session.Attempts.Context.{BeginContext}
use m5authenticator.Nvs.{Nvs}
use m5authenticator.Registration
use m5authenticator.Registration.Operations.{RegistrationKey}
use m5authenticator.Vault.{VaultEnvelope}
use m5authenticator.Vault.Crypto.{AesGcm}
use m5authenticator.VaultRuntime.{Persistence, Runtime, is_ok, Status}
use m5authenticator.VaultRuntime.Access.{Metadata}
use m5authenticator.VaultRuntime.Invariant.{
  Inv, format_for_schema2-Inv, unlock-Inv, lock-Inv, enter_vmk_rekey_boundary-Inv,
}
use m5authenticator.Provisioning.Sink.{
  prepare_operation, replace_registration, recover, install_operation, store_vault, unlock_device,
  prepare_with,
}
use m5authenticator.Provisioning.Sink.Pending.{Device, and_then}
use m5authenticator.VaultRuntime.Operations.{unlock, format_for_schema2, install_encrypted_vault}
use m5authenticator.VaultRuntime.Operations.Boundaries.{lock, enter_recovery_boundary}
use m5authenticator.VaultRuntime.Commit.{install_encrypted_vault-Inv}

module _ {P S : Type 0} (persistence : Persistence P) (gcm : AesGcm) (nvs : Nvs RegistrationKey S)
    (valid_public_key : Bytes → Bool) where
  pub and_then-Inv :
      (y : Status × (Runtime × P)) (f : Runtime × P → Status × (Runtime × P))
      → Inv gcm y.1.0
      → ((r : Runtime) (s : P) → Inv gcm r → Inv gcm (f (r, s)).1.0)
      → Inv gcm (and_then y f).1.0
  and_then-Inv (status, (r, s)) f v k = elim (Bool-cases (is_ok status)) [
    | inl e ↦ rw e (k r s v)
    | inr e ↦ rw e v
  ]

  pub store_vault-Inv :
      (e : VaultEnvelope) (vmk : Bytes) (now_ms : ℕ) (r : Runtime) (s : P)
      → Inv gcm r
      → Inv gcm (store_vault persistence gcm nvs valid_public_key e vmk now_ms (r, s)).1.0
  unfolding store_vault
  store_vault-Inv e vmk now_ms r s v =
      and_then-Inv
        (and_then (format_for_schema2 persistence gcm (r, s))
          (install_encrypted_vault persistence gcm e vmk))
        (unlock persistence gcm vmk now_ms)
        (and_then-Inv (format_for_schema2 persistence gcm (r, s))
          (install_encrypted_vault persistence gcm e vmk)
          (format_for_schema2-Inv gcm persistence r s v)
          (install_encrypted_vault-Inv gcm persistence e vmk))
        (unlock-Inv gcm persistence vmk now_ms)

  pub recovery_boundary-Inv : (r : Runtime) → Inv gcm r → Inv gcm (enter_recovery_boundary r).1
  unfolding enter_recovery_boundary lock
  recovery_boundary-Inv r v = lock-Inv gcm r v

  pub prepare-Inv :
      (operation : Operation) (m : Option Metadata) (d : Device P S)
      → Inv gcm d.runtime.0
      → Inv gcm (prepare_with persistence gcm nvs valid_public_key operation m d).1.runtime.0
  unfolding prepare_operation
  prepare-Inv operation m d v =
      ground
        (arith, recovery_boundary-Inv d.runtime.0 v, enter_vmk_rekey_boundary-Inv gcm d.runtime.0 v)

  pub replace_registration-Inv :
      (c : BeginContext) (vmk : Bytes) (now_ms : ℕ) (d : Device P S)
      → Inv gcm d.runtime.0
      → Inv gcm
          (replace_registration persistence gcm nvs valid_public_key c vmk now_ms d).1.runtime.0
  unfolding replace_registration
  replace_registration-Inv c vmk now_ms d v =
      let w = unlock-Inv gcm persistence vmk now_ms d.runtime.0 d.runtime.1 v in
      let locked = lock-Inv gcm (unlock persistence gcm vmk now_ms d.runtime).1.0 w in
      elim (Bool-cases (c.registration_epoch == 0)) [
        | inl bad ↦ rw bad v
        | inr fine ↦ elim (Bool-cases (is_ok (unlock persistence gcm vmk now_ms d.runtime).0)) [
          | inr refused ↦ rw (fine, refused) w
          | inl open_now ↦
              elim (Bool-cases (
                Registration.is_ok
                  (Registration.Operations.replace nvs valid_public_key c.vault_id
                    (c.registration_epoch - 1) c.registration_id c.registration_epoch
                    c.proposed_brk_public_key d.registration).0)) [
                      | inr bad ↦ rw (fine, open_now, bad) locked
                      | inl good ↦ rw (fine, open_now, good) w
                    ]
        ]
      ]

  pub install_operation-Inv :
      (operation : Operation) (c : BeginContext) (vmk : Bytes) (now_ms : ℕ) (d : Device P S)
      → Inv gcm d.runtime.0
      → Inv gcm
          (install_operation persistence gcm nvs valid_public_key operation c vmk now_ms
            d).1.runtime.0
  unfolding install_operation unlock_device recover
  install_operation-Inv operation c vmk now_ms d v = ground (
    arith,
    unlock-Inv gcm persistence vmk now_ms d.runtime.0 d.runtime.1 v,
    replace_registration-Inv c vmk now_ms d v,
  )
