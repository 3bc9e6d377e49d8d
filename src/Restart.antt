-- ===== src/Restart.antt =====
-- The Vault runtime over the two slots: what a restart finds after a call that replaces the envelope.
mod Tests
use m5authenticator.Prelude.{ℕ, ◌≡◌, refl, ◌⊎◌, inl, false, arith, Bytes}
use m5authenticator.Nvs.{Nvs, NvsLaws}
use m5authenticator.Vault.{VaultEnvelope}
use m5authenticator.Vault.Crypto.{AesGcm}
use m5authenticator.VaultRuntime.{Runtime, Status, ok, is_ok}
use m5authenticator.VaultRuntime.Operations.{
  install_encrypted_vault, finish_install, reload_after_persistence,
}
use m5authenticator.VaultRuntime.Access.{update_encrypted_vault, rekey_encrypted_vault}
use m5authenticator.VaultStore.Slots.{load_opened, nvs_persistence, replace_envelope}
use m5authenticator.VaultStore.Slots.Answers.{VaultKey}
use m5authenticator.VaultStore.Replace.{Replaces, replaced_view, replace_envelope-Replaces}

module _ {S : Type 0} (nvs : Nvs VaultKey S) (laws : NvsLaws nvs) (legacy : Nvs VaultKey S) where
  -- What the next start loads, behind the opening of the namespace.
  pub record Survives (e : VaultEnvelope) (s : S) (status : Status) (s' : S) : Type 0 where
    pub atomic :
        (load_opened nvs s' ≡ load_opened nvs s) ⊎ (load_opened nvs s' ≡ replaced_view nvs laws e s)
    pub durable : status ≡ ok → load_opened nvs s' ≡ replaced_view nvs laws e s

  refused-Survives :
      (e : VaultEnvelope) (s : S) (status : Status) → is_ok status ≡ false → Survives e s status s
  refused-Survives e s status h = record { atomic = inl refl; durable = λ k. ground arith }

  replaced-Survives :
      (generation : ℕ) (e : VaultEnvelope) (s : S) (status : Status)
      → (status ≡ ok → (replace_envelope nvs generation e s).0 ≡ ok)
      → Survives e s status (replace_envelope nvs generation e s).1
  replaced-Survives generation e s status h =
      let replaced = replace_envelope-Replaces nvs laws generation e s in
      record { atomic = replaced.atomic; durable = λ k. replaced.done (h k) }

  module _ (gcm : AesGcm) where
    update_encrypted_vault-Survives :
        (generation : ℕ) (e : VaultEnvelope) (now_ms : ℕ) (r : Runtime) (s : S)
        → let result =
            update_encrypted_vault (nvs_persistence nvs legacy) gcm generation e now_ms (r, s) in
          Survives e s result.0 result.1.1.1
    unfolding update_encrypted_vault nvs_persistence
    update_encrypted_vault-Survives generation e now_ms r s =
        let replaced = replace_envelope-Replaces nvs laws generation e s in
        record {
          atomic = ground (arith, replaced.atomic);
          durable = λ k. ground (arith, k, replaced.done);
        }

    rekey_encrypted_vault-Survives :
        (generation : ℕ) (e : VaultEnvelope) (vmk : Bytes) (r : Runtime) (s : S)
        → let result =
            rekey_encrypted_vault (nvs_persistence nvs legacy) gcm generation e vmk (r, s) in
          Survives e s result.0 result.1.1
    unfolding rekey_encrypted_vault nvs_persistence
    rekey_encrypted_vault-Survives generation e vmk r s =
        let replaced = replace_envelope-Replaces nvs laws generation e s in
        record {
          atomic = ground (arith, replaced.atomic);
          durable = λ k. ground (arith, k, replaced.done);
        }

    install_encrypted_vault-Survives :
        (e : VaultEnvelope) (vmk : Bytes) (r : Runtime) (s : S)
        → let result = install_encrypted_vault (nvs_persistence nvs legacy) gcm e vmk (r, s) in
          Survives e s result.0 result.1.1
    unfolding install_encrypted_vault reload_after_persistence finish_install nvs_persistence
    install_encrypted_vault-Survives e vmk r s =
        let replaced = replace_envelope-Replaces nvs laws 0 e s in
        record {
          atomic = ground (arith, replaced.atomic);
          durable = λ k. ground (arith, k, replaced.done);
        }

    -- The runtime over the two slots, with any key-value store that satisfies its laws and wherever a write
    -- fails: after the installation, the update or the rekeying of the Vault, whatever they return, the
    -- next start loads the old state or the whole new envelope with the same last-used credential; where
    -- they return `ok` it is the new envelope.
    pub encrypted_vault-Survives :
        (generation : ℕ) (e : VaultEnvelope) (now_ms : ℕ) (vmk : Bytes) (r : Runtime) (s : S)
        → let medium = nvs_persistence nvs legacy in
          let installed = install_encrypted_vault medium gcm e vmk (r, s) in
          let updated = update_encrypted_vault medium gcm generation e now_ms (r, s) in
          let rekeyed = rekey_encrypted_vault medium gcm generation e vmk (r, s) in
          Survives e s installed.0 installed.1.1
          × Survives e s updated.0 updated.1.1.1
          × Survives e s rekeyed.0 rekeyed.1.1
    encrypted_vault-Survives generation e now_ms vmk r s = (
      install_encrypted_vault-Survives e vmk r s,
      update_encrypted_vault-Survives generation e now_ms r s,
      rekey_encrypted_vault-Survives generation e vmk r s,
    )
