-- ===== src/Restart/Tests.antt =====
-- A first Vault on a store in memory, with a toy of the cryptography that leaves the text as it is.
use m5authenticator.Prelude.{ℕ, ◌≡◌, true, some, [], ◌∷◌, ◌++◌, arith, replicate, codes}
use m5authenticator.Nvs.Memory.{Memory, blank, memory, memory-Laws, put}
use m5authenticator.Vault.{VaultEnvelope}
use m5authenticator.Vault.Crypto.{AesGcm}
use m5authenticator.VaultRuntime.{Runtime, new_runtime}
use m5authenticator.VaultRuntime.Operations.{install_encrypted_vault}
use m5authenticator.VaultRuntime.Access.{update_encrypted_vault, rekey_encrypted_vault}
use m5authenticator.VaultStore.Slots.{nvs_persistence}
use m5authenticator.VaultStore.Slots.Answers.{
  schema_key, active_slot_key, slot0_key, slot1_key, last_used_key, VaultKey,
}
use m5authenticator.Restart.{Survives, encrypted_vault-Survives}

abbrev index : VaultKey → ℕ
index schema_key = 0
index active_slot_key = 1
index slot0_key = 2
index slot1_key = 3
index last_used_key = 4

index_injective : (k k' : VaultKey) → index k ≡ index k' → k ≡ k'
index_injective k k' h = ground arith

abbrev clear_gcm : AesGcm
clear_gcm = record {
  aes_gcm_encrypt = λ plaintext key nonce aad. some (plaintext, replicate 16 0);
  aes_gcm_decrypt = λ ciphertext key nonce aad tag. some ciphertext;
}

-- The plaintext of a Vault without credentials that locks after three days.
abbrev first_vault : VaultEnvelope
first_vault = record {
  vault_format_version = 2;
  storage_schema_version = 2;
  vault_id = replicate 16 1;
  generation = 1;
  nonce = replicate 12 2;
  ciphertext = codes "M5AUTH-VLT-PT2" ++ (0 ∷ 0 ∷ 2 ∷ 0 ∷ 0 ∷ 0 ∷ 1 ∷ 3 ∷ []);
  tag = replicate 16 0;
}

abbrev ready : Runtime
ready = record new_runtime { initialized = true; schema_ready = true }

abbrev formatted : Memory
formatted = put 0 (record blank { u32 = some 2 }) (λ i. blank)

encrypted_vault-Survives_example :
    let medium = nvs_persistence (memory index) (memory index) in
    let installed =
      install_encrypted_vault medium clear_gcm first_vault (replicate 32 7) (ready, formatted) in
    let updated = update_encrypted_vault medium clear_gcm 0 first_vault 1000 (ready, formatted) in
    let rekeyed =
      rekey_encrypted_vault medium clear_gcm 0 first_vault (replicate 32 7) (ready, formatted) in
    Survives
      (memory index)
      (memory-Laws index index_injective)
      (memory index)
      first_vault
      formatted
      installed.0
      installed.1.1
    × Survives
        (memory index)
        (memory-Laws index index_injective)
        (memory index)
        first_vault
        formatted
        updated.0
        updated.1.1.1
    × Survives
        (memory index)
        (memory-Laws index index_injective)
        (memory index)
        first_vault
        formatted
        rekeyed.0
        rekeyed.1.1
encrypted_vault-Survives_example =
    encrypted_vault-Survives (memory index) (memory-Laws index index_injective) (memory index)
      clear_gcm 0 first_vault 1000 (replicate 32 7) ready formatted
