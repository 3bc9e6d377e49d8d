-- ===== src/VaultRuntime/Tests.antt =====
-- A short life of the runtime, on a medium that keeps everything and a cipher that hides nothing.
use m5authenticator.Prelude.{
  ℕ, ◌≡◌, refl, true, false, none, some, [], ◌∷◌, ◌++◌, arith, if◌then◌else◌, Bytes, replicate,
  bytes_eq, codes,
}
use m5authenticator.VaultRuntime.{
  valid_envelope_framing, validate_envelope_with_key, open_envelope, same_envelope,
  authentication_failed,
}
use m5authenticator.VaultRuntime.Operations.Boundaries.{successor_status, committed}
use m5authenticator.Vault.Crypto.{decrypt_vault, build_vault_aad}
use m5authenticator.Vault.Encode.{plaintext_magic}
use m5authenticator.Vault.Decode.{
  decode_plaintext, read_bytes, detect_format, read_u16, read_records, read_wifi, read_u8,
  read_auto_lock, read_auto_lock_flag, read_days,
}
use m5authenticator.VaultRuntime.{
  Persistence, PersistedSnapshot, Runtime, new_runtime, ok, unlocked, locked,
}
use m5authenticator.VaultRuntime.Steps.{
  initializes, installs, unlocks, updates, rekey_boundary, locks, rekeys, run, run-new_runtime-Inv,
  step,
}
use m5authenticator.VaultRuntime.Invariant.{Inv}
use m5authenticator.VaultRuntime.Session.{
  Continues, Commits, step-Continues, update_encrypted_vault-Commits, rekey_encrypted_vault-Commits,
}
use m5authenticator.Vault.{VaultEnvelope, empty_envelope}
use m5authenticator.Vault.Crypto.{AesGcm}
use m5authenticator.VaultRuntime.Access.{update_encrypted_vault, rekey_encrypted_vault}

abbrev pub open_gcm : AesGcm
open_gcm = record {
  aes_gcm_encrypt = λ plaintext key nonce aad. some (plaintext, key);
  aes_gcm_decrypt =
      λ ciphertext key nonce aad tag. if bytes_eq tag key then some ciphertext else none;
}

abbrev pub memory : Persistence PersistedSnapshot
memory = record {
  load = λ s. (ok, s);
  format_schema2 = λ s. (
    ok,
    record { schema_ready = true; has_vault = false; envelope = empty_envelope; last_used = none },
  );
  replace_envelope = λ generation e s. (ok, record s { has_vault = true; envelope = e });
  set_last_used = λ id s. (ok, record s { last_used = id });
  erase_all = λ s. (ok, record s { schema_ready = false; has_vault = false });
}

-- The plaintext of a Vault without credentials that locks after three days.
abbrev pub vault_at : ℕ → ℕ → VaultEnvelope
vault_at generation key = record {
  vault_format_version = 2;
  storage_schema_version = 2;
  vault_id = replicate 16 1;
  generation = generation;
  nonce = replicate 12 2;
  ciphertext = codes "M5AUTH-VLT-PT2" ++ (0 ∷ 0 ∷ 2 ∷ 0 ∷ 0 ∷ 0 ∷ 1 ∷ 3 ∷ []);
  tag = key ∷ replicate 31 0;
}

abbrev pub key_of : ℕ → Bytes
key_of key = key ∷ replicate 31 0

abbrev pub formatted : PersistedSnapshot
formatted = record {
  schema_ready = true;
  has_vault = false;
  envelope = empty_envelope;
  last_used = none;
}

abbrev stored : ℕ → PersistedSnapshot
stored generation = record formatted { has_vault = true; envelope = vault_at generation 5 }

abbrev pub in_use : Runtime
in_use = record {
  initialized = true;
  schema_ready = true;
  has_vault = true;
  recovery_reset_allowed = false;
  state = unlocked;
  envelope = vault_at 1 5;
  last_used = none;
  vmk = key_of 5;
  vmk_present = true;
  auto_lock_days = some 3;
  unlocked_since_ms = 1000;
  unlock_session_active = true;
}

-- Between the destruction of the old key and the commit under the new one.
abbrev between_keys : Runtime
between_keys = record in_use { state = locked; vmk = replicate 32 0; vmk_present = false }

pub opens_vault : validate_envelope_with_key open_gcm (vault_at 1 5) (key_of 5) ≡ (ok, some 3)
unfolding validate_envelope_with_key valid_envelope_framing open_envelope decrypt_vault
    build_vault_aad bytes_eq decode_plaintext read_bytes detect_format plaintext_magic read_u16
    read_records read_wifi read_u8 read_auto_lock read_auto_lock_flag read_days
opens_vault = refl

-- Another key does not open it.
other_key :
    validate_envelope_with_key open_gcm (vault_at 1 5) (key_of 6) ≡ (authentication_failed, none)
unfolding validate_envelope_with_key valid_envelope_framing open_envelope decrypt_vault
    build_vault_aad bytes_eq decode_plaintext read_bytes detect_format plaintext_magic read_u16
    read_records read_wifi read_u8 read_auto_lock read_auto_lock_flag read_days
other_key = refl

run-new_runtime-Inv_example :
    Inv open_gcm
      (run memory open_gcm
        (initializes
          ∷ installs (vault_at 1 5) (key_of 5)
          ∷ unlocks (key_of 5) 1000
          ∷ updates 1 (vault_at 2 5) 2000
          ∷ rekey_boundary
          ∷ rekeys 2 (vault_at 3 6) (key_of 6)
          ∷ locks
          ∷ [])
        (new_runtime, formatted)).0
run-new_runtime-Inv_example =
    run-new_runtime-Inv memory open_gcm
      (initializes
        ∷ installs (vault_at 1 5) (key_of 5)
        ∷ unlocks (key_of 5) 1000
        ∷ updates 1 (vault_at 2 5) 2000
        ∷ rekey_boundary
        ∷ rekeys 2 (vault_at 3 6) (key_of 6)
        ∷ locks
        ∷ [])
      formatted

in_use-Inv : Inv open_gcm in_use
in_use-Inv = record {
  has_key = refl;
  wiped = λ h. cc;
  authentic = λ _. opens_vault;
  provisioned = λ _. refl;
  framed = λ _. unfold valid_envelope_framing in refl;
  empty = λ h. cc;
  session = λ _. refl;
  session_state = λ _. refl;
  no_session = λ h. absurd cc;
  started = λ _. refl;
}

step-Continues_example :
    Continues in_use (step memory open_gcm (updates 1 (vault_at 2 5) 2000) (in_use, stored 1)).0
step-Continues_example =
    step-Continues memory open_gcm (updates 1 (vault_at 2 5) 2000) in_use (stored 1) in_use-Inv refl

update_encrypted_vault-Commits_example :
    Commits
      (vault_at 2 5)
      in_use
      (update_encrypted_vault memory open_gcm 1 (vault_at 2 5) 2000 (in_use, stored 1)).1.1.0
update_encrypted_vault-Commits_example =
    update_encrypted_vault-Commits memory open_gcm 1 (vault_at 2 5) 2000 in_use (stored 1)
      (ground arith) updated
  where
    updated :
        (update_encrypted_vault memory open_gcm 1 (vault_at 2 5) 2000 (in_use, stored 1)).0 ≡ ok
    updated =
        unfold update_encrypted_vault successor_status committed same_envelope
          validate_envelope_with_key valid_envelope_framing open_envelope decrypt_vault
          build_vault_aad bytes_eq decode_plaintext read_bytes detect_format plaintext_magic
          read_u16 read_records read_wifi read_u8 read_auto_lock read_auto_lock_flag read_days in
        refl

rekey_encrypted_vault-Commits_example :
    Commits
      (vault_at 2 6)
      between_keys
      (rekey_encrypted_vault memory open_gcm 1
        (vault_at 2 6)
        (key_of 6)
        (between_keys, stored 1)).1.0
    × ((rekey_encrypted_vault memory open_gcm 1
          (vault_at 2 6)
          (key_of 6)
          (between_keys, stored 1)).1.0.vmk
        ≡ key_of 6)
rekey_encrypted_vault-Commits_example =
    rekey_encrypted_vault-Commits memory open_gcm 1 (vault_at 2 6) (key_of 6) between_keys
      (stored 1) (ground arith) rekeyed
  where
    rekeyed :
        (rekey_encrypted_vault memory open_gcm 1
          (vault_at 2 6)
          (key_of 6)
          (between_keys, stored 1)).0
        ≡ ok
    rekeyed =
        unfold rekey_encrypted_vault successor_status committed same_envelope
          validate_envelope_with_key valid_envelope_framing open_envelope decrypt_vault
          build_vault_aad bytes_eq decode_plaintext read_bytes detect_format plaintext_magic
          read_u16 read_records read_wifi read_u8 read_auto_lock read_auto_lock_flag read_days in
        refl
