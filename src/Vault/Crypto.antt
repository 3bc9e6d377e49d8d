-- ===== src/Vault/Crypto.antt =====
-- vault_crypto.cpp and the end of vault_format.cpp: the data that the encryption authenticates,
-- and the calls of AES-256-GCM. The cipher itself is mbedTLS's or OpenSSL's: a parameter.
use m5authenticator.Prelude.{
  ℕ, ◌≡◌, refl, sym, true, not, ◌&&◌, ◌||◌, Option, none, some, [], ◌∷◌, ◌++◌, ◌==◌, if◌then◌else◌,
  length, Bytes, ◌>>=◌, ◌>>◌, guard, codes, bind-elim, guard-true, some_eq, bind-some, guard-of, ap,
}
use m5authenticator.Vault.{
  vault_format_version1, is_supported_vault_format, recovery_package_version, VaultEnvelope,
  target_storage_schema_version, vmk_wrap_version, vmk_bytes,
}
use m5authenticator.Vault.Encode.{append_u16, append_u64}

unfoldable pub aad_magic : ℕ → Bytes
aad_magic version =
    if version == vault_format_version1
    then codes "M5AUTH-VLT-AAD1" ++ (0 ∷ [])
    else codes "M5AUTH-VLT-AAD2" ++ (0 ∷ [])

unfoldable pub build_vault_aad : Bytes → ℕ → ℕ → ℕ → Option Bytes
build_vault_aad vault_id generation vault_format_version storage_schema_version =
    if not (is_supported_vault_format vault_format_version)
      || not (storage_schema_version == target_storage_schema_version)
    then none
    else some (
        aad_magic vault_format_version
        ++ (append_u16 vault_format_version
            ++ (append_u16 storage_schema_version ++ (vault_id ++ append_u64 generation))))

unfoldable pub build_vmk_wrap_aad : Bytes → ℕ → ℕ → Option Bytes
build_vmk_wrap_aad vault_id package_version wrap_version =
    if not (package_version == recovery_package_version) || not (wrap_version == vmk_wrap_version)
    then none
    else some (
        codes "M5AUTH-VMK-WRAP1"
        ++ (0 ∷ (append_u16 package_version ++ (append_u16 wrap_version ++ vault_id))))

-- The cipher, as a ciphertext with its tag; nothing where the library reports an error.
pub record AesGcm : Type 0 where
  pub aes_gcm_encrypt : (plaintext key nonce aad : Bytes) → Option (Bytes × Bytes)
  pub aes_gcm_decrypt : (ciphertext key nonce aad tag : Bytes) → Option Bytes

-- What GCM documents: a ciphertext opens under its own key, nonce, data and tag, and it is as
-- long as the plaintext.
pub record AesGcmLaws (gcm : AesGcm) : Type 0 where
  pub opens :
      (plaintext key nonce aad ciphertext tag : Bytes)
      → gcm.aes_gcm_encrypt plaintext key nonce aad ≡ some (ciphertext, tag)
      → gcm.aes_gcm_decrypt ciphertext key nonce aad tag ≡ some plaintext
  pub keeps_length :
      (plaintext key nonce aad ciphertext tag : Bytes)
      → gcm.aes_gcm_encrypt plaintext key nonce aad ≡ some (ciphertext, tag)
      → length ciphertext ≡ length plaintext

pub record VmkWrapEnvelope : Type 0 where
  pub package_version : ℕ
  pub wrap_version : ℕ
  pub vault_id : Bytes
  pub nonce : Bytes
  pub ciphertext : Bytes
  pub tag : Bytes

abbrev sealed_vault : ℕ → Bytes → ℕ → Bytes → Bytes → Bytes → VaultEnvelope
sealed_vault vault_format_version vault_id generation nonce ciphertext tag = record {
  vault_format_version = vault_format_version;
  storage_schema_version = target_storage_schema_version;
  vault_id = vault_id;
  generation = generation;
  nonce = nonce;
  ciphertext = ciphertext;
  tag = tag;
}

abbrev wrapped_vmk : Bytes → Bytes → Bytes → Bytes → VmkWrapEnvelope
wrapped_vmk vault_id nonce ciphertext tag = record {
  package_version = recovery_package_version;
  wrap_version = vmk_wrap_version;
  vault_id = vault_id;
  nonce = nonce;
  ciphertext = ciphertext;
  tag = tag;
}

module _ (gcm : AesGcm) where
  unfoldable pub encrypt_vault_with_nonce :
      Bytes → Bytes → Bytes → ℕ → Bytes → ℕ → Option VaultEnvelope
  encrypt_vault_with_nonce plaintext vmk vault_id generation nonce vault_format_version = do
    guard (is_supported_vault_format vault_format_version)
    aad ← build_vault_aad vault_id generation vault_format_version target_storage_schema_version
    (ciphertext, tag) ← gcm.aes_gcm_encrypt plaintext vmk nonce aad
    some (sealed_vault vault_format_version vault_id generation nonce ciphertext tag)

  -- With the nonce that the random generator gave, if it gave one.
  unfoldable pub encrypt_vault : Option Bytes → Bytes → Bytes → Bytes → ℕ → ℕ → Option VaultEnvelope
  encrypt_vault random_nonce plaintext vmk vault_id generation vault_format_version = do
    nonce ← random_nonce
    encrypt_vault_with_nonce plaintext vmk vault_id generation nonce vault_format_version

  unfoldable pub decrypt_vault : VaultEnvelope → Bytes → Option Bytes
  decrypt_vault envelope vmk = do
    guard (
        is_supported_vault_format envelope.vault_format_version
        && envelope.storage_schema_version == target_storage_schema_version)
    aad ←
        build_vault_aad envelope.vault_id envelope.generation envelope.vault_format_version
          envelope.storage_schema_version
    gcm.aes_gcm_decrypt envelope.ciphertext vmk envelope.nonce aad envelope.tag

  unfoldable pub wrap_vmk_with_key_and_nonce :
      Bytes → Bytes → Bytes → Bytes → Option VmkWrapEnvelope
  wrap_vmk_with_key_and_nonce vmk wrapping_key vault_id nonce = do
    aad ← build_vmk_wrap_aad vault_id recovery_package_version vmk_wrap_version
    (ciphertext, tag) ← gcm.aes_gcm_encrypt vmk wrapping_key nonce aad
    guard (length ciphertext == vmk_bytes)
    some (wrapped_vmk vault_id nonce ciphertext tag)

  unfoldable pub unwrap_vmk_with_key : VmkWrapEnvelope → Bytes → Option Bytes
  unwrap_vmk_with_key envelope wrapping_key = do
    guard (
        envelope.package_version == recovery_package_version
        && envelope.wrap_version == vmk_wrap_version)
    aad ← build_vmk_wrap_aad envelope.vault_id envelope.package_version envelope.wrap_version
    plaintext ← gcm.aes_gcm_decrypt envelope.ciphertext wrapping_key envelope.nonce aad envelope.tag
    guard (length plaintext == vmk_bytes)
    some plaintext

module _ (gcm : AesGcm) (laws : AesGcmLaws gcm) where
  opens_sealed :
      (plaintext vmk vault_id nonce : Bytes) (generation format : ℕ) (aad ciphertext tag : Bytes)
      → is_supported_vault_format format ≡ true
      → build_vault_aad vault_id generation format target_storage_schema_version ≡ some aad
      → gcm.aes_gcm_encrypt plaintext vmk nonce aad ≡ some (ciphertext, tag)
      → decrypt_vault gcm (sealed_vault format vault_id generation nonce ciphertext tag) vmk
        ≡ some plaintext
  unfolding decrypt_vault
  opens_sealed plaintext vmk vault_id nonce generation format aad ciphertext tag supported aad_eq
        sealed =
      let fine : is_supported_vault_format format && true ≡ true = ap (λ b. b && true) supported in
      bind-some (guard (is_supported_vault_format format && true)) _ (guard-of fine) (
        bind-some (build_vault_aad vault_id generation format target_storage_schema_version)
          (λ d. gcm.aes_gcm_decrypt ciphertext vmk nonce d tag) aad_eq
          (laws.opens plaintext vmk nonce aad ciphertext tag sealed))

  -- If the cipher opens what it sealed, a Vault that was encrypted decrypts under the same key
  -- to the same plaintext, for any id, generation, nonce and format.
  pub decrypt-encrypt :
      (plaintext vmk vault_id nonce : Bytes) (generation format : ℕ) {envelope : VaultEnvelope}
      → encrypt_vault_with_nonce gcm plaintext vmk vault_id generation nonce format ≡ some envelope
      → decrypt_vault gcm envelope vmk ≡ some plaintext
  unfolding encrypt_vault_with_nonce
  decrypt-encrypt plaintext vmk vault_id nonce generation format {envelope} e =
      bind-elim _ _ e λ _ supported e. bind-elim _ _ e λ aad aad_eq e.
        bind-elim _ _ e λ (ciphertext, tag) sealed e.
          rw
            (sym (
              some_eq {a = sealed_vault format vault_id generation nonce ciphertext tag}
                {b = envelope} e))
            (opens_sealed plaintext vmk vault_id nonce generation format aad ciphertext tag
              (guard-true (is_supported_vault_format format) supported) aad_eq sealed)

  opens_wrapped :
      (vmk wrapping_key vault_id nonce aad ciphertext tag : Bytes)
      → build_vmk_wrap_aad vault_id recovery_package_version vmk_wrap_version ≡ some aad
      → gcm.aes_gcm_encrypt vmk wrapping_key nonce aad ≡ some (ciphertext, tag)
      → (length ciphertext == vmk_bytes) ≡ true
      → unwrap_vmk_with_key gcm (wrapped_vmk vault_id nonce ciphertext tag) wrapping_key ≡ some vmk
  unfolding unwrap_vmk_with_key
  opens_wrapped vmk wrapping_key vault_id nonce aad ciphertext tag aad_eq sealed sized =
      let sized_vmk : (length vmk == vmk_bytes) ≡ true =
        rw (laws.keeps_length vmk wrapping_key nonce aad ciphertext tag sealed) at sized in
      bind-some (build_vmk_wrap_aad vault_id recovery_package_version vmk_wrap_version)
        (λ d. (gcm.aes_gcm_decrypt ciphertext wrapping_key nonce d tag) >>= λ p.
          (guard (length p == vmk_bytes) >> some p))
        aad_eq
        (bind-some (gcm.aes_gcm_decrypt ciphertext wrapping_key nonce aad tag)
          (λ p. guard (length p == vmk_bytes) >> some p)
          (laws.opens vmk wrapping_key nonce aad ciphertext tag sealed)
          (bind-some (guard (length vmk == vmk_bytes)) (λ _. some vmk) (guard-of sized_vmk) refl))

  -- If the cipher also keeps the length, a wrapped master key of 32 bytes unwraps to itself.
  pub unwrap-wrap :
      (vmk wrapping_key vault_id nonce : Bytes) {envelope : VmkWrapEnvelope}
      → wrap_vmk_with_key_and_nonce gcm vmk wrapping_key vault_id nonce ≡ some envelope
      → unwrap_vmk_with_key gcm envelope wrapping_key ≡ some vmk
  unfolding wrap_vmk_with_key_and_nonce
  unwrap-wrap vmk wrapping_key vault_id nonce {envelope} e = bind-elim _ _ e λ aad aad_eq e.
      bind-elim _ _ e λ (ciphertext, tag) sealed e. bind-elim _ _ e λ _ sized e.
        rw (sym (some_eq {a = wrapped_vmk vault_id nonce ciphertext tag} {b = envelope} e)) (
          opens_wrapped vmk wrapping_key vault_id nonce aad ciphertext tag aad_eq sealed
            (guard-true (length ciphertext == vmk_bytes) sized))
