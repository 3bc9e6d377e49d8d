-- ===== src/Vault.antt =====
-- firmware/components/m5auth_vault: what a Vault holds, the format of its plaintext, and the data
-- that its encryption authenticates. A byte array is a list of numbers; the wiping of buffers is
-- not modelled. The encryption itself (vault_crypto.cpp) calls mbedTLS and stays a parameter of
-- the modules that use it.
pub mod Utf8
pub mod Encode
pub mod Decode
pub mod RoundTrip
pub mod Canonical
pub mod Reencoding
pub mod Crypto
mod Tests
use m5authenticator.Prelude.{ℕ, Bool, ◌||◌, Option, List, [], ◌==◌, Bytes, replicate}

abbrev pub vault_format_version1 : ℕ
vault_format_version1 = 1

abbrev pub vault_format_version2 : ℕ
vault_format_version2 = 2

abbrev pub target_storage_schema_version : ℕ
target_storage_schema_version = 2

abbrev pub recovery_package_version : ℕ
recovery_package_version = 1

abbrev pub vmk_wrap_version : ℕ
vmk_wrap_version = 1

abbrev pub vmk_bytes : ℕ
vmk_bytes = 32

abbrev pub credential_id_bytes : ℕ
credential_id_bytes = 16

abbrev pub max_credentials : ℕ
max_credentials = 32

abbrev pub min_auto_lock_days : ℕ
min_auto_lock_days = 1

abbrev pub max_auto_lock_days : ℕ
max_auto_lock_days = 31

abbrev pub is_supported_vault_format : ℕ → Bool
is_supported_vault_format version =
    version == vault_format_version1 || version == vault_format_version2

-- `TotpAlgorithm::kSha1`; the enumeration has no other value.
abbrev pub sha1 : ℕ
sha1 = 1

pub record CredentialRecord : Type 0 where
  pub credential_id : Bytes
  pub secret : Bytes
  pub issuer : Bytes
  pub account : Bytes
  pub display_name : Bytes
  pub algorithm : ℕ
  pub digits : ℕ
  pub period_seconds : ℕ
  pub manual_order : ℕ

pub record WifiRecord : Type 0 where
  pub ssid : Bytes
  pub password : Bytes

pub record VaultPlaintext : Type 0 where
  pub credentials : List CredentialRecord
  pub wifi : Option WifiRecord
  pub auto_lock_days : Option ℕ

pub record VaultEnvelope : Type 0 where
  pub vault_format_version : ℕ
  pub storage_schema_version : ℕ
  pub vault_id : Bytes
  pub generation : ℕ
  pub nonce : Bytes
  pub ciphertext : Bytes
  pub tag : Bytes

-- `VaultEnvelope{}`.
abbrev pub empty_envelope : VaultEnvelope
empty_envelope = record {
  vault_format_version = vault_format_version1;
  storage_schema_version = target_storage_schema_version;
  vault_id = replicate 16 0;
  generation = 0;
  nonce = replicate 12 0;
  ciphertext = [];
  tag = replicate 16 0;
}
