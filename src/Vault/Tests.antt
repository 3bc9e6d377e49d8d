-- ===== src/Vault/Tests.antt =====
-- The formats and the encryption on concrete data.
use m5authenticator.Prelude.{
  ◌≡◌, refl, true, false, none, some, [], ◌∷◌, ◌++◌, arith, if◌then◌else◌, Bytes, replicate,
  contains, bytes_eq, bytes_eq_iff, IsBytes, codes,
}
use m5authenticator.Vault.{CredentialRecord, VaultPlaintext, VaultEnvelope, sha1}
use m5authenticator.Vault.Utf8.{is_valid_utf8}
use m5authenticator.Vault.Utf8.Scalars.{Utf8, is_valid_utf8-Utf8}
use m5authenticator.Vault.RoundTrip.{decode-encode}
use m5authenticator.Vault.Reencoding.{encode-decode}
use m5authenticator.Vault.Crypto.{
  AesGcm, AesGcmLaws, decrypt-encrypt, unwrap-wrap, decrypt_vault, VmkWrapEnvelope,
  unwrap_vmk_with_key, encrypt_vault_with_nonce, wrap_vmk_with_key_and_nonce, build_vault_aad,
  build_vmk_wrap_aad,
}
use m5authenticator.Vault.Encode.{
  encode_plaintext, encode_records, encode_record, encode_wifi, encode_auto_lock, is_some,
  valid_auto_lock_days, valid_credential, append_sized_bytes, append_sized_text, plaintext_magic,
}
use m5authenticator.Vault.Decode.{
  decode_plaintext, detect_format, read_bytes, read_u8, read_u16, read_records, read_record,
  read_sized_bytes, read_sized_text, read_wifi, read_auto_lock,
}

abbrev account : CredentialRecord
account = record {
  credential_id = replicate 16 7;
  secret = 1 ∷ 2 ∷ 3 ∷ [];
  issuer = codes "A";
  account = [];
  display_name = [];
  algorithm = sha1;
  digits = 6;
  period_seconds = 30;
  manual_order = 0;
}

abbrev sample : VaultPlaintext
sample = record { credentials = account ∷ []; wifi = none; auto_lock_days = some 7 }

abbrev sample_bytes : Bytes
sample_bytes =
    codes "M5AUTH-VLT-PT2"
    ++ (0
        ∷ 0
        ∷ 2
        ∷ 0
        ∷ 1
        ∷ (replicate 16 7
            ++ (0 ∷ 3 ∷ 1 ∷ 2 ∷ 3 ∷ 0 ∷ 1 ∷ 65 ∷ 0 ∷ 0 ∷ 0 ∷ 0 ∷ 1 ∷ 6 ∷ 0 ∷ 30 ∷ 0 ∷ 0 ∷ 0 ∷ 1 ∷ 7
                ∷ [])))

encodes_sample : encode_plaintext sample 2 ≡ some sample_bytes
unfolding encode_plaintext encode_records encode_record encode_wifi encode_auto_lock is_some
    valid_auto_lock_days valid_credential append_sized_bytes append_sized_text is_valid_utf8
    plaintext_magic contains
encodes_sample = refl

decodes_sample : decode_plaintext sample_bytes ≡ some (sample, 2)
unfolding decode_plaintext detect_format read_bytes read_u8 read_u16 read_records read_record
    read_sized_bytes read_sized_text read_wifi read_auto_lock plaintext_magic is_valid_utf8
    valid_credential bytes_eq contains
decodes_sample = refl

decode-encode_example : decode_plaintext sample_bytes ≡ some (sample, 2)
decode-encode_example =
    decode-encode sample 2
      (
        record {
          id_size = refl;
          digits_fit = ground arith;
          period_fits = ground arith;
          order_fits = ground arith;
        },
        tt,
      )
      encodes_sample

sample_bytes-IsBytes : IsBytes sample_bytes
sample_bytes-IsBytes = ground arith

encode-decode_example : encode_plaintext sample 2 ≡ some sample_bytes
encode-decode_example = encode-decode sample_bytes sample_bytes-IsBytes decodes_sample

-- The euro sign.
valid_euro : is_valid_utf8 (0xe2 ∷ 0x82 ∷ 0xac ∷ []) ≡ true
unfolding is_valid_utf8
valid_euro = refl

-- An overlong encoding of the slash.
overlong : is_valid_utf8 (0xc0 ∷ 0xaf ∷ []) ≡ false
unfolding is_valid_utf8
overlong = refl

is_valid_utf8-Utf8_example : Utf8 (0xe2 ∷ 0x82 ∷ 0xac ∷ [])
is_valid_utf8-Utf8_example =
    (is_valid_utf8-Utf8 (0xe2 ∷ 0x82 ∷ 0xac ∷ []) (ground arith)).0 valid_euro

-- A cipher that hides nothing, and whose tag is the key.
abbrev open_cipher : AesGcm
open_cipher = record {
  aes_gcm_encrypt = λ plaintext key nonce aad. some (plaintext, key);
  aes_gcm_decrypt =
      λ ciphertext key nonce aad tag. if bytes_eq tag key then some ciphertext else none;
}

open_cipher-Laws : AesGcmLaws open_cipher
open_cipher-Laws = record {
  opens = λ plaintext key nonce aad ciphertext tag e. ground (arith, bytes_eq_iff tag key);
  keeps_length = λ plaintext key nonce aad ciphertext tag e. ground arith;
}

abbrev sealed_sample : VaultEnvelope
sealed_sample = record {
  vault_format_version = 2;
  storage_schema_version = 2;
  vault_id = replicate 16 1;
  generation = 9;
  nonce = replicate 12 2;
  ciphertext = sample_bytes;
  tag = replicate 32 3;
}

decrypt-encrypt_example :
    decrypt_vault open_cipher sealed_sample (replicate 32 3) ≡ some sample_bytes
decrypt-encrypt_example =
    decrypt-encrypt open_cipher open_cipher-Laws sample_bytes (replicate 32 3) (replicate 16 1)
      (replicate 12 2) 9 2 sealed
  where
    sealed :
        encrypt_vault_with_nonce open_cipher sample_bytes
          (replicate 32 3)
          (replicate 16 1)
          9
          (replicate 12 2)
          2
        ≡ some sealed_sample
    sealed = unfold encrypt_vault_with_nonce build_vault_aad in refl

abbrev wrapped_sample : VmkWrapEnvelope
wrapped_sample = record {
  package_version = 1;
  wrap_version = 1;
  vault_id = replicate 16 1;
  nonce = replicate 12 2;
  ciphertext = replicate 32 3;
  tag = replicate 32 4;
}

unwrap-wrap_example :
    unwrap_vmk_with_key open_cipher wrapped_sample (replicate 32 4) ≡ some (replicate 32 3)
unwrap-wrap_example =
    unwrap-wrap open_cipher open_cipher-Laws (replicate 32 3) (replicate 32 4) (replicate 16 1)
      (replicate 12 2) wrapped
  where
    wrapped :
        wrap_vmk_with_key_and_nonce open_cipher
          (replicate 32 3)
          (replicate 32 4)
          (replicate 16 1)
          (replicate 12 2)
        ≡ some wrapped_sample
    wrapped = unfold wrap_vmk_with_key_and_nonce build_vmk_wrap_aad in refl
