-- ===== src/VaultStore/Tests.antt =====
-- The slots on a store in memory.
use m5authenticator.Prelude.{ℕ, ◌≡◌, refl, some, [], ◌∷◌, ◌++◌, arith, Bytes, replicate, codes}
use m5authenticator.Nvs.Memory.{Memory, blank, memory, memory-Laws, put}
use m5authenticator.Vault.{VaultEnvelope}
use m5authenticator.VaultStore.{
  encode_envelope, decode_envelope, decoded, valid_envelope, envelope_magic, append_le,
}
use m5authenticator.VaultStore.Codec.{decode_envelope-encode_envelope}
use m5authenticator.VaultStore.Slots.{replace_envelope}
use m5authenticator.VaultStore.Slots.Answers.{
  schema_key, active_slot_key, slot0_key, slot1_key, last_used_key, VaultKey,
}
use m5authenticator.VaultStore.Replace.{replace_envelope-Replaces, Replaces}

abbrev index : VaultKey → ℕ
index schema_key = 0
index active_slot_key = 1
index slot0_key = 2
index slot1_key = 3
index last_used_key = 4

index_injective : (k k' : VaultKey) → index k ≡ index k' → k ≡ k'
index_injective k k' h = ground arith

abbrev envelope : VaultEnvelope
envelope = record {
  vault_format_version = 2;
  storage_schema_version = 2;
  vault_id = replicate 16 1;
  generation = 1;
  nonce = replicate 12 2;
  ciphertext = 7 ∷ 8 ∷ 9 ∷ [];
  tag = replicate 16 3;
}

abbrev envelope_bytes : Bytes
envelope_bytes =
    codes "M5AVLT2"
    ++ (0
        ∷ 2
        ∷ 0
        ∷ 2
        ∷ 0
        ∷ (replicate 16 1
            ++ (1
                ∷ 0
                ∷ 0
                ∷ 0
                ∷ 0
                ∷ 0
                ∷ 0
                ∷ 0
                ∷ (replicate 12 2 ++ (replicate 16 3 ++ (3 ∷ 0 ∷ 0 ∷ 0 ∷ 7 ∷ 8 ∷ 9 ∷ []))))))

encodes_envelope : encode_envelope envelope ≡ some envelope_bytes
unfolding encode_envelope valid_envelope envelope_magic append_le
encodes_envelope = refl

decode_envelope-encode_envelope_example : decode_envelope envelope_bytes ≡ decoded envelope
decode_envelope-encode_envelope_example =
    decode_envelope-encode_envelope envelope
      (record {
        vault_id_size = refl;
        nonce_size = refl;
        tag_size = refl;
        generation_fits = ground arith;
      })
      encodes_envelope

-- A formatted store.
abbrev formatted : Memory
formatted = put 0 (record blank { u32 = some 2 }) (λ i. blank)

replace_envelope-Replaces_example :
    Replaces
      (memory index)
      (memory-Laws index index_injective)
      0
      envelope
      formatted
      (replace_envelope (memory index) 0 envelope formatted)
replace_envelope-Replaces_example =
    replace_envelope-Replaces (memory index) (memory-Laws index index_injective) 0 envelope
      formatted
