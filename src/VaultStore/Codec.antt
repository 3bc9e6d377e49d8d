-- ===== src/VaultStore/Codec.antt =====
-- The framing of an envelope reads back as the envelope.
use m5authenticator.Prelude.{
  ℕ, zero, suc, ◌*◌, ◌/◌, ◌^◌, ◌≤◌, ◌<◌, ◌≡◌, refl, sym, inl, inr, true, false, not, some, [], ◌∷◌,
  ◌++◌, arith, leb, ◌==◌, Bool-cases, length, Bytes, is_empty, bytes_eq_iff, u64_max, some_eq,
}
use m5authenticator.Vault.{VaultEnvelope, target_storage_schema_version, is_supported_vault_format}
use m5authenticator.Vault.Decode.{read_bytes}
use mathlib.Core.List.{append-nil}
use m5authenticator.Vault.RoundTrip.Records.{read_bytes-append}
use m5authenticator.VaultStore.{
  append_le, read_le, envelope_magic, valid_envelope, encode_envelope, read_header, with_header,
  with_ciphertext, decode_envelope, decoded,
}
use m5authenticator.VaultRuntime.{max_persisted_ciphertext_bytes}

-- 256 to the n.
abbrev limit : ℕ → ℕ
limit zero = 1
limit (suc n) = 2 ^ 8 * limit n

read_le-append_le :
    (n value : ℕ) (rest : Bytes)
    → value < limit n
    → read_le n (append_le n value ++ rest) ≡ some (value, rest)
unfolding read_le append_le
read_le-append_le zero value rest h = ground arith
read_le-append_le (suc n) value rest h =
    ground (arith, read_le-append_le n (value / 2 ^ 8) rest (omega (arith, h)))

-- The sizes of the arrays and of the generation.
pub record IsEnvelope (e : VaultEnvelope) : Type 0 where
  pub vault_id_size : length e.vault_id ≡ 16
  pub nonce_size : length e.nonce ≡ 12
  pub tag_size : length e.tag ≡ 16
  pub generation_fits : e.generation ≤ u64_max

nonempty_length : (xs : Bytes) → is_empty xs ≡ false → not (length xs == 0) ≡ true
nonempty_length [] h = cc
nonempty_length (x ∷ xs) h = ground arith

length-envelope_magic : length envelope_magic ≡ 8
unfolding envelope_magic
length-envelope_magic = refl

read_header-append :
    (e : VaultEnvelope)
    → IsEnvelope e
    → valid_envelope e ≡ true
    → read_header (
        envelope_magic
        ++ (append_le 2 e.storage_schema_version
            ++ (append_le 2 e.vault_format_version
                ++ (e.vault_id
                    ++ (append_le 8 e.generation
                        ++ (e.nonce
                            ++ (e.tag ++ (append_le 4 (length e.ciphertext) ++ e.ciphertext))))))))
      ≡ some (record e { ciphertext = [] }, length e.ciphertext, e.ciphertext)
unfolding read_header valid_envelope
read_header-append e h v =
    let size : Bytes = append_le 4 (length e.ciphertext) in
    let behind_id : Bytes =
      append_le 8 e.generation ++ (e.nonce ++ (e.tag ++ (size ++ e.ciphertext))) in
    let nonempty : not (length e.ciphertext == 0) ≡ true =
      nonempty_length e.ciphertext (ground (arith, v)) in
    let few : leb (length e.ciphertext) max_persisted_ciphertext_bytes ≡ true = ground (arith, v) in
    simp (
      read_bytes-append 8 envelope_magic
          (append_le 2 e.storage_schema_version
            ++ (append_le 2 e.vault_format_version ++ (e.vault_id ++ behind_id)))
          length-envelope_magic,
      (bytes_eq_iff envelope_magic envelope_magic).1 refl,
      read_le-append_le 2 e.storage_schema_version
          (append_le 2 e.vault_format_version ++ (e.vault_id ++ behind_id)) (ground (arith, v)),
      read_le-append_le 2 e.vault_format_version (e.vault_id ++ behind_id) (ground (arith, v)),
      read_bytes-append 16 e.vault_id behind_id h.vault_id_size,
      read_le-append_le 8 e.generation (e.nonce ++ (e.tag ++ (size ++ e.ciphertext)))
          (omega (arith, h.generation_fits)),
      read_bytes-append 12 e.nonce (e.tag ++ (size ++ e.ciphertext)) h.nonce_size,
      read_bytes-append 16 e.tag (size ++ e.ciphertext) h.tag_size,
      read_le-append_le 4 (length e.ciphertext) e.ciphertext (ground (arith, v)),
      nonempty,
      few,
    )

whole_ciphertext :
    (e : VaultEnvelope)
    → valid_envelope e ≡ true
    → with_ciphertext (record e { ciphertext = [] }) (some (e.ciphertext, [])) ≡ decoded e
unfolding with_ciphertext
whole_ciphertext e v = rw v

with_header-Valid :
    (e : VaultEnvelope)
    → valid_envelope e ≡ true
    → with_header (some (record e { ciphertext = [] }, length e.ciphertext, e.ciphertext))
      ≡ decoded e
unfolding with_header
with_header-Valid e v =
    let schema : (e.storage_schema_version == target_storage_schema_version) ≡ true =
      unfold valid_envelope in ground (arith, v) in
    let format : is_supported_vault_format e.vault_format_version ≡ true =
      unfold valid_envelope in ground (arith, v) in
    let whole : read_bytes (length e.ciphertext) e.ciphertext ≡ some (e.ciphertext, []) =
      rw (append-nil e.ciphertext) at
        (read_bytes-append (length e.ciphertext) e.ciphertext [] refl) in
    rw (schema, format, whole) (whole_ciphertext e v)

-- What the framing writes for an envelope reads back as the same envelope, if its arrays have their
-- sizes and its generation is a 64-bit number.
pub decode_envelope-encode_envelope :
    (e : VaultEnvelope) {encoded : Bytes}
    → IsEnvelope e
    → encode_envelope e ≡ some encoded
    → decode_envelope encoded ≡ decoded e
unfolding decode_envelope encode_envelope
decode_envelope-encode_envelope e {encoded} h x = elim (Bool-cases (valid_envelope e)) [
  | inr bad ↦ absurd (ground (arith, x))
  | inl v ↦ rw (sym (some_eq (rw v at x)), read_header-append e h v) (with_header-Valid e v)
]
