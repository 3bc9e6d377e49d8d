-- ===== src/VaultStore.antt =====
-- nvs_persistence.cpp of firmware/components/m5auth_vault_runtime: the encrypted Vault in two slots
-- of the key-value store. Here is the framing of an envelope.
pub mod Codec
pub mod Slots
pub mod Pointer
pub mod Atomic
pub mod Untouched
pub mod Replace
pub mod Compatible
mod Tests
use m5authenticator.Prelude.{
  ℕ, zero, suc, ◌+◌, ◌*◌, ◌/◌, ◌%◌, ◌^◌, Bool, not, ◌&&◌, ◌||◌, Option, none, some, [], ◌∷◌, ◌++◌,
  leb, ◌==◌, if◌then◌else◌, length, Bytes, is_empty, ◌>>=◌, ◌>>◌, guard, bytes_eq, codes, u32_max,
}
use m5authenticator.Vault.{VaultEnvelope, is_supported_vault_format, target_storage_schema_version}
use m5authenticator.Vault.Decode.{read_bytes}
use m5authenticator.VaultRuntime.{
  Status, invalid_argument, corrupt, unsupported_vault_format, max_persisted_ciphertext_bytes,
}

-- The low byte first: `(value >> shift) & 0xff` at the shifts 0, 8, …, so one shift by 8 each.
unfoldable pub append_le : ℕ → ℕ → Bytes
append_le zero value = []
append_le (suc n) value = value % 2 ^ 8 ∷ append_le n (value / 2 ^ 8)

-- The fields of the number do not overlap, so `|` is a sum.
unfoldable pub read_le : ℕ → Bytes → Option (ℕ × Bytes)
read_le zero input = some (0, input)
read_le (suc n) [] = none
read_le (suc n) (x ∷ input) = do (high, input) ← read_le n input; some (x + 2 ^ 8 * high, input)

unfoldable pub envelope_magic : Bytes
envelope_magic = codes "M5AVLT2" ++ (0 ∷ [])

unfoldable pub valid_envelope : VaultEnvelope → Bool
valid_envelope e =
    e.storage_schema_version == target_storage_schema_version
    && is_supported_vault_format e.vault_format_version
    && not (e.generation == 0)
    && not (is_empty e.ciphertext)
    && leb (length e.ciphertext) max_persisted_ciphertext_bytes
    && leb (length e.ciphertext) u32_max

-- Nothing where the source returns `kInvalidArgument`.
unfoldable pub encode_envelope : VaultEnvelope → Option Bytes
encode_envelope e =
    if not (valid_envelope e)
    then none
    else some (
        envelope_magic
        ++ (append_le 2 e.storage_schema_version
            ++ (append_le 2 e.vault_format_version
                ++ (e.vault_id
                    ++ (append_le 8 e.generation
                        ++ (e.nonce
                            ++ (e.tag ++ (append_le 4 (length e.ciphertext) ++ e.ciphertext))))))))

-- The fields in front of the ciphertext, the length of the ciphertext, and the bytes behind.
unfoldable pub read_header : Bytes → Option (VaultEnvelope × ℕ × Bytes)
read_header encoded = do
  (magic, input) ← read_bytes 8 encoded
  guard (bytes_eq magic envelope_magic)
  (schema, input) ← read_le 2 input
  (format, input) ← read_le 2 input
  (vault_id, input) ← read_bytes 16 input
  (generation, input) ← read_le 8 input
  (nonce, input) ← read_bytes 12 input
  (tag, input) ← read_bytes 16 input
  (ciphertext_size, input) ← read_le 4 input
  guard (not (ciphertext_size == 0) && leb ciphertext_size max_persisted_ciphertext_bytes)
  some (
    record {
      vault_format_version = format;
      storage_schema_version = schema;
      vault_id = vault_id;
      generation = generation;
      nonce = nonce;
      ciphertext = [];
      tag = tag;
    },
    ciphertext_size,
    input,
  )

-- An envelope, or the status of the failure.
pub data Decoded : Type 0 where
  decoded : VaultEnvelope → Decoded
  undecoded : Status → Decoded

-- The ciphertext is all that is left.
unfoldable pub with_ciphertext : VaultEnvelope → Option (Bytes × Bytes) → Decoded
with_ciphertext candidate none = undecoded corrupt
with_ciphertext candidate (some (ciphertext, rest)) =
    let e = record candidate { ciphertext = ciphertext } in
    if not (is_empty rest) || not (valid_envelope e) then undecoded corrupt else decoded e

unfoldable pub with_header : Option (VaultEnvelope × ℕ × Bytes) → Decoded
with_header none = undecoded corrupt
with_header (some (candidate, ciphertext_size, input)) =
    if not (candidate.storage_schema_version == target_storage_schema_version)
    then undecoded corrupt
    else if not (is_supported_vault_format candidate.vault_format_version)
    then undecoded unsupported_vault_format
    else with_ciphertext candidate (read_bytes ciphertext_size input)

-- An empty input has no magic.
unfoldable pub decode_envelope : Bytes → Decoded
decode_envelope encoded = with_header (read_header encoded)
