-- ===== src/Registration.antt =====
-- firmware/components/m5auth_registration: the Device's identity and the browser that it trusts,
-- kept in the ordinary key-value store. The check of a public key (p256_public_key.cpp) calls mbedTLS
-- and is a parameter, as are the random draws. The wiping of buffers is left out.
pub mod Operations
pub mod Invariant
pub mod Framing
pub mod Persisted
pub mod Tests
use m5authenticator.Prelude.{
  ℕ, ◌+◌, ◌*◌, ◌/◌, ◌%◌, ◌^◌, Bool, true, false, not, ◌||◌, [], ◌∷◌, ◌++◌, ◌==◌, if◌then◌else◌,
  Bytes, replicate, take, drop, bytes_eq, all_zero, codes, get_or,
}

pub data Status : Type 0 where
  ok not_found invalid_argument conflict corrupt io : Status

abbrev pub is_ok : Status → Bool
is_ok ok = true
is_ok _ = false

abbrev pub is_corrupt : Status → Bool
is_corrupt corrupt = true
is_corrupt _ = false

abbrev pub is_not_found : Status → Bool
is_not_found not_found = true
is_not_found _ = false

abbrev pub is_io : Status → Bool
is_io io = true
is_io _ = false

pub record Snapshot : Type 0 where
  pub device_id : Bytes
  pub registration_present : Bool
  pub vault_id : Bytes
  pub registration_id : Bytes
  pub epoch : ℕ
  pub brk_public_key : Bytes

-- `Snapshot{}` with a Device id.
unfoldable pub unregistered : Bytes → Snapshot
unregistered device_id = record {
  device_id = device_id;
  registration_present = false;
  vault_id = replicate 16 0;
  registration_id = replicate 16 0;
  epoch = 0;
  brk_public_key = replicate 65 0;
}

-- The class `Store`.
pub record Store : Type 0 where
  pub ready : Bool
  pub recovery_reset_available : Bool
  pub device_id_recovery_required : Bool
  pub current : Snapshot

abbrev pub new_store : Store
new_store = record {
  ready = false;
  recovery_reset_available = false;
  device_id_recovery_required = false;
  current = unregistered (replicate 16 0);
}

abbrev pub encoded_registration_bytes : ℕ
encoded_registration_bytes = 8 + 16 + 16 + 4 + 65

unfoldable pub registration_magic : Bytes
registration_magic = codes "M5AREG1" ++ (0 ∷ [])

unfoldable pub write_u32 : ℕ → Bytes
write_u32 value =
    value / 2 ^ 24 % 2 ^ 8 ∷ value / 2 ^ 16 % 2 ^ 8 ∷ value / 2 ^ 8 % 2 ^ 8 ∷ value % 2 ^ 8 ∷ []

-- The bytes do not overlap, so `|` is a sum.
unfoldable pub read_u32 : Bytes → ℕ
read_u32 input =
    get_or input 0 0 * 2 ^ 24
    + get_or input 1 0 * 2 ^ 16
    + get_or input 2 0 * 2 ^ 8
    + get_or input 3 0

unfoldable pub encode_registration : Bytes → Bytes → ℕ → Bytes → Bytes
encode_registration vault_id registration_id epoch brk_public_key =
    registration_magic ++ (vault_id ++ (registration_id ++ (write_u32 epoch ++ brk_public_key)))

-- The bytes of one field.
abbrev pub slice : ℕ → ℕ → Bytes → Bytes
slice offset n encoded = take n (drop offset encoded)

-- `nvs_get_blob` gave these bytes, of the right length.
unfoldable pub decode_registration : (Bytes → Bool) → Bytes → Bytes → Status × Snapshot
decode_registration valid_public_key encoded device_id =
    let s : Snapshot = record {
      device_id = device_id;
      registration_present = true;
      vault_id = slice 8 16 encoded;
      registration_id = slice 24 16 encoded;
      epoch = read_u32 (slice 40 4 encoded);
      brk_public_key = slice 44 65 encoded;
    } in
    if not (bytes_eq (slice 0 8 encoded) registration_magic)
    then (corrupt, unregistered device_id)
    else if all_zero s.vault_id
        || all_zero s.registration_id
        || s.epoch == 0
        || not (valid_public_key s.brk_public_key)
    then (corrupt, unregistered device_id)
    else (ok, s)
