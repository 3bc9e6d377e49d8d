-- ===== src/Totp.antt =====
-- firmware/components/m5auth_totp/totp_core.cpp: the code of one time step.
-- The HMAC is a parameter: mbedTLS computes it. It gives the 20 bytes of the digest, or nothing
-- where it fails. Pointers are taken to be given; the wiping of the buffers is not modelled.
pub mod Base32
pub mod Truncation
mod Tests
use m5authenticator.Prelude.{
  ℕ, zero, suc, ◌+◌, ◌-◌, ◌*◌, ◌/◌, ◌%◌, ◌^◌, ◌≤◌, ◌<◌, ◌≡◌, refl, sym, ap, ◌∙◌, ◌≢◌, ◌↔◌, ◌⊎◌, inl,
  inr, Bool, true, false, not, ◌&&◌, ◌||◌, Option, none, some, List, [], ◌∷◌, ◌++◌, map, arith, ltb,
  leb, ◌==◌, if◌then◌else◌, Bool-cases, Option-cases, length, Bytes, length-append, ltb→lt, lt→ltb,
  leb→le, ==_iff, replicate, is_empty,
}
use m5authenticator.Prelude.{get_or}
use Base32.{decode_base32}

abbrev pub period_seconds : ℕ
period_seconds = 30

abbrev pub modulo : ℕ
modulo = 1_000_000

-- `kOk` with the code that it stores.
pub data CoreResult : Type 0 where
  ok : ℕ → CoreResult
  invalid_secret crypto_error : CoreResult

-- Key and message to digest.
abbrev pub HmacSha1Provider : Type 0
HmacSha1Provider = Bytes → Bytes → Option Bytes

-- The last `n` bytes of the counter: `(counter >> shift) & 0xff`, the highest shift first.
unfoldable pub message_bytes : ℕ → ℕ → Bytes
message_bytes counter zero = []
message_bytes counter (suc n) = counter / 2 ^ (n * 8) % 2 ^ 8 ∷ message_bytes counter n

unfoldable pub message : ℕ → Bytes
unfolding message_bytes
message counter = message_bytes counter 8

-- The code of a digest. The fields of `binary` do not overlap, so `|` is a sum.
unfoldable pub truncate : Bytes → CoreResult
truncate digest =
    let offset = get_or digest 19 0 % 16 in
    let binary =
      get_or digest offset 0 % 2 ^ 7 * 2 ^ 24
      + get_or digest (offset + 1) 0 * 2 ^ 16
      + get_or digest (offset + 2) 0 * 2 ^ 8
      + get_or digest (offset + 3) 0 in
    if leb 20 (offset + 3) then crypto_error else ok (binary % modulo)

unfoldable pub generate_key_with_provider : Bytes → ℕ → HmacSha1Provider → CoreResult
unfolding truncate
generate_key_with_provider key unix_seconds provider =
    if is_empty key
    then invalid_secret
    else elim (provider key (message (unix_seconds / period_seconds))) [
      | none ↦ crypto_error
      | some digest ↦ truncate digest
    ]

abbrev pub generate_raw_with_provider : Bytes → ℕ → HmacSha1Provider → CoreResult
generate_raw_with_provider = generate_key_with_provider

unfoldable pub generate_with_provider : Bytes → ℕ → HmacSha1Provider → CoreResult
generate_with_provider base32_secret unix_seconds provider = elim (decode_base32 base32_secret) [
  | none ↦ invalid_secret
  | some key ↦ generate_key_with_provider key unix_seconds provider
]
