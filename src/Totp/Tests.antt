-- ===== src/Totp/Tests.antt =====
-- The decoder and the generator on RFC 4648 and RFC 4226 data.
use m5authenticator.Prelude.{
  ℕ, ◌+◌, ◌*◌, ◌≤◌, ◌<◌, ◌/◌, ◌%◌, ◌≡◌, refl, bytes_eq, if◌then◌else◌, ◌≢◌, ◌⊎◌, none, some, List,
  [], ◌∷◌, arith, length, Bytes,
}
use Prim.Native.Char.{code}
use Prim.Native.String.{String}
use m5authenticator.Prelude.{IsBytes, of_digits}
use m5authenticator.Totp.{
  ok, crypto_error, HmacSha1Provider, message, generate_key_with_provider, generate_with_provider,
  modulo, period_seconds,
}
use m5authenticator.Totp.Base32.{
  decode_base32, decode_chars, decode_char, base32_value, push_value, finish_decode,
}
use m5authenticator.Totp.Base32.Value.{Reads, Packs}
use m5authenticator.Totp.Base32.Decode.{decode_base32-Reads}
use m5authenticator.Totp.Truncation.{
  generate_key-counter, generate_key-dynamic_truncation, dynamic_truncation,
}

abbrev codes : String → Bytes
codes String.[] = []
codes (String.◌∷◌ c s) = code c ∷ codes s

decodes_foo : decode_base32 (codes "mZXW6===") ≡ some (codes "foo")
unfolding decode_base32 decode_chars decode_char base32_value push_value finish_decode
decodes_foo = refl

-- The bits behind the last byte must be zero.
trailing_bits : decode_base32 (codes "MZXW7") ≡ none
unfolding decode_base32 decode_chars decode_char base32_value push_value finish_decode
trailing_bits = refl

inner_padding : decode_base32 (codes "MZ=W6") ≡ none
unfolding decode_base32 decode_chars decode_char base32_value push_value finish_decode
inner_padding = refl

decode_base32-Reads_example :
    (codes "foo" ≢ []) × ((vs : List ℕ) × Reads (codes "mZXW6===") vs × Packs vs (codes "foo"))
decode_base32-Reads_example = (decode_base32-Reads (codes "mZXW6===") (codes "foo")).0 decodes_foo

-- The digest of RFC 4226, section 5.4, for every message.
abbrev rfc_digest : Bytes
rfc_digest =
    0x1f ∷ 0x86 ∷ 0x98 ∷ 0x69 ∷ 0x0e ∷ 0x02 ∷ 0xca ∷ 0x16 ∷ 0x61 ∷ 0x85 ∷ 0x50 ∷ 0xef ∷ 0x7f ∷ 0x19
    ∷ 0xda ∷ 0x8e ∷ 0x94 ∷ 0x5b ∷ 0x55 ∷ 0x5a ∷ []

abbrev rfc_provider : HmacSha1Provider
rfc_provider key text = some rfc_digest

rfc_code : generate_with_provider (codes "MZXW6===") 59 rfc_provider ≡ ok 872921
unfolding generate_with_provider generate_key_with_provider decode_base32 decode_chars decode_char
    base32_value push_value finish_decode
rfc_code = refl

message_59 : message (59 / 30) ≡ 0 ∷ 0 ∷ 0 ∷ 0 ∷ 0 ∷ 0 ∷ 0 ∷ 1 ∷ []
unfolding message
message_59 = refl

-- The first time step.
abbrev step_1 : Bytes
step_1 = 0 ∷ 0 ∷ 0 ∷ 0 ∷ 0 ∷ 0 ∷ 0 ∷ 1 ∷ []

-- The digest at the first time step, and nothing elsewhere.
abbrev only_step_1 : HmacSha1Provider
only_step_1 key text = if bytes_eq text step_1 then some rfc_digest else none

step_1_counts : (of_digits 256 0 step_1 * 30 ≤ 59) × (59 < of_digits 256 0 step_1 * 30 + 30)
unfolding of_digits
step_1_counts = omega arith

generate_key-counter_example :
    generate_key_with_provider (1 ∷ []) 59 rfc_provider
    ≡ generate_key_with_provider (1 ∷ []) 59 only_step_1
generate_key-counter_example =
    (generate_key-counter (1 ∷ []) step_1 59 (λ e. cc) (omega arith) refl (omega arith)).1
      step_1_counts rfc_provider only_step_1 (unfold bytes_eq in refl)

-- At the next time step the codes differ.
next_step : generate_key_with_provider (1 ∷ []) 60 only_step_1 ≡ crypto_error
unfolding generate_key_with_provider message bytes_eq
next_step = refl

rfc_gives_digests :
    (key text digest : Bytes)
    → rfc_provider key text ≡ some digest
    → (length digest ≡ 20) × IsBytes digest
rfc_gives_digests key text digest e =
    let same : rfc_digest ≡ digest = cc in rw (← same) (refl, omega arith)

generate_key-dynamic_truncation_example :
    ((rfc_provider (1 ∷ []) (message (59 / period_seconds)) ≡ none)
      × (generate_key_with_provider (1 ∷ []) 59 rfc_provider ≡ crypto_error))
    ⊎ ((digest : Bytes) × (rfc_provider (1 ∷ []) (message (59 / period_seconds)) ≡ some digest)
        × (generate_key_with_provider (1 ∷ []) 59 rfc_provider
            ≡ ok (dynamic_truncation digest % modulo)))
generate_key-dynamic_truncation_example =
    generate_key-dynamic_truncation rfc_provider (1 ∷ []) 59 rfc_gives_digests (λ e. cc)
