-- ===== src/Totp/Base32.antt =====
-- `base32_value` and `decode_base32` of totp_core.cpp. `<<` on the 32-bit accumulator wraps, and
-- `|` joins it with a value that lies below the shifted bits, so it is a sum.
pub mod Alphabet
pub mod Value
pub mod Decode
use m5authenticator.Prelude.{
  ℕ, ◌+◌, ◌-◌, ◌*◌, ◌/◌, ◌%◌, ◌^◌, Bool, true, false, not, ◌&&◌, List, [], ◌∷◌, ◌++◌, Option, none,
  some, Bytes, ltb, leb, ◌==◌, if◌then◌else◌, is_empty,
}

-- `none` is -1.
unfoldable pub base32_value : ℕ → Option ℕ
base32_value ch =
    if leb b'A' ch && leb ch b'Z'
    then some (ch - b'A')
    else if leb b'a' ch && leb ch b'z'
    then some (ch - b'a')
    else if leb b'2' ch && leb ch b'7'
    then some (26 + (ch - b'2'))
    else none

-- The loop's variables.
pub record Decoder : Type 0 where
  pub accumulator : ℕ
  pub bits : ℕ
  pub padding_started : Bool
  pub decoded : Bytes

abbrev pub start : Decoder
start = record { accumulator = 0; bits = 0; padding_started = false; decoded = [] }

-- The body behind the tests: five bits more, and a byte as soon as eight are there.
unfoldable pub push_value : ℕ → Decoder → Decoder
push_value value d =
    let accumulator = d.accumulator * 2 ^ 5 % 2 ^ 32 + value in
    let bits = d.bits + 5 in
    if leb 8 bits
    then record d {
      accumulator = accumulator;
      bits = bits - 8;
      decoded = d.decoded ++ (accumulator / 2 ^ (bits - 8) % 2 ^ 8 ∷ []);
    }
    else record d { accumulator = accumulator; bits = bits }

-- One character; `none` is the result false.
unfoldable pub decode_char : ℕ → Decoder → Option Decoder
decode_char ch d =
    if ch == b'='
    then some (record d { padding_started = true })
    else if d.padding_started
    then none
    else elim (base32_value ch) [ none ↦ none | some value ↦ some (push_value value d) ]

unfoldable pub decode_chars : Bytes → Decoder → Option Decoder
decode_chars [] d = some d
decode_chars (ch ∷ encoded) d = elim (decode_char ch d) [
  | none ↦ none
  | some d' ↦ decode_chars encoded d'
]

-- The checks behind the loop.
unfoldable pub finish_decode : Decoder → Option Bytes
finish_decode d =
    if is_empty d.decoded
    then none
    else if ltb 0 d.bits && not (d.accumulator % 2 ^ d.bits == 0)
    then none
    else some d.decoded

unfoldable pub decode_base32 : Bytes → Option Bytes
decode_base32 encoded =
    if is_empty encoded
    then none
    else elim (decode_chars encoded start) [ none ↦ none | some d ↦ finish_decode d ]
