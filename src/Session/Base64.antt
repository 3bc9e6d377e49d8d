-- ===== src/Session/Base64.antt =====
-- `base64url_encode` and `base64url_decode`. The three bytes do not overlap, so `|` is a sum; the
-- accumulator of the decoder is 32 bits wide.
mod Chars
pub mod RoundTrip
use m5authenticator.Prelude.{
  ℕ, ◌+◌, ◌-◌, ◌*◌, ◌/◌, ◌%◌, ◌^◌, not, ◌&&◌, Option, none, some, [], ◌∷◌, ltb, leb, ◌==◌,
  if◌then◌else◌, length, Bytes, ◌>>=◌, bytes_eq, codes, get_or,
}

unfoldable pub alphabet : Bytes
alphabet = codes "ABCDEFGHIJKLMNOPQRSTUVWXYZabcdefghijklmnopqrstuvwxyz0123456789-_"

-- `kAlphabet[index]`.
unfoldable pub char_at : ℕ → ℕ
char_at index = get_or alphabet index 0

unfoldable pub base64url_encode : Bytes → Bytes
base64url_encode [] = []
base64url_encode (a ∷ []) =
    let bits = a * 2 ^ 16 in char_at (bits / 2 ^ 18 % 2 ^ 6) ∷ char_at (bits / 2 ^ 12 % 2 ^ 6) ∷ []
base64url_encode (a ∷ b ∷ []) =
    let bits = a * 2 ^ 16 + b * 2 ^ 8 in
    char_at (bits / 2 ^ 18 % 2 ^ 6)
    ∷ char_at (bits / 2 ^ 12 % 2 ^ 6)
    ∷ char_at (bits / 2 ^ 6 % 2 ^ 6)
    ∷ []
base64url_encode (a ∷ b ∷ c ∷ value) =
    let bits = a * 2 ^ 16 + b * 2 ^ 8 + c in
    char_at (bits / 2 ^ 18 % 2 ^ 6)
    ∷ char_at (bits / 2 ^ 12 % 2 ^ 6)
    ∷ char_at (bits / 2 ^ 6 % 2 ^ 6)
    ∷ char_at (bits % 2 ^ 6)
    ∷ base64url_encode value

unfoldable pub decode_char : ℕ → Option ℕ
decode_char value =
    if leb 65 value && leb value 90
    then some (value - 65)
    else if leb 97 value && leb value 122
    then some (value - 97 + 26)
    else if leb 48 value && leb value 57
    then some (value - 48 + 52)
    else if value == 45
    then some 62
    else if value == 95
    then some 63
    else none

-- The output, the accumulator and the bits that are left.
abbrev pub Decoding : Type 0
Decoding = Option (Bytes × ℕ × ℕ)

abbrev pub push_byte : ℕ → Decoding → Decoding
push_byte byte none = none
push_byte byte (some (output, accumulator, bits)) = some (byte ∷ output, accumulator, bits)

unfoldable pub decode_chars : Bytes → ℕ → ℕ → Decoding
decode_chars [] accumulator bits = some ([], accumulator, bits)
decode_chars (ch ∷ value) accumulator bits = decode_char ch >>= λ decoded.
    let accumulator = (accumulator * 2 ^ 6 + decoded) % 2 ^ 32 in
    let kept = (if leb 8 (bits + 6) then bits + 6 - 8 else bits + 6) in
    let rest = decode_chars value accumulator kept in
    if leb 8 (bits + 6) then push_byte (accumulator / 2 ^ kept % 2 ^ 8) rest else rest

-- What follows the loop.
unfoldable pub finish_decode : Bytes → Decoding → Option Bytes
finish_decode value none = none
finish_decode value (some (output, accumulator, bits)) =
    if ltb 0 bits && not (accumulator % 2 ^ bits == 0)
    then none
    else if not (bytes_eq (base64url_encode output) value)
    then none
    else some output

unfoldable pub base64url_decode : Bytes → Option Bytes
base64url_decode value =
    if length value % 4 == 1 then none else finish_decode value (decode_chars value 0 0)
