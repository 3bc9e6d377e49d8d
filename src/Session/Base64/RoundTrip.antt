-- ===== src/Session/Base64/RoundTrip.antt =====
-- What is encoded decodes to itself, and a byte string has one text.
use m5authenticator.Prelude.{
  ℕ, ◌+◌, ◌*◌, ◌/◌, ◌%◌, ◌^◌, ◌<◌, ◌≡◌, refl, sym, ap, ◌≢◌, ◌↔◌, none, some, [], ◌∷◌, arith, length,
  Bytes, bytes_eq_iff, IsBytes,
}
use m5authenticator.Session.Base64.{
  base64url_encode, Decoding, push_byte, decode_chars, finish_decode, base64url_decode,
}
use m5authenticator.Session.Base64.Chars.{next, two-chars, three-chars, four-chars}

-- The loop gave these bytes and left no bits that count.
record Ends (bytes : Bytes) (d : Decoding) : Type 0 where
  accumulator : ℕ
  bits : ℕ
  whole : accumulator % 2 ^ bits ≡ 0
  result : d ≡ some (bytes, accumulator, bits)

push-Ends :
    (byte : ℕ) (bytes : Bytes) (d : Decoding)
    → Ends bytes d
    → Ends (byte ∷ bytes) (push_byte byte d)
push-Ends byte bytes d e = record {
  accumulator = e.accumulator;
  bits = e.bits;
  whole = e.whole;
  result = ap (push_byte byte) e.result;
}

Ends-three :
    {a b c a' b' c' : ℕ} {bytes : Bytes} {d : Decoding}
    → a' ≡ a
    → b' ≡ b
    → c' ≡ c
    → Ends bytes d
    → Ends (a ∷ b ∷ c ∷ bytes) (push_byte a' (push_byte b' (push_byte c' d)))
Ends-three {a} {b} {c} {a'} {b'} {c'} {bytes} {d} p q r e =
    rw (p, q, r) (push-Ends a (b ∷ c ∷ bytes) _ (push-Ends b (c ∷ bytes) _ (push-Ends c bytes d e)))

done-Ends :
    (accumulator bits : ℕ) → accumulator % 2 ^ bits ≡ 0 → Ends [] (decode_chars [] accumulator bits)
unfolding decode_chars
done-Ends accumulator bits e = record {
  accumulator = accumulator;
  bits = bits;
  whole = e;
  result = refl;
}

char_bound : (n : ℕ) → n % 2 ^ 6 < 64
char_bound n = omega arith

one_left :
    (a accumulator : ℕ)
    → a < 256
    → Ends (a ∷ []) (decode_chars (base64url_encode (a ∷ [])) accumulator 0)
unfolding base64url_encode
one_left a accumulator h =
    let bits = a * 2 ^ 16 in
    let i = bits / 2 ^ 18 % 2 ^ 6 in
    let j = bits / 2 ^ 12 % 2 ^ 6 in
    let byte : i * 4 + j / 16 ≡ a = omega (arith, h) in
    let rest = done-Ends (next (next accumulator i) j) 4 (omega (arith, h)) in
    rw
      (two-chars i j [] accumulator (char_bound (bits / 2 ^ 18)) (char_bound (bits / 2 ^ 12)), byte)
      (push-Ends a [] _ rest)

two_left :
    (a b accumulator : ℕ)
    → a < 256
    → b < 256
    → Ends (a ∷ b ∷ []) (decode_chars (base64url_encode (a ∷ b ∷ [])) accumulator 0)
unfolding base64url_encode
two_left a b accumulator h k =
    let bits = a * 2 ^ 16 + b * 2 ^ 8 in
    let i = bits / 2 ^ 18 % 2 ^ 6 in
    let j = bits / 2 ^ 12 % 2 ^ 6 in
    let l = bits / 2 ^ 6 % 2 ^ 6 in
    let first : i * 4 + j / 16 ≡ a = omega (arith, h, k) in
    let second : j % 16 * 16 + l / 4 ≡ b = omega (arith, h, k) in
    let rest = done-Ends (next (next (next accumulator i) j) l) 2 (omega (arith, h, k)) in
    rw
      (
        three-chars i j l [] accumulator (char_bound (bits / 2 ^ 18)) (char_bound (bits / 2 ^ 12))
            (char_bound (bits / 2 ^ 6)),
        first,
        second,
      )
      (push-Ends a (b ∷ []) _ (push-Ends b [] _ rest))

-- The loop, on the characters of any bytes and with anything in the accumulator.
decode_chars-base64url_encode :
    (bytes : Bytes) (accumulator : ℕ)
    → IsBytes bytes
    → Ends bytes (decode_chars (base64url_encode bytes) accumulator 0)
unfolding base64url_encode
decode_chars-base64url_encode [] accumulator h = done-Ends accumulator 0 (omega arith)
decode_chars-base64url_encode (a ∷ []) accumulator h = one_left a accumulator h.0
decode_chars-base64url_encode (a ∷ b ∷ []) accumulator h = two_left a b accumulator h.0 h.1.0
decode_chars-base64url_encode (a ∷ b ∷ c ∷ bytes) accumulator (h, (k, (l, rest))) =
    let bits = a * 2 ^ 16 + b * 2 ^ 8 + c in
    let i = bits / 2 ^ 18 % 2 ^ 6 in
    let j = bits / 2 ^ 12 % 2 ^ 6 in
    let m = bits / 2 ^ 6 % 2 ^ 6 in
    let n = bits % 2 ^ 6 in
    let first : i * 4 + j / 16 ≡ a = omega (arith, h, k, l) in
    let second : j % 16 * 16 + m / 4 ≡ b = omega (arith, h, k, l) in
    let third : m % 4 * 64 + n ≡ c = omega (arith, h, k, l) in
    let accumulator' = next (next (next (next accumulator i) j) m) n in
    rw
      (four-chars i j m n (base64url_encode bytes) accumulator (char_bound (bits / 2 ^ 18))
        (char_bound (bits / 2 ^ 12)) (char_bound (bits / 2 ^ 6)) (char_bound bits))
      (Ends-three first second third (decode_chars-base64url_encode bytes accumulator' rest))

length-base64url_encode : (bytes : Bytes) → length (base64url_encode bytes) % 4 ≢ 1
unfolding base64url_encode
length-base64url_encode [] e = omega (arith, e)
length-base64url_encode (a ∷ []) e = omega (arith, e)
length-base64url_encode (a ∷ b ∷ []) e = omega (arith, e)
length-base64url_encode (a ∷ b ∷ c ∷ bytes) e = length-base64url_encode bytes (omega (arith, e))

finish_decode-Ends :
    (bytes : Bytes) (d : Decoding)
    → Ends bytes d
    → finish_decode (base64url_encode bytes) d ≡ some bytes
unfolding finish_decode
finish_decode-Ends bytes d e =
    rw (e.result, e.whole, (bytes_eq_iff (base64url_encode bytes) (base64url_encode bytes)).1 refl)
      (ground arith)

finish_decode-canonical :
    (value bytes : Bytes) (d : Decoding)
    → finish_decode value d ≡ some bytes
    → base64url_encode bytes ≡ value
unfolding finish_decode
finish_decode-canonical value bytes none e = cc
finish_decode-canonical value bytes (some (output, accumulator, bits)) e =
    ground (arith, bytes_eq_iff (base64url_encode output) value)

decode-canonical :
    (value bytes : Bytes) → base64url_decode value ≡ some bytes → value ≡ base64url_encode bytes
unfolding base64url_decode
decode-canonical value bytes e = ground (
  arith,
  λ (f : finish_decode value (decode_chars value 0 0) ≡ some bytes).
      sym (finish_decode-canonical value bytes (decode_chars value 0 0) f),
)

decode_own :
    (bytes : Bytes) → IsBytes bytes → base64url_decode (base64url_encode bytes) ≡ some bytes
unfolding base64url_decode
decode_own bytes h = ground (
  arith,
  length-base64url_encode bytes,
  finish_decode-Ends bytes (decode_chars (base64url_encode bytes) 0 0)
      (decode_chars-base64url_encode bytes 0 h),
)

-- A text decodes to these bytes exactly when it is their encoding: what is encoded decodes to itself,
-- and no second text decodes to the same bytes.
pub base64url_decode_iff :
    (value bytes : Bytes)
    → IsBytes bytes
    → (base64url_decode value ≡ some bytes) ↔ (value ≡ base64url_encode bytes)
unfolding base64url_decode
base64url_decode_iff value bytes h = (decode-canonical value bytes, λ e. rw e (decode_own bytes h))
