-- ===== src/Totp/Base32/Value.antt =====
-- The number that the characters stand for, and the bytes that it splits into.
use m5authenticator.Prelude.{
  ℕ, inl, inr, zero, suc, ◌+◌, ◌*◌, ◌/◌, ◌%◌, ◌^◌, ◌<◌, ◌≡◌, arith, of_digits, length, IsBytes,
  Bool-cases, leb, inl, ◌-◌, IsBytes-append, inr, ◌∙◌, ap, refl, of_digits-concat, sym,
  length-append, ◌∷◌, [], leb→le, Bytes, List, some, none,
}
use m5authenticator.Totp.Base32.Alphabet.{Stands}
use m5authenticator.Totp.Base32.{Decoder, push_value, start, base32_value}

-- One more value of five bits, where no byte is full yet.
keep_bits :
    (b acc v n : ℕ)
    → b < 3
    → v < 32
    → acc < 2 ^ 32
    → n * 2 ^ (b + 5) + (acc * 2 ^ 5 % 2 ^ 32 + v) % 2 ^ (b + 5)
      ≡ (n * 2 ^ b + acc % 2 ^ b) * 32 + v
keep_bits zero acc v n h k l = omega arith
keep_bits (suc zero) acc v n h k l = omega arith
keep_bits (suc (suc zero)) acc v n h k l = omega arith
keep_bits (suc (suc (suc b))) acc v n h k l = absurd (omega arith)

-- One more value, where a byte is full. `b` is the number of bits that stay.
flush_bits :
    (b acc v n : ℕ)
    → b < 5
    → v < 32
    → acc < 2 ^ 32
    → let a = acc * 2 ^ 5 % 2 ^ 32 + v in
      (n * 256 + a / 2 ^ b % 2 ^ 8) * 2 ^ b + a % 2 ^ b
      ≡ (n * 2 ^ (b + 3) + acc % 2 ^ (b + 3)) * 32 + v
flush_bits zero acc v n h k l = omega arith
flush_bits (suc zero) acc v n h k l = omega arith
flush_bits (suc (suc zero)) acc v n h k l = omega arith
flush_bits (suc (suc (suc zero))) acc v n h k l = omega arith
flush_bits (suc (suc (suc (suc zero)))) acc v n h k l = omega arith
flush_bits (suc (suc (suc (suc (suc b))))) acc v n h k l = absurd (omega arith)

-- The loop has read `count` values, which make up the number `value`.
pub record Inv (value count : ℕ) (d : Decoder) : Type 0 where
  pub small : d.bits < 8
  pub fits : d.accumulator < 2 ^ 32
  pub total : of_digits 256 0 d.decoded * 2 ^ d.bits + d.accumulator % 2 ^ d.bits ≡ value
  pub counted : length d.decoded * 8 + d.bits ≡ count * 5
  pub bytes : IsBytes d.decoded

pub start-Inv : Inv 0 0 start
unfolding of_digits
start-Inv = record {
  small = omega arith;
  fits = omega arith;
  total = refl;
  counted = refl;
  bytes = tt;
}

pub push_value-Inv :
    (value count v : ℕ) (d : Decoder)
    → v < 32
    → Inv value count d
    → Inv (value * 32 + v) (suc count) (push_value v d)
unfolding push_value
push_value-Inv value count v d h i = elim (Bool-cases (leb 8 (d.bits + 5))) [
  | inl full ↦
      rw (full, push_value)
        (let b : ℕ = d.bits + 5 - 8 in
          let e : d.bits ≡ b + 3 = ground arith in
          record {
            small = ground arith;
            fits = omega arith;
            total = rw of_digits-concat (
                flush_bits b d.accumulator v (of_digits 256 0 d.decoded) (ground arith) h i.fits
                ∙ ap
                    (λ (k : ℕ).
                      (of_digits 256 0 d.decoded * 2 ^ k + d.accumulator % 2 ^ k) * 32 + v)
                    (sym e)
                ∙ ap (λ (n : ℕ). n * 32 + v) i.total);
            counted =
                omega (arith, i.counted, i.small, length-append {0}, leb→le 8 (d.bits + 5) full);
            bytes = IsBytes-append d.decoded _ i.bytes (omega arith, tt);
          })
  | inr more ↦
      rw (more, push_value)
        (record {
          small = ground arith;
          fits = omega arith;
          total =
              keep_bits d.bits d.accumulator v (of_digits 256 0 d.decoded) (ground arith) h i.fits
              ∙ ap (λ (n : ℕ). n * 32 + v) i.total;
          counted = omega (arith, i.counted);
          bytes = i.bytes;
        })
]

-- What the text says: the places of its characters in the alphabet, and then nothing but `=`.
abbrev pub Padding : Bytes → Type 0
Padding [] = Unit {0}
Padding (ch ∷ encoded) = (ch ≡ b'=') × Padding encoded

pub data Reads : Bytes → List ℕ → Type 0 where
  end : (padding : Bytes) → Padding padding → Reads padding []
  value :
      (ch v : ℕ) {encoded : Bytes} {vs : List ℕ}
      → Stands ch v
      → Reads encoded vs
      → Reads (ch ∷ encoded) (v ∷ vs)

-- `bytes` are the bits of the values, less fewer than eight bits that are zero.
pub record Packs (vs : List ℕ) (bytes : Bytes) : Type 0 where
  pub rest : ℕ
  pub short : rest < 8
  pub counted : length bytes * 8 + rest ≡ length vs * 5
  pub total : of_digits 256 0 bytes * 2 ^ rest ≡ of_digits 32 0 vs
  pub bytes_fit : IsBytes bytes

pub base32_value-lt : (ch : ℕ) {v : ℕ} → base32_value ch ≡ some v → v < 32
unfolding base32_value
base32_value-lt ch e = ground arith

pub base32_value_padding : base32_value b'=' ≡ none
unfolding base32_value
base32_value_padding = refl
