-- ===== src/Session/Base64/Chars.antt =====
-- Lemmas on two, three or four characters of base64url.
use m5authenticator.Prelude.{
  ℕ, zero, suc, ◌+◌, ◌*◌, ◌/◌, ◌%◌, ◌^◌, ◌<◌, ◌≡◌, refl, ap, ◌∙◌, ◌⊎◌, inl, inr, Bool, true, false,
  ◌&&◌, Option, none, some, ◌∷◌, arith, ◌==◌, Bytes, ==_iff,
}
use m5authenticator.Session.Base64.{
  alphabet, char_at, decode_char, Decoding, push_byte, decode_chars,
}

pub names : ℕ → Option ℕ → Bool
names i none = false
names i (some d) = d == i

pub names-eq : (i : ℕ) (m : Option ℕ) → names i m ≡ true → m ≡ some i
unfolding names
names-eq i none h = cc
names-eq i (some d) h = ground (arith, ==_iff d i)

-- The table and the decoder agree, tried out.
pub agree : ℕ → Bool
unfolding names
agree zero = true
agree (suc n) = names n (decode_char (char_at n)) && agree n

pub last_or_less : (n i : ℕ) → i < suc n → (i ≡ n) ⊎ (i < n)
last_or_less n i h = omega (arith, h)

pub agree-lt : (n i : ℕ) → agree n ≡ true → i < n → decode_char (char_at i) ≡ some i
unfolding agree
agree-lt zero i h k = absurd (omega (arith, k))
agree-lt (suc n) i h k = elim (last_or_less n i k) [
  | inl e ↦ rw e (names-eq n (decode_char (char_at n)) (ground (arith, h)))
  | inr less ↦ agree-lt n i (ground (arith, h)) less
]

pub agree_64 : agree 64 ≡ true
unfolding agree names decode_char char_at alphabet
agree_64 = refl

pub decode_char-char_at : (i : ℕ) → i < 64 → decode_char (char_at i) ≡ some i
decode_char-char_at i h = agree-lt 64 i agree_64 h

-- The accumulator behind one more character.
abbrev pub next : ℕ → ℕ → ℕ
next accumulator i = (accumulator * 2 ^ 6 + i) % 2 ^ 32

module _ (i : ℕ) (value : Bytes) (accumulator : ℕ) (h : i < 64) where
  pub first_char :
      decode_chars (char_at i ∷ value) accumulator 0 ≡ decode_chars value (next accumulator i) 6
  unfolding decode_chars
  first_char = rw (decode_char-char_at i h)

  pub second_char :
      decode_chars (char_at i ∷ value) accumulator 6
      ≡ push_byte (next accumulator i / 2 ^ 4 % 2 ^ 8) (decode_chars value (next accumulator i) 4)
  unfolding decode_chars
  second_char = rw (decode_char-char_at i h)

  pub third_char :
      decode_chars (char_at i ∷ value) accumulator 4
      ≡ push_byte (next accumulator i / 2 ^ 2 % 2 ^ 8) (decode_chars value (next accumulator i) 2)
  unfolding decode_chars
  third_char = rw (decode_char-char_at i h)

  pub fourth_char :
      decode_chars (char_at i ∷ value) accumulator 2
      ≡ push_byte (next accumulator i / 2 ^ 0 % 2 ^ 8) (decode_chars value (next accumulator i) 0)
  unfolding decode_chars
  fourth_char = rw (decode_char-char_at i h)

-- The bytes that two neighbouring characters share.
module _ (accumulator i j : ℕ) (h : i < 64) (k : j < 64) where
  pub first_byte : next (next accumulator i) j / 2 ^ 4 % 2 ^ 8 ≡ i * 4 + j / 16
  first_byte = omega (arith, h, k)

  pub second_byte : next (next accumulator i) j / 2 ^ 2 % 2 ^ 8 ≡ i % 16 * 16 + j / 4
  second_byte = omega (arith, h, k)

  pub third_byte : next (next accumulator i) j / 2 ^ 0 % 2 ^ 8 ≡ i % 4 * 64 + j
  third_byte = omega (arith, h, k)

module _ (i j : ℕ) (value : Bytes) (accumulator : ℕ) (h : i < 64) (k : j < 64) where
  pub two-chars :
      decode_chars (char_at i ∷ char_at j ∷ value) accumulator 0
      ≡ push_byte (i * 4 + j / 16) (decode_chars value (next (next accumulator i) j) 4)
  two-chars =
      first_char i (char_at j ∷ value) accumulator h
      ∙ second_char j value (next accumulator i) k
      ∙ rw (first_byte accumulator i j h k)

module _ (i j l : ℕ) (value : Bytes) (accumulator : ℕ) (h : i < 64) (k : j < 64) (m : l < 64) where
  pub three-chars :
      decode_chars (char_at i ∷ char_at j ∷ char_at l ∷ value) accumulator 0
      ≡ push_byte (i * 4 + j / 16) (
          push_byte
            (j % 16 * 16 + l / 4)
            (decode_chars value (next (next (next accumulator i) j) l) 2))
  three-chars =
      two-chars i j (char_at l ∷ value) accumulator h k
      ∙ ap (push_byte (i * 4 + j / 16)) (
          third_char l value (next (next accumulator i) j) m
          ∙ rw (second_byte (next accumulator i) j l k m))

pub four-chars :
    (i j l n : ℕ) (value : Bytes) (accumulator : ℕ)
    → i < 64
    → j < 64
    → l < 64
    → n < 64
    → decode_chars (char_at i ∷ char_at j ∷ char_at l ∷ char_at n ∷ value) accumulator 0
      ≡ push_byte (i * 4 + j / 16) (
          push_byte (j % 16 * 16 + l / 4) (
            push_byte
              (l % 4 * 64 + n)
              (decode_chars value (next (next (next (next accumulator i) j) l) n) 0)))
four-chars i j l n value accumulator h k m o =
    three-chars i j l (char_at n ∷ value) accumulator h k m
    ∙ ap (λ (d : Decoding). push_byte (i * 4 + j / 16) (push_byte (j % 16 * 16 + l / 4) d))
        (fourth_char n value (next (next (next accumulator i) j) l) o
          ∙ rw (third_byte (next (next accumulator i) j) l n m o))
