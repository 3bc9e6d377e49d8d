-- ===== src/Totp/Truncation.antt =====
-- The code against RFC 4226 and RFC 6238: counter, dynamic truncation and range.
use m5authenticator.Prelude.{
  ℕ, zero, suc, ◌+◌, ◌*◌, ◌/◌, ◌%◌, ◌^◌, ◌<◌, ◌≡◌, refl, ap, ◌∙◌, ◌≢◌, ◌↔◌, ◌⊎◌, inl, inr, none,
  some, [], ◌∷◌, arith, Option-cases, Bool-cases, length, Bytes, bytes_eq, bytes_eq_iff,
  if◌then◌else◌, of_digits_injective, ◌≤◌,
}
use m5authenticator.Prelude.{get_or, take, drop, of_digits, IsBytes}
use native.Mathlib.Numerals.{towards_suc}
use m5authenticator.Totp.{
  ok, crypto_error, HmacSha1Provider, message, truncate, generate_key_with_provider, period_seconds,
  modulo,
}

-- The message is the counter in eight bytes, the most significant first: read as a number it is
-- the counter again, for every 64-bit counter.
message_value : (counter : ℕ) → counter < 2 ^ 64 → of_digits 256 0 (message counter) ≡ counter
unfolding message of_digits
message_value counter h = omega arith

message_shape : (counter : ℕ) → (length (message counter) ≡ 8) × IsBytes (message counter)
unfolding message
message_shape counter = (refl, omega arith)

generate_key_at :
    (key : Bytes) (unix_seconds : ℕ) (p q : HmacSha1Provider)
    → p key (message (unix_seconds / period_seconds))
      ≡ q key (message (unix_seconds / period_seconds))
    → generate_key_with_provider key unix_seconds p ≡ generate_key_with_provider key unix_seconds q
unfolding generate_key_with_provider
generate_key_at [] unix_seconds p q e = refl
generate_key_at (k ∷ key) unix_seconds p q e = rw e

-- A provider that fails on this one message only tells it from all others.
refusing : Bytes → HmacSha1Provider
refusing m key text = if bytes_eq text m then none else some []

refusing_same : (m key : Bytes) → refusing m key m ≡ none
unfolding refusing
refusing_same m key = rw ((bytes_eq_iff m m).1 refl)

refusing_other : (m key text : Bytes) → text ≢ m → refusing m key text ≡ some []
unfolding refusing
refusing_other m key text ne = elim (Bool-cases (bytes_eq text m)) [
  | inl e ↦ absurd (ne ((bytes_eq_iff text m).0 e))
  | inr e ↦ rw e
]

-- Of two providers that differ at the message of the time step only, one fails.
message_needed :
    (key m : Bytes) (unix_seconds : ℕ)
    → key ≢ []
    → ((p q : HmacSha1Provider)
        → p key m ≡ q key m
        → generate_key_with_provider key unix_seconds p
          ≡ generate_key_with_provider key unix_seconds q)
    → m ≡ message (unix_seconds / period_seconds)
unfolding generate_key_with_provider truncate
message_needed [] m unix_seconds ne same = absurd (ne refl)
message_needed (k ∷ key) m unix_seconds ne same =
    let asked = message (unix_seconds / period_seconds) in
    elim (Bool-cases (bytes_eq m asked)) [
      | inl e ↦ (bytes_eq_iff m asked).0 e
      | inr e ↦
          let differs : m ≢ asked = λ h. cc ((bytes_eq_iff m asked).1 h, e) in
          let equal =
            same (refusing asked) (λ key text. some [])
              (refusing_other asked (k ∷ key) m differs) in
          absurd (ground (arith, equal, refusing_same asked (k ∷ key)))
    ]

-- For a key that is not empty, a 64-bit time and eight bytes m: the code depends on the HMAC at the
-- message m alone, whatever the HMAC is elsewhere, exactly when m, read as a number with the most
-- significant byte first, counts the full periods of 30 seconds up to the time.
pub generate_key-counter :
    (key m : Bytes) (unix_seconds : ℕ)
    → key ≢ []
    → unix_seconds < 2 ^ 64
    → length m ≡ 8
    → IsBytes m
    → ((p q : HmacSha1Provider)
        → p key m ≡ q key m
        → generate_key_with_provider key unix_seconds p
          ≡ generate_key_with_provider key unix_seconds q)
      ↔ ((of_digits 256 0 m * 30 ≤ unix_seconds) × (unix_seconds < of_digits 256 0 m * 30 + 30))
generate_key-counter key m unix_seconds ne h l bytes =
    let counter = unix_seconds / period_seconds in
    let value = message_value counter (omega arith) in
    let (eight, fit) = message_shape counter in
    (
      λ same.
          let e = ap (of_digits 256 0) (message_needed key m unix_seconds ne same) ∙ value in
          (omega (arith, e), omega (arith, e)),
      λ (low, high).
          let e : of_digits 256 0 m ≡ of_digits 256 0 (message counter) = omega (arith, value) in
          let same =
            (of_digits_injective m (message counter) 0 0 bytes fit (omega (arith, l, eight)) e).1 in
          λ p q agree. generate_key_at key unix_seconds p q (rw same at agree),
    )

of_digits_four :
    (a b c d : ℕ) → of_digits 256 0 (a ∷ b ∷ c ∷ d ∷ []) ≡ a * 2 ^ 24 + b * 2 ^ 16 + c * 2 ^ 8 + d
unfolding of_digits
of_digits_four a b c d = omega arith

-- RFC 4226, section 5.3: four bytes at the offset, as a number of 31 bits.
abbrev pub dynamic_truncation : Bytes → ℕ
dynamic_truncation digest =
    of_digits 256 0 (take 4 (drop (get_or digest 19 0 % 16) digest)) % 2 ^ 31

four_at :
    (xs : Bytes) (i : ℕ)
    → i + 3 < length xs
    → take 4 (drop i xs)
      ≡ get_or xs i 0
        ∷ get_or xs (suc i) 0
        ∷ get_or xs (suc (suc i)) 0
        ∷ get_or xs (suc (suc (suc i))) 0
        ∷ []
four_at [] i h = absurd (omega arith)
four_at (a ∷ b ∷ c ∷ d ∷ xs) zero h = refl
four_at (x ∷ xs) (suc i) h = four_at xs i (omega arith)
four_at (a ∷ []) zero h = absurd (omega arith)
four_at (a ∷ b ∷ []) zero h = absurd (omega arith)
four_at (a ∷ b ∷ c ∷ []) zero h = absurd (omega arith)

get_or-lt : (xs : Bytes) (i : ℕ) → IsBytes xs → get_or xs i 0 < 256
get_or-lt [] i h = omega arith
get_or-lt (x ∷ xs) zero h = h.0
get_or-lt (x ∷ xs) (suc i) h = get_or-lt xs i h.1

-- A 31-bit field in front of three bytes is the number of the four bytes without its top bit.
drop_top_bit :
    (a b c d : ℕ)
    → b < 256
    → c < 256
    → d < 256
    → a % 2 ^ 7 * 2 ^ 24 + b * 2 ^ 16 + c * 2 ^ 8 + d
      ≡ (a * 2 ^ 24 + b * 2 ^ 16 + c * 2 ^ 8 + d) % 2 ^ 31
drop_top_bit a b c d hb hc hd = omega arith

truncate_bytes :
    (digest : Bytes)
    → let i = get_or digest 19 0 % 16 in
      truncate digest
      ≡ ok (
          (get_or digest i 0 % 2 ^ 7 * 2 ^ 24
            + get_or digest (suc i) 0 * 2 ^ 16
            + get_or digest (suc (suc i)) 0 * 2 ^ 8
            + get_or digest (suc (suc (suc i))) 0)
          % modulo)
unfolding truncate
truncate_bytes digest = simp towards_suc (ground arith)

pub truncate-dynamic_truncation :
    (digest : Bytes)
    → length digest ≡ 20
    → IsBytes digest
    → truncate digest ≡ ok (dynamic_truncation digest % modulo)
truncate-dynamic_truncation digest l h =
    let i = get_or digest 19 0 % 16 in
    let low : (k : ℕ) → get_or digest k 0 < 256 = λ k. get_or-lt digest k h in
    rw (four_at digest i (omega (arith, l)), of_digits_four)
      (truncate_bytes digest
        ∙ ap (λ (n : ℕ). ok (n % modulo))
            (drop_top_bit (get_or digest i 0) _ _ _ (low (suc i)) (low (suc (suc i)))
              (low (suc (suc (suc i))))))

module _ (provider : HmacSha1Provider) where
  -- A digest has 20 bytes.
  abbrev pub GivesDigests : Type 0
  GivesDigests =
      (key text digest : Bytes)
      → provider key text ≡ some digest
      → (length digest ≡ 20) × IsBytes digest

  -- With an HMAC that gives 20 bytes the code of a key that is not empty is the RFC's: the dynamic
  -- truncation, modulo one million, of the HMAC of the key and the counter of the time step. There is an
  -- error exactly where the HMAC fails; the check of the offset refuses nothing.
  pub generate_key-dynamic_truncation :
      (key : Bytes) (unix_seconds : ℕ)
      → GivesDigests
      → key ≢ []
      → ((provider key (message (unix_seconds / period_seconds)) ≡ none)
          × (generate_key_with_provider key unix_seconds provider ≡ crypto_error))
        ⊎ ((digest : Bytes) × (provider key (message (unix_seconds / period_seconds)) ≡ some digest)
            × (generate_key_with_provider key unix_seconds provider
                ≡ ok (dynamic_truncation digest % modulo)))
  unfolding generate_key_with_provider
  generate_key-dynamic_truncation [] unix_seconds g ne = absurd (ne refl)
  generate_key-dynamic_truncation (k ∷ key) unix_seconds g ne =
      elim (Option-cases (provider (k ∷ key) (message (unix_seconds / period_seconds)))) [
        | inl e ↦ inl (e, ground arith)
        | inr (digest, e) ↦
            let (l, h) = g (k ∷ key) (message (unix_seconds / period_seconds)) digest e in
            inr (digest, e, ground (arith, truncate-dynamic_truncation digest l h))
      ]

  -- Every code has at most six digits.
  generate_key-lt-modulo :
      (key : Bytes) (unix_seconds : ℕ) {code : ℕ}
      → generate_key_with_provider key unix_seconds provider ≡ ok code
      → code < modulo
  unfolding generate_key_with_provider truncate
  generate_key-lt-modulo key unix_seconds e = ground arith
