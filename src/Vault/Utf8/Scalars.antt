-- ===== src/Vault/Utf8/Scalars.antt =====
-- UTF-8 as Unicode defines it: the scalar values, and the bytes of each.
use m5authenticator.Prelude.{
  ℕ, zero, suc, ◌+◌, ◌-◌, ◌*◌, ◌/◌, ◌%◌, ◌≤◌, ◌<◌, ◌≡◌, refl, ◌∙◌, ◌↔◌, ◌⊎◌, inl, inr, true, some,
  [], ◌∷◌, arith, ltb, if◌then◌else◌, Bool-cases, Option-cases, length, Bytes, IsBytes,
}
use m5authenticator.Vault.Utf8.{within, is_continuation, next_char, valid_from, is_valid_utf8}

-- All code points but the surrogates.
abbrev pub IsScalar : ℕ → Type 0
IsScalar c = (c < 0x110000) × ((c < 0xd800) ⊎ (0xe000 ≤ c))

-- What follows the bytes of one scalar value.
pub encode_onto : ℕ → Bytes → Bytes
encode_onto c rest =
    if ltb c 0x80
    then c ∷ rest
    else if ltb c 0x800
    then (0xc0 + c / 64) ∷ (0x80 + c % 64) ∷ rest
    else if ltb c 0x10000
    then (0xe0 + c / 4096) ∷ (0x80 + c / 64 % 64) ∷ (0x80 + c % 64) ∷ rest
    else (0xf0 + c / 262144)
      ∷ (0x80 + c / 4096 % 64)
      ∷ (0x80 + c / 64 % 64)
      ∷ (0x80 + c % 64)
      ∷ rest

pub data Utf8 : Bytes → Type 0 where
  end : Utf8 []
  char : (c : ℕ) {rest : Bytes} → IsScalar c → Utf8 rest → Utf8 (encode_onto c rest)

abbrev Next : Bytes → Bytes → Type 0
Next [] left = ⊥
Next (first ∷ rest) left = next_char first rest ≡ some left

encode_onto-Next : (c : ℕ) (left : Bytes) → IsScalar c → Next (encode_onto c left) left
unfolding encode_onto next_char within is_continuation
encode_onto-Next c left s = elim (Bool-cases (ltb c 0x80)) [
  | inl a ↦ rw a (ground arith)
  | inr a ↦ rw a (elim (Bool-cases (ltb c 0x800)) [
    | inl b ↦ rw b (ground arith)
    | inr b ↦ rw b (elim (Bool-cases (ltb c 0x10000)) [
      | inl d ↦ rw d (ground arith)
      | inr d ↦ rw d (ground arith)
    ])
  ])
]

-- What one round of the loop reads is the bytes of a scalar value.
abbrev Reads : ℕ → Bytes → Bytes → Type 0
Reads first rest left = (c : ℕ) × IsScalar c × (encode_onto c left ≡ first ∷ rest)

Reads-one :
    (first : ℕ) (rest left : Bytes)
    → first ≤ 0x7f
    → next_char first rest ≡ some left
    → Reads first rest left
unfolding encode_onto next_char within is_continuation
Reads-one first rest left h e = (first, (omega arith, inl (omega arith)), ground arith)

Reads-two :
    (first : ℕ) (rest left : Bytes)
    → within 0xc2 0xdf first ≡ true
    → IsBytes rest
    → next_char first rest ≡ some left
    → Reads first rest left
unfolding encode_onto next_char within is_continuation
Reads-two first [] left h k e = absurd (ground arith)
Reads-two first (a ∷ rest) left h k e =
    ((first - 0xc0) * 64 + (a - 0x80), (ground arith, inl (ground arith)), ground arith)

Reads-three :
    (first : ℕ) (rest left : Bytes)
    → within 0xe0 0xef first ≡ true
    → IsBytes rest
    → next_char first rest ≡ some left
    → Reads first rest left
unfolding encode_onto next_char within is_continuation
Reads-three first (a ∷ b ∷ rest) left h k e = (
  (first - 0xe0) * 4096 + (a - 0x80) * 64 + (b - 0x80),
  (ground arith, ground arith),
  ground arith,
)
Reads-three first _ left h k e = absurd (ground arith)

Reads-four :
    (first : ℕ) (rest left : Bytes)
    → within 0xf0 0xf4 first ≡ true
    → IsBytes rest
    → next_char first rest ≡ some left
    → Reads first rest left
unfolding encode_onto next_char within is_continuation
Reads-four first (a ∷ b ∷ d ∷ rest) left h k e = (
  (first - 0xf0) * 262144 + (a - 0x80) * 4096 + (b - 0x80) * 64 + (d - 0x80),
  (ground arith, ground arith),
  ground arith,
)
Reads-four first _ left h k e = absurd (ground arith)

next_char-suffix :
    (first : ℕ) (rest left : Bytes)
    → next_char first rest ≡ some left
    → (length left ≤ length rest) × (IsBytes rest → IsBytes left)
unfolding next_char
next_char-suffix first [] left e = (ground arith, λ h. ground arith)
next_char-suffix first (a ∷ []) left e = (ground arith, λ h. ground arith)
next_char-suffix first (a ∷ b ∷ []) left e = (ground arith, λ h. ground arith)
next_char-suffix first (a ∷ b ∷ c ∷ rest) left e = (ground arith, λ h. ground arith)

next_char_ranges :
    (first : ℕ) (rest left : Bytes)
    → next_char first rest ≡ some left
    → (first ≤ 0x7f)
      ⊎ (within 0xc2 0xdf first ≡ true)
      ⊎ (within 0xe0 0xef first ≡ true)
      ⊎ (within 0xf0 0xf4 first ≡ true)
unfolding next_char
next_char_ranges first rest left e = ground arith

next_char-Reads :
    (first : ℕ) (rest left : Bytes)
    → IsBytes rest
    → next_char first rest ≡ some left
    → Reads first rest left
next_char-Reads first rest left h e = elim (next_char_ranges first rest left e) [
  | inl a ↦ Reads-one first rest left a e
  | inr (inl a) ↦ Reads-two first rest left a h e
  | inr (inr (inl a)) ↦ Reads-three first rest left a h e
  | inr (inr (inr a)) ↦ Reads-four first rest left a h e
]

valid_from-Utf8 : (fuel : ℕ) (text : Bytes) → IsBytes text → valid_from fuel text ≡ true → Utf8 text
unfolding valid_from
valid_from-Utf8 fuel [] h e = end
valid_from-Utf8 zero (first ∷ rest) h e = cc
valid_from-Utf8 (suc fuel) (first ∷ rest) h e = elim (Option-cases (next_char first rest)) [
  | inl f ↦ absurd (ground arith)
  | inr (left, f) ↦
      let (c, s, q) = next_char-Reads first rest left h.1 f in
      let fits : IsBytes left = (next_char-suffix first rest left f).1 h.1 in
      rw (← q) (char c s (valid_from-Utf8 fuel left fits (ground arith)))
]

valid_step :
    (fuel : ℕ) (text left : Bytes)
    → Next text left
    → length text ≤ suc fuel
    → (length left ≤ fuel) × (valid_from (suc fuel) text ≡ valid_from fuel left)
unfolding valid_from
valid_step fuel [] left n h = absurd n
valid_step fuel (first ∷ rest) left n h =
    (omega (arith, (next_char-suffix first rest left n).0), ground arith)

Next-length : (text left : Bytes) → Next text left → 0 < length text
Next-length [] left n = absurd n
Next-length (first ∷ rest) left n = omega arith

Utf8-valid_from :
    {text : Bytes} (fuel : ℕ) → Utf8 text → length text ≤ fuel → valid_from fuel text ≡ true
unfolding valid_from
Utf8-valid_from fuel end h = refl
Utf8-valid_from zero (char c {rest} s u) h =
    absurd (omega (arith, Next-length (encode_onto c rest) rest (encode_onto-Next c rest s)))
Utf8-valid_from (suc fuel) (char c {rest} s u) h =
    let (fits, step) = valid_step fuel (encode_onto c rest) rest (encode_onto-Next c rest s) h in
    step ∙ Utf8-valid_from fuel u fits

-- The check accepts exactly the byte strings that Unicode calls UTF-8: the encodings of sequences
-- of scalar values, so no overlong form, no surrogate, nothing above 0x10ffff and nothing cut
-- short. The fuel of the loop, the length of the text, is enough for each.
pub is_valid_utf8-Utf8 : (text : Bytes) → IsBytes text → (is_valid_utf8 text ≡ true) ↔ Utf8 text
unfolding is_valid_utf8
is_valid_utf8-Utf8 text h =
    (valid_from-Utf8 (length text) text h, λ u. Utf8-valid_from (length text) u (omega arith))
