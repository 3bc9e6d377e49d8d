-- ===== src/Totp/Base32/Decode.antt =====
-- What `decode_base32` accepts, and what it gives.
use m5authenticator.Totp.Base32.{
  Decoder, start, push_value, decode_char, decode_chars, finish_decode, decode_base32, base32_value,
}
use m5authenticator.Prelude.{
  ℕ, zero, suc, ◌+◌, ◌*◌, ◌%◌, ◌^◌, ◌<◌, ◌≡◌, refl, sym, ap, ◌∙◌, ◌≢◌, ◌↔◌, inl, inr, true, false,
  some, List, [], ◌∷◌, arith, ◌==◌, Bool-cases, Option-cases, length, Bytes, ==_iff,
}
use m5authenticator.Prelude.{of_digits, of_digits_injective}
use m5authenticator.Totp.Base32.Alphabet.{base32_value_iff}
use m5authenticator.Totp.Base32.Value.{
  Inv, start-Inv, push_value-Inv, Padding, Reads, end, value, Packs, base32_value-lt,
  base32_value_padding,
}

-- Behind the first `=` there are only more of them, and nothing else changes.
Padding-only :
    (encoded : Bytes) (d d' : Decoder)
    → d.padding_started ≡ true
    → decode_chars encoded d ≡ some d'
    → Padding encoded × (d' ≡ d)
unfolding decode_chars decode_char
Padding-only [] d d' p e = (tt, ground arith)
Padding-only (ch ∷ encoded) d d' p e = elim (Bool-cases (ch == b'=')) [
  | inl q ↦
      let rest =
        Padding-only encoded (record d { padding_started = true }) d' refl (ground arith) in
      (((==_iff ch b'=').0 q, rest.0), ground arith)
  | inr q ↦ absurd (ground arith)
]

decode_char_value :
    (ch v : ℕ) (d : Decoder)
    → d.padding_started ≡ false
    → base32_value ch ≡ some v
    → decode_char ch d ≡ some (push_value v d)
unfolding decode_char
decode_char_value ch v d p e = ground (arith, base32_value_padding)

decode_chars-Padding :
    (encoded : Bytes) (d : Decoder)
    → Padding encoded
    → (d' : Decoder) × (decode_chars encoded d ≡ some d')
      × (d'.decoded ≡ d.decoded)
      × (d'.bits ≡ d.bits)
      × (d'.accumulator ≡ d.accumulator)
unfolding decode_chars decode_char
decode_chars-Padding [] d p = (d, refl, refl, refl, refl)
decode_chars-Padding (ch ∷ encoded) d p =
    let (d', e, f, g, h) = decode_chars-Padding encoded (record d { padding_started = true }) p.1 in
    (d', ground arith, f, g, h)

push_value_padding : (v : ℕ) (d : Decoder) → (push_value v d).padding_started ≡ d.padding_started
unfolding push_value
push_value_padding v d = ground arith

Inv-padded :
    (n count : ℕ) (d d' : Decoder)
    → d'.decoded ≡ d.decoded
    → d'.bits ≡ d.bits
    → d'.accumulator ≡ d.accumulator
    → Inv n count d
    → Inv n count d'
Inv-padded n count d d' e f g i = record {
  small = rw f i.small;
  fits = rw g i.fits;
  total = rw (e, f, g) i.total;
  counted = rw (e, f) i.counted;
  bytes = rw e i.bytes;
}

Inv-count : (n c c' : ℕ) (d : Decoder) → c ≡ c' → Inv n c d → Inv n c' d
Inv-count n c c' d e i = rw (← e) i

decode_chars-Reads :
    (encoded : Bytes) (d d' : Decoder) (n count : ℕ)
    → d.padding_started ≡ false
    → Inv n count d
    → decode_chars encoded d ≡ some d'
    → (vs : List ℕ) × Reads encoded vs × Inv (of_digits 32 n vs) (count + length vs) d'
unfolding decode_chars of_digits
decode_chars-Reads [] d d' n count p i e =
    let same : d' ≡ d = cc in
    ([], end [] tt, rw same (Inv-count n count (count + 0) d (omega arith) i))
decode_chars-Reads (ch ∷ encoded) d d' n count p i e = elim (Bool-cases (ch == b'=')) [
  | inl q ↦
      let (rest, same) =
        Padding-only encoded (record d { padding_started = true }) d' refl
          (unfold decode_char in ground arith) in
      (
        [],
        end (ch ∷ encoded) ((==_iff ch b'=').0 q, rest),
        Inv-count n count (count + 0) d' (omega arith)
            (Inv-padded n count d d' (ground arith) (ground arith) (ground arith) i),
      )
  | inr q ↦ elim (Option-cases (base32_value ch)) [
    | inl f ↦ absurd (unfold decode_char in ground arith)
    | inr (v, f) ↦
        let (vs, r, j) =
          decode_chars-Reads encoded (push_value v d) d' (n * 32 + v) (suc count)
            (push_value_padding v d ∙ p) (push_value-Inv n count v d (base32_value-lt ch f) i)
            (ground (arith, decode_char_value ch v d p f)) in
        (
          v ∷ vs,
          value ch v ((base32_value_iff ch v).0 f) r,
          Inv-count _ (suc count + length vs) (count + suc (length vs)) d' (omega arith) j,
        )
  ]
]

decode_chars_complete :
    {encoded : Bytes} {vs : List ℕ} (d : Decoder) (n count : ℕ)
    → Reads encoded vs
    → d.padding_started ≡ false
    → Inv n count d
    → (d' : Decoder) × (decode_chars encoded d ≡ some d')
      × Inv (of_digits 32 n vs) (count + length vs) d'
unfolding decode_chars of_digits
decode_chars_complete d n count (end padding h) p i =
    let (d', e, f, g, k) = decode_chars-Padding padding d h in
    (d', e, Inv-count n count (count + 0) d' (omega arith) (Inv-padded n count d d' f g k i))
decode_chars_complete d n count (value ch v {encoded} {vs} place r) p i =
    let e = (base32_value_iff ch v).1 place in
    let (d', f, j) =
      decode_chars_complete (push_value v d) (n * 32 + v) (suc count) r (push_value_padding v d ∙ p)
        (push_value-Inv n count v d place.0 i) in
    (
      d',
      ground (arith, decode_char_value ch v d p e),
      Inv-count _ (suc count + length vs) (count + suc (length vs)) d' (omega arith) j,
    )

-- A number and a remainder below the divisor, at each divisor that occurs.
same_quotient :
    (b x y r : ℕ) → b < 8 → x * 2 ^ b + r % 2 ^ b ≡ y * 2 ^ b → (x ≡ y) × (r % 2 ^ b ≡ 0)
same_quotient zero x y r h e = omega arith
same_quotient (suc zero) x y r h e = omega arith
same_quotient (suc (suc zero)) x y r h e = omega arith
same_quotient (suc (suc (suc zero))) x y r h e = omega arith
same_quotient (suc (suc (suc (suc zero)))) x y r h e = omega arith
same_quotient (suc (suc (suc (suc (suc zero))))) x y r h e = omega arith
same_quotient (suc (suc (suc (suc (suc (suc zero)))))) x y r h e = omega arith
same_quotient (suc (suc (suc (suc (suc (suc (suc zero))))))) x y r h e = omega arith
same_quotient (suc (suc (suc (suc (suc (suc (suc (suc b)))))))) x y r h e = absurd (omega arith)

mod_no_bits : (a b : ℕ) → b ≡ 0 → a % 2 ^ b ≡ 0
mod_no_bits a zero e = omega arith
mod_no_bits a (suc b) e = absurd (omega arith)

finish_decode_iff :
    (d : Decoder) (bytes : Bytes)
    → (finish_decode d ≡ some bytes)
      ↔ ((bytes ≢ []) × (d.decoded ≡ bytes) × (d.accumulator % 2 ^ d.bits ≡ 0))
unfolding finish_decode
finish_decode_iff d bytes = (
  λ e. (λ z. ground arith, ground arith, ground (arith, mod_no_bits d.accumulator d.bits)),
  nonempty bytes,
)
  where
    nonempty :
        (bytes : Bytes)
        → (bytes ≢ []) × (d.decoded ≡ bytes) × (d.accumulator % 2 ^ d.bits ≡ 0)
        → finish_decode d ≡ some bytes
    nonempty [] e = absurd (e.0 refl)
    nonempty (x ∷ bytes) e = rw (e.1, finish_decode) (ground arith)

decode_base32_sound :
    (encoded bytes : Bytes)
    → decode_base32 encoded ≡ some bytes
    → (bytes ≢ []) × ((vs : List ℕ) × Reads encoded vs × Packs vs bytes)
unfolding decode_base32
decode_base32_sound encoded bytes e = elim (Option-cases (decode_chars encoded start)) [
  | inl f ↦ absurd (ground arith)
  | inr (d, f) ↦
      let (ne, same, zeros) = (finish_decode_iff d bytes).0 (ground arith) in
      let (vs, r, i) = decode_chars-Reads encoded start d 0 0 refl start-Inv f in
      (
        ne,
        (
          vs,
          r,
          record {
            rest = d.bits;
            short = i.small;
            counted = rw (← same) (omega (arith, i.counted));
            total = rw (← same) (omega (arith, i.total, zeros));
            bytes_fit = rw (← same) i.bytes;
          },
        ),
      )
]

decode_base32_complete :
    (encoded bytes : Bytes) (vs : List ℕ)
    → bytes ≢ []
    → Reads encoded vs
    → Packs vs bytes
    → decode_base32 encoded ≡ some bytes
unfolding decode_base32
decode_base32_complete encoded bytes vs ne r k =
    let (d, e, i) = decode_chars_complete start 0 0 r refl start-Inv in
    let same_bits : d.bits ≡ k.rest = omega (arith, i.counted, i.small) in
    let value : of_digits 256 0 bytes * 2 ^ d.bits ≡ of_digits 32 0 vs =
      ap (λ (t : ℕ). of_digits 256 0 bytes * 2 ^ t) same_bits ∙ k.total in
    let (same_number, zeros) =
      same_quotient d.bits (of_digits 256 0 d.decoded) (of_digits 256 0 bytes) d.accumulator i.small
        (i.total ∙ sym value) in
    let (_, same) =
      of_digits_injective d.decoded bytes 0 0 i.bytes k.bytes_fit (omega (arith, i.counted))
        same_number in
    nonempty encoded e ((finish_decode_iff d bytes).1 (ne, same, zeros))
  where
    nonempty :
        {d : Decoder} (encoded : Bytes)
        → decode_chars encoded start ≡ some d
        → finish_decode d ≡ some bytes
        → decode_base32 encoded ≡ some bytes
    nonempty [] e f = unfold decode_chars finish_decode in ground arith
    nonempty (ch ∷ encoded) e f = ground arith

-- `decode_base32` gives `bytes` exactly when the text is characters of the alphabet of RFC 4648, in
-- upper or in lower case, followed by nothing but `=`, and `bytes` is not empty and holds the bits of
-- their places in the alphabet, five for each, less fewer than eight bits at the end, which are zero.
-- So the 32-bit accumulator loses nothing that is needed.
pub decode_base32-Reads :
    (encoded bytes : Bytes)
    → (decode_base32 encoded ≡ some bytes)
      ↔ ((bytes ≢ []) × ((vs : List ℕ) × Reads encoded vs × Packs vs bytes))
decode_base32-Reads encoded bytes = (
  decode_base32_sound encoded bytes,
  λ h. decode_base32_complete encoded bytes h.1.0 h.0 h.1.1 h.1.2,
)
