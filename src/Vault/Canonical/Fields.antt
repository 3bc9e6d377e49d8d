-- ===== src/Vault/Canonical/Fields.antt =====
-- Lemmas on the fields of a credential: from what is read to what is written.
use m5authenticator.Prelude.{
  ℕ, ◌^◌, ◌<◌, ◌≡◌, true, Option, none, some, [], ◌∷◌, ◌++◌, arith, ltb, if◌then◌else◌, length,
  Bytes, bind-eq-some, take-append-drop, length-take_of_le, IsBytes, IsBytes-split,
}
use m5authenticator.Vault.Utf8.{is_valid_utf8}
use m5authenticator.Vault.Decode.{read_bytes, read_u16, read_u8, read_sized_bytes, read_sized_text}
use m5authenticator.Vault.Encode.{
  append_u16, append_sized_bytes, append_sized_text, max_field_bytes,
}

pub read_bytes_of :
    (n : ℕ) (input : Bytes) {xs rest : Bytes}
    → read_bytes n input ≡ some (xs, rest)
    → (input ≡ xs ++ rest) × (length xs ≡ n)
unfolding read_bytes
read_bytes_of n input e =
    (ground (arith, take-append-drop n input), ground (arith, length-take_of_le n input))

pub read_u16_of :
    (input : Bytes) {n : ℕ} {rest : Bytes}
    → IsBytes input
    → read_u16 input ≡ some (n, rest)
    → (input ≡ append_u16 n ++ rest) × (n < 2 ^ 16) × IsBytes rest
unfolding read_u16
read_u16_of (x ∷ y ∷ input) h e = (ground arith, ground arith, ground arith)
read_u16_of [] h e = absurd (ground arith)
read_u16_of (x ∷ []) h e = absurd (ground arith)

pub read_u8_of :
    (input : Bytes) {n : ℕ} {rest : Bytes}
    → IsBytes input
    → read_u8 input ≡ some (n, rest)
    → (input ≡ n ∷ rest) × (n < 256) × IsBytes rest
unfolding read_u8
read_u8_of [] h e = absurd (ground arith)
read_u8_of (x ∷ input) h e = (ground arith, ground arith, ground arith)

-- A sized field: what the writer makes of the value, in front of the rest.
pub record Sized (write : Bytes → Option Bytes) (input value rest : Bytes) : Type 0 where
  pub written : write value ≡ some (append_u16 (length value) ++ value)
  pub splits : input ≡ append_u16 (length value) ++ (value ++ rest)
  pub rest_fits : IsBytes rest

abbrev pub Behind : ℕ → Bytes → Bytes → Bytes → Bytes → Type 0
Behind n input behind value rest =
    (input ≡ append_u16 n ++ behind)
    × (n < 2 ^ 16)
    × (behind ≡ value ++ rest)
    × (length value ≡ n)
    × IsBytes value
    × IsBytes rest

pub split_sized :
    (n : ℕ) (input behind value rest : Bytes)
    → IsBytes input
    → read_u16 input ≡ some (n, behind)
    → read_bytes n behind ≡ some (value, rest)
    → Behind n input behind value rest
split_sized n input behind value rest h e f =
    let (a, b, c) = read_u16_of input h e in
    let (d, l) = read_bytes_of n behind f in
    let (v, r) = IsBytes-split value rest (rw d at c) in (a, b, d, l, v, r)

pub splits_sized :
    (n : ℕ) (input behind value rest : Bytes)
    → Behind n input behind value rest
    → input ≡ append_u16 (length value) ++ (value ++ rest)
splits_sized n input behind value rest b = rw (b.0, b.2, b.3)

pub Sized-bytes :
    (maximum n : ℕ) (input behind value rest : Bytes)
    → IsBytes input
    → read_u16 input ≡ some (n, behind)
    → (if ltb maximum n then none else read_bytes n behind) ≡ some (value, rest)
    → Sized (λ v. append_sized_bytes v maximum) input value rest
unfolding append_sized_bytes
Sized-bytes maximum n input behind value rest h e f =
    let b = split_sized n input behind value rest h e (ground arith) in
    record {
      written = ground (arith, b.1, b.3);
      splits = splits_sized n input behind value rest b;
      rest_fits = b.5;
    }

pub read_sized_bytes_of :
    (maximum : ℕ) (input : Bytes) {value rest : Bytes}
    → IsBytes input
    → read_sized_bytes maximum input ≡ some (value, rest)
    → Sized (λ v. append_sized_bytes v maximum) input value rest
unfolding read_sized_bytes
read_sized_bytes_of maximum input {value} {rest} h e =
    let ((n, behind), n_eq, f) = bind-eq-some (read_u16 input) _ e in
    Sized-bytes maximum n input behind value rest h n_eq f

pub Sized-text :
    (n : ℕ) (input behind value rest : Bytes)
    → IsBytes input
    → read_u16 input ≡ some (n, behind)
    → (if ltb max_field_bytes n then none else read_bytes n behind) ≡ some (value, rest)
    → is_valid_utf8 value ≡ true
    → Sized append_sized_text input value rest
unfolding append_sized_text
Sized-text n input behind value rest h e f u =
    let b = split_sized n input behind value rest h e (ground arith) in
    record {
      written = ground (arith, b.1, b.3);
      splits = splits_sized n input behind value rest b;
      rest_fits = b.5;
    }

pub checked_text :
    (v value r rest : Bytes)
    → if◌then◌else◌ {A = Option (Bytes × Bytes)} (is_valid_utf8 v) (some (v, r)) none
      ≡ some (value, rest)
    → (is_valid_utf8 value ≡ true) × (v ≡ value) × (r ≡ rest)
checked_text v value r rest e = (ground arith, ground arith, ground arith)

pub text_of :
    (n : ℕ) (input behind v r value rest : Bytes)
    → IsBytes input
    → read_u16 input ≡ some (n, behind)
    → (if ltb max_field_bytes n then none else read_bytes n behind) ≡ some (v, r)
    → if◌then◌else◌ {A = Option (Bytes × Bytes)} (is_valid_utf8 v) (some (v, r)) none
      ≡ some (value, rest)
    → Sized append_sized_text input value rest
text_of n input behind v r value rest h e f g =
    let (u, same_v, same_r) = checked_text v value r rest g in
    Sized-text n input behind value rest h e (rw (same_v, same_r) at f) u

pub read_sized_text_of :
    (input : Bytes) {value rest : Bytes}
    → IsBytes input
    → read_sized_text input ≡ some (value, rest)
    → Sized append_sized_text input value rest
unfolding read_sized_text
read_sized_text_of input {value} {rest} h e =
    let ((n, behind), n_eq, f) = bind-eq-some (read_u16 input) _ e in
    let ((v, r), v_eq, g) =
      bind-eq-some (if ltb max_field_bytes n then none else read_bytes n behind) _ f in
    text_of n input behind v r value rest h n_eq v_eq g
