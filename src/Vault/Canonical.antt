-- ===== src/Vault/Canonical.antt =====
-- What the reader accepts is what the writer would have written: each lemma gives back the bytes
-- of one piece.
pub mod Fields
use m5authenticator.Prelude.{
  ℕ, ◌^◌, ◌<◌, ◌≡◌, true, false, not, Option, none, some, List, [], ◌∷◌, ◌++◌, arith, ltb, ◌==◌,
  if◌then◌else◌, length, Bytes, ==_iff, bind-eq-some, take-append-drop, length-take_of_le, contains,
  IsBytes, IsBytes-split, bind-elim, guard-true,
}
use mathlib.Core.Path.{subst₂}
use mathlib.Core.List.{append_assoc}
use m5authenticator.Vault.Utf8.{is_valid_utf8}
use m5authenticator.Vault.RoundTrip.Records.{IsRecord}
use m5authenticator.Vault.Decode.{
  read_bytes, read_u16, read_u8, read_sized_bytes, read_sized_text, read_record,
}
use m5authenticator.Vault.Encode.{
  append_u16, append_sized_bytes, append_sized_text, max_field_bytes, encode_record,
  valid_credential, max_secret_bytes,
}
use m5authenticator.Vault.{CredentialRecord, credential_id_bytes, sha1}
use m5authenticator.Vault.Canonical.Fields.{
  read_bytes_of, read_u16_of, read_u8_of, read_sized_bytes_of, read_sized_text_of,
}

-- A record as the writer would put it in front of the rest.
pub record Recorded (ids : List Bytes) (input : Bytes) (r : CredentialRecord) (rest : Bytes)
    : Type 0 where
  pub valid : valid_credential r ≡ true
  pub fresh : contains r.credential_id ids ≡ false
  pub ranges : IsRecord r
  pub written : Bytes
  pub encoded : encode_record r ≡ some written
  pub splits : input ≡ written ++ rest
  pub rest_fits : IsBytes rest

pair-eq {ℓ κ} :
    {A : Type ℓ} {B : Type κ} {a c : A} {b d : B}
    → ◌≡◌ {A = Option (A × B)} (some (a, b)) (some (c, d))
    → (a ≡ c) × (b ≡ d)
pair-eq e = (cc, cc)

abbrev field : Bytes → Bytes
field value = append_u16 (length value) ++ value

-- The same from the results of the single reads.
record_of :
    (ids : List Bytes) (input i1 i2 i3 i4 i5 i6 i7 i8 i9 id secret issuer account name : Bytes)
    (alg digits period order : ℕ) (r : CredentialRecord) (rest : Bytes)
    → IsBytes input
    → read_bytes credential_id_bytes input ≡ some (id, i1)
    → not (contains id ids) ≡ true
    → read_sized_bytes max_secret_bytes i1 ≡ some (secret, i2)
    → read_sized_text i2 ≡ some (issuer, i3)
    → read_sized_text i3 ≡ some (account, i4)
    → read_sized_text i4 ≡ some (name, i5)
    → read_u8 i5 ≡ some (alg, i6)
    → (alg == sha1) ≡ true
    → read_u8 i6 ≡ some (digits, i7)
    → read_u16 i7 ≡ some (period, i8)
    → read_u16 i8 ≡ some (order, i9)
    → let q : CredentialRecord = record {
      credential_id = id;
      secret = secret;
      issuer = issuer;
      account = account;
      display_name = name;
      algorithm = sha1;
      digits = digits;
      period_seconds = period;
      manual_order = order;
    } in
      valid_credential q ≡ true
      → ◌≡◌ {A = Option (CredentialRecord × Bytes)} (some (q, i9)) (some (r, rest))
      → Recorded ids input r rest
unfolding encode_record
record_of ids input i1 i2 i3 i4 i5 i6 i7 i8 i9 id secret issuer account name alg digits period order
      r rest h id_eq fresh secret_eq issuer_eq account_eq name_eq alg_eq is_sha1 digits_eq period_eq
      order_eq valid e =
    let (id_splits, id_size) = read_bytes_of credential_id_bytes input id_eq in
    let fits = (IsBytes-split id i1 (rw id_splits at h)).1 in
    let s = read_sized_bytes_of max_secret_bytes i1 fits secret_eq in
    let i = read_sized_text_of i2 s.rest_fits issuer_eq in
    let a = read_sized_text_of i3 i.rest_fits account_eq in
    let n = read_sized_text_of i4 a.rest_fits name_eq in
    let (alg_splits, _, fits6) = read_u8_of i5 n.rest_fits alg_eq in
    let (digits_splits, digits_fit, fits7) = read_u8_of i6 fits6 digits_eq in
    let (period_splits, period_fits, fits8) = read_u16_of i7 fits7 period_eq in
    let (order_splits, order_fits, fits9) = read_u16_of i8 fits8 order_eq in
    let (same_r, same_rest) = pair-eq e in
    subst₂ (Recorded ids input) same_r same_rest (record {
      valid = valid;
      fresh = ground arith;
      ranges = record {
        id_size = id_size;
        digits_fit = digits_fit;
        period_fits = period_fits;
        order_fits = order_fits;
      };
      written =
          id
          ++ (field secret
              ++ (field issuer
                  ++ (field account
                      ++ (field name
                          ++ (sha1 ∷ digits ∷ (append_u16 period ++ append_u16 order))))));
      encoded = simp (s.written, i.written, a.written, n.written);
      splits =
          rw
            (
              id_splits,
              s.splits,
              i.splits,
              a.splits,
              n.splits,
              alg_splits,
              digits_splits,
              period_splits,
              order_splits,
              (==_iff alg sha1).0 is_sha1,
            )
            (simp append_assoc);
      rest_fits = fits9;
    })

pub read_record_of :
    (ids : List Bytes) (input : Bytes) {r : CredentialRecord} {rest : Bytes}
    → IsBytes input
    → read_record ids input ≡ some (r, rest)
    → Recorded ids input r rest
unfolding read_record
read_record_of ids input {r} {rest} h e = bind-elim _ _ e λ (id, i1) id_eq e.
    bind-elim _ _ e λ _ fresh e. bind-elim _ _ e λ (secret, i2) secret_eq e.
      bind-elim _ _ e λ _ _ e. bind-elim _ _ e λ (issuer, i3) issuer_eq e.
        bind-elim _ _ e λ (account, i4) account_eq e. bind-elim _ _ e λ (name, i5) name_eq e.
          bind-elim _ _ e λ (alg, i6) alg_eq e. bind-elim _ _ e λ _ is_sha1 e.
            bind-elim _ _ e λ (digits, i7) digits_eq e. bind-elim _ _ e λ (period, i8) period_eq e.
              bind-elim _ _ e λ (order, i9) order_eq e. bind-elim _ _ e λ _ valid e.
                record_of ids input i1 i2 i3 i4 i5 i6 i7 i8 i9 id secret issuer account name alg
                  digits period order r rest h id_eq (guard-true _ fresh) secret_eq issuer_eq
                  account_eq name_eq alg_eq (guard-true _ is_sha1) digits_eq period_eq order_eq
                  (guard-true _ valid) e
