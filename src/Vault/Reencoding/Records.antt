-- ===== src/Vault/Reencoding/Records.antt =====
-- Lemmas on the credentials of a plaintext: from what is read to what is written.
use m5authenticator.Prelude.{
  ℕ, zero, suc, ◌≡◌, refl, sym, ap, Option, some, List, [], ◌∷◌, ◌++◌, length, Bytes, IsBytes,
}
use m5authenticator.Vault.Canonical.{read_record_of, Recorded}
use m5authenticator.Vault.Decode.{read_records}
use m5authenticator.Vault.Encode.{encode_records}
use m5authenticator.Vault.{CredentialRecord}
use mathlib.Core.Path.{subst₂}
use mathlib.Core.List.{append_assoc}
use m5authenticator.Prelude.{bind-elim}

pub record Written (encoder : Option Bytes) (input rest : Bytes) : Type 0 where
  pub written : Bytes
  pub encoded : encoder ≡ some written
  pub splits : input ≡ written ++ rest
  pub rest_fits : IsBytes rest

pub record_then :
    (ids : List Bytes) (input middle rest : Bytes) (r : CredentialRecord)
    (rs : List CredentialRecord)
    → Recorded ids input r middle
    → Written (encode_records (r.credential_id ∷ ids) rs) middle rest
    → Written (encode_records ids (r ∷ rs)) input rest
unfolding encode_records
record_then ids input middle rest r rs k w = record {
  written = k.written ++ w.written;
  encoded = simp (k.valid, k.fresh, k.encoded, w.encoded);
  splits = rw (k.splits, w.splits) (sym (append_assoc k.written w.written rest));
  rest_fits = w.rest_fits;
}

pub pair-eq {ℓ κ} :
    {A : Type ℓ} {B : Type κ} {a c : A} {b d : B}
    → ◌≡◌ {A = Option (A × B)} (some (a, b)) (some (c, d))
    → (a ≡ c) × (b ≡ d)
pair-eq e = (cc, cc)

pub read_records_of :
    (n : ℕ) (ids : List Bytes) (input : Bytes) (rs : List CredentialRecord) (rest : Bytes)
    → IsBytes input
    → read_records n ids input ≡ some (rs, rest)
    → Written (encode_records ids rs) input rest × (length rs ≡ n)
unfolding read_records
read_records_of zero ids input rs rest h e =
    let (a, b) = pair-eq e in
    rw (sym a, sym b)
      (
        record {
          written = [];
          encoded = unfold encode_records in refl;
          splits = refl;
          rest_fits = h;
        },
        refl,
      )
read_records_of (suc n) ids input rs rest h e = bind-elim _ _ e λ (r, middle) r_eq e.
    bind-elim _ _ e λ (rs', rest') rs_eq e.
      let (a, b) = pair-eq e in
      let k = read_record_of ids input h r_eq in
      let (w, l) = read_records_of n (r.credential_id ∷ ids) middle rs' rest' k.rest_fits rs_eq in
      subst₂ (λ rs rest. Written (encode_records ids rs) input rest × (length rs ≡ suc n)) a b
        (record_then ids input middle rest' r rs' k w, ap suc l)
