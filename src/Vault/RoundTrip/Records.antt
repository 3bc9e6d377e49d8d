-- ===== src/Vault/RoundTrip/Records.antt =====
-- Lemmas on the credentials of a plaintext: from what was written to what is read.
use m5authenticator.Vault.Utf8.{is_valid_utf8}
use m5authenticator.Prelude.{
  ℕ, ◌^◌, ◌≤◌, ◌<◌, ◌≡◌, refl, Bool, true, false, not, ◌||◌, some, List, [], ◌∷◌, ◌++◌, arith, ◌==◌,
  length, Bytes, length-append, is_empty, bind-eq-some, take-append, drop-append, contains,
}
use mathlib.Core.List.{append_assoc}
use m5authenticator.Vault.{CredentialRecord, credential_id_bytes, sha1}
use m5authenticator.Vault.Decode.{
  read_bytes, read_u16, read_sized_bytes, read_sized_text, read_record, read_u8, read_records,
}
use m5authenticator.Vault.Encode.{
  append_sized_bytes, append_sized_text, append_u16, max_field_bytes, max_secret_bytes,
  encode_record, valid_credential, encode_records,
}

abbrev pub Fits : ℕ → ℕ → Type 0
Fits w n = n < 2 ^ w

-- The ranges of the C++ fields.
pub record IsRecord (r : CredentialRecord) : Type 0 where
  pub id_size : length r.credential_id ≡ credential_id_bytes
  pub digits_fit : r.digits < 256
  pub period_fits : r.period_seconds < 2 ^ 16
  pub order_fits : r.manual_order < 2 ^ 16

abbrev pub AreRecords : List CredentialRecord → Type 0
AreRecords [] = Unit {0}
AreRecords (r ∷ rs) = IsRecord r × AreRecords rs

pub read_bytes-append :
    (n : ℕ) (xs rest : Bytes) → length xs ≡ n → read_bytes n (xs ++ rest) ≡ some (xs, rest)
unfolding read_bytes
read_bytes-append n xs rest e =
    rw (← e) (ground (arith, take-append xs rest, drop-append xs rest, length-append xs rest))

pub read_u16-append :
    (n : ℕ) (rest : Bytes) → n < 2 ^ 16 → read_u16 (append_u16 n ++ rest) ≡ some (n, rest)
unfolding read_u16
read_u16-append n rest h = ground arith

pub append_sized_bytes_written :
    (value : Bytes) (maximum : ℕ) {written : Bytes}
    → append_sized_bytes value maximum ≡ some written
    → (length value ≤ maximum)
      × (length value < 2 ^ 16)
      × (written ≡ append_u16 (length value) ++ value)
unfolding append_sized_bytes
append_sized_bytes_written value maximum e = (ground arith, ground arith, ground arith)

pub append_sized_text_written :
    (value : Bytes) {written : Bytes}
    → append_sized_text value ≡ some written
    → (length value ≤ max_field_bytes)
      × (is_valid_utf8 value ≡ true)
      × (written ≡ append_u16 (length value) ++ value)
unfolding append_sized_text
append_sized_text_written value e = (ground arith, ground arith, ground arith)

pub read_sized_bytes-append :
    (value rest : Bytes) (maximum : ℕ) {written : Bytes}
    → append_sized_bytes value maximum ≡ some written
    → read_sized_bytes maximum (written ++ rest) ≡ some (value, rest)
unfolding read_sized_bytes
read_sized_bytes-append value rest maximum e =
    let (h, k, w) = append_sized_bytes_written value maximum e in
    rw w (
      ground (
        arith,
        read_u16-append (length value) (value ++ rest) k,
        read_bytes-append (length value) value rest refl,
      ))

pub read_sized_text-append :
    (value rest : Bytes) {written : Bytes}
    → append_sized_text value ≡ some written
    → read_sized_text (written ++ rest) ≡ some (value, rest)
unfolding read_sized_text
read_sized_text-append value rest e =
    let (h, k, w) = append_sized_text_written value e in
    rw w (
      ground (
        arith,
        read_u16-append (length value) (value ++ rest) (omega arith),
        read_bytes-append (length value) value rest refl,
      ))

-- What `encode_record` writes, by its pieces.
pub record Written (r : CredentialRecord) (w : Bytes) : Type 0 where
  pub secret : Bytes
  pub issuer : Bytes
  pub account : Bytes
  pub display_name : Bytes
  pub secret_written : append_sized_bytes r.secret max_secret_bytes ≡ some secret
  pub issuer_written : append_sized_text r.issuer ≡ some issuer
  pub account_written : append_sized_text r.account ≡ some account
  pub display_name_written : append_sized_text r.display_name ≡ some display_name
  pub total :
      w
      ≡ r.credential_id
        ++ (secret
            ++ (issuer
                ++ (account
                    ++ (display_name
                        ++ (r.algorithm
                            ∷ r.digits
                            ∷ (append_u16 r.period_seconds ++ append_u16 r.manual_order))))))

pub encode_record-Written :
    (r : CredentialRecord) {w : Bytes} → encode_record r ≡ some w → Written r w
unfolding encode_record
encode_record-Written r e =
    let (s, s_eq, e1) = bind-eq-some (append_sized_bytes r.secret max_secret_bytes) _ e in
    let (i, i_eq, e2) = bind-eq-some (append_sized_text r.issuer) _ e1 in
    let (a, a_eq, e3) = bind-eq-some (append_sized_text r.account) _ e2 in
    let (d, d_eq, e4) = bind-eq-some (append_sized_text r.display_name) _ e3 in
    record {
      secret = s;
      issuer = i;
      account = a;
      display_name = d;
      secret_written = s_eq;
      issuer_written = i_eq;
      account_written = a_eq;
      display_name_written = d_eq;
      total = cc;
    }

pub read_record-append :
    (r : CredentialRecord) (ids : List Bytes) (rest : Bytes) {w : Bytes}
    → IsRecord r
    → valid_credential r ≡ true
    → contains r.credential_id ids ≡ false
    → encode_record r ≡ some w
    → read_record ids (w ++ rest) ≡ some (r, rest)
unfolding read_record read_u8
read_record-append r ids rest {w} h v c e =
    let k = encode_record-Written r e in
    let ne : is_empty r.secret ≡ false = unfold valid_credential in ground arith in
    let alg : (r.algorithm == sha1) ≡ true = unfold valid_credential in ground arith in
    let same : record r { algorithm = sha1 } ≡ r = ground arith in
    let tail : Bytes =
      r.algorithm
      ∷ r.digits
      ∷ (append_u16 r.period_seconds ++ (append_u16 r.manual_order ++ rest)) in
    rw k.total (
      simp append_assoc (
        simp
          (
            read_bytes-append credential_id_bytes r.credential_id
                (k.secret ++ (k.issuer ++ (k.account ++ (k.display_name ++ tail)))) h.id_size,
            c,
            read_sized_bytes-append r.secret (k.issuer ++ (k.account ++ (k.display_name ++ tail)))
                max_secret_bytes k.secret_written,
            ne,
            read_sized_text-append r.issuer (k.account ++ (k.display_name ++ tail))
                k.issuer_written,
            read_sized_text-append r.account (k.display_name ++ tail) k.account_written,
            read_sized_text-append r.display_name tail k.display_name_written,
            alg,
            read_u16-append r.period_seconds (append_u16 r.manual_order ++ rest) h.period_fits,
            read_u16-append r.manual_order rest h.order_fits,
          )
          (rw (same, v))))

pub read_records-append :
    (rs : List CredentialRecord) (ids : List Bytes) (rest : Bytes) {w : Bytes}
    → AreRecords rs
    → encode_records ids rs ≡ some w
    → read_records (length rs) ids (w ++ rest) ≡ some (rs, rest)
unfolding encode_records read_records
read_records-append [] ids rest h e = ground arith
read_records-append (r ∷ rs) ids rest {w} h e =
    let bad : Bool = not (valid_credential r) || contains r.credential_id ids in
    let fine : bad ≡ false = ground arith in
    let later = bind-eq-some (encode_record r) _ (rw fine at e) in
    let (first, first_eq, e1) = later in
    let (others, others_eq, e2) = bind-eq-some (encode_records (r.credential_id ∷ ids) rs) _ e1 in
    let total : first ++ others ≡ w = cc in
    rw (← total, append_assoc)
      (simp (
        read_record-append r ids (others ++ rest) h.0 (ground arith) (ground arith) first_eq,
        read_records-append rs (r.credential_id ∷ ids) rest h.1 others_eq,
      ))
