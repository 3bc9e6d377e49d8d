-- ===== src/Vault/Reencoding.antt =====
-- A plaintext that is read is written again as the same bytes: the format has one encoding for
-- each value.
pub mod Settings
pub mod Records
use m5authenticator.Prelude.{
  ℕ, zero, suc, ◌≤◌, ◌≡◌, refl, sym, ap, ◌⊎◌, inl, inr, true, false, not, ◌&&◌, ◌||◌, Option, none,
  some, List, [], ◌∷◌, ◌++◌, arith, ltb, leb, ◌==◌, if◌then◌else◌, length, Bytes, leb→le, ==_iff,
  is_empty, bytes_eq_iff, IsBytes, IsBytes-split,
}
use m5authenticator.Vault.Canonical.{read_record_of, Recorded}
use m5authenticator.Vault.Canonical.Fields.{
  Sized, read_bytes_of, read_u16_of, read_u8_of, read_sized_text_of,
}
use m5authenticator.Vault.Decode.{
  read_bytes, read_u16, read_u8, read_records, read_wifi, read_wifi_record, read_days,
  read_auto_lock, read_auto_lock_flag, detect_format, decode_plaintext,
}
use m5authenticator.Vault.Encode.{
  append_u16, append_sized_text, encode_records, encode_wifi, encode_auto_lock, is_some,
  valid_auto_lock_days, plaintext_magic, encode_plaintext,
}
use m5authenticator.Vault.{
  CredentialRecord, WifiRecord, VaultPlaintext, vault_format_version1, vault_format_version2,
  is_supported_vault_format, max_credentials,
}
use mathlib.Core.Path.{subst₂, subst}
use mathlib.Core.List.{append-nil, append_assoc}
use m5authenticator.Prelude.{bind-elim, guard-true}
use m5authenticator.Vault.Reencoding.Records.{Written, pair-eq, read_records_of}
use m5authenticator.Vault.Reencoding.Settings.{read_wifi_of, Tail, read_auto_lock_of}

detect_format_of :
    (magic : Bytes) {format : ℕ}
    → detect_format magic ≡ some format
    → (magic ≡ plaintext_magic format) × ((format ≡ 1) ⊎ (format ≡ 2))
unfolding detect_format
detect_format_of magic {format} e = ground (
  arith,
  bytes_eq_iff magic (plaintext_magic vault_format_version1),
  bytes_eq_iff magic (plaintext_magic vault_format_version2),
)

whole_of :
    (value : VaultPlaintext) (format count : ℕ) (encoded i1 i2 i3 i4 : Bytes)
    → (format ≡ 1) ⊎ (format ≡ 2)
    → encoded ≡ plaintext_magic format ++ i1
    → i1 ≡ append_u16 format ++ i2
    → i2 ≡ append_u16 count ++ i3
    → count ≤ max_credentials
    → Written (encode_records [] value.credentials) i3 i4 × (length value.credentials ≡ count)
    → (i5 : Bytes) → Written (encode_wifi value.wifi) i4 i5
    → Tail format value.auto_lock_days i5 []
    → encode_plaintext value format ≡ some encoded
unfolding encode_plaintext
whole_of value format count encoded i1 i2 i3 i4 f e0 e1 e2 b (rs, l) i5 w t =
    let fine : (not (is_supported_vault_format format)
          || ltb max_credentials (length value.credentials)
          || not (valid_auto_lock_days value.auto_lock_days)
          || format == vault_format_version1 && is_some value.auto_lock_days)
        ≡ false =
      ground arith in
    rw (fine, rs.encoded, w.encoded, e0, e1, e2, rs.splits, w.splits, t.splits, append-nil, l)

empty_of : (xs : Bytes) → is_empty xs ≡ true → xs ≡ []
empty_of [] h = refl
empty_of (x ∷ xs) h = cc

-- The same from the results of the single reads.
pieces_of :
    (encoded magic i1 i2 i3 i4 i5 i6 : Bytes) (f version count : ℕ) (rs : List CredentialRecord)
    (wifi : Option WifiRecord) (days : Option ℕ)
    → IsBytes encoded
    → read_bytes 15 encoded ≡ some (magic, i1)
    → detect_format magic ≡ some f
    → read_u16 i1 ≡ some (version, i2)
    → (version == f) ≡ true
    → read_u16 i2 ≡ some (count, i3)
    → leb count max_credentials ≡ true
    → read_records count [] i3 ≡ some (rs, i4)
    → read_wifi i4 ≡ some (wifi, i5)
    → read_auto_lock f i5 ≡ some (days, i6)
    → is_empty i6 ≡ true
    → encode_plaintext (record { credentials = rs; wifi = wifi; auto_lock_days = days }) f
      ≡ some encoded
pieces_of encoded magic i1 i2 i3 i4 i5 i6 f version count rs wifi days h magic_eq f_eq version_eq
      same count_eq few rs_eq wifi_eq days_eq done =
    let (encoded_splits, _) = read_bytes_of 15 encoded magic_eq in
    let (magic_is, supported) = detect_format_of magic f_eq in
    let fits1 = (IsBytes-split magic i1 (rw encoded_splits at h)).1 in
    let (version_splits, _, fits2) = read_u16_of i1 fits1 version_eq in
    let (count_splits, _, fits3) = read_u16_of i2 fits2 count_eq in
    let (records, l) = read_records_of count [] i3 rs i4 fits3 rs_eq in
    let w = read_wifi_of i4 wifi i5 records.rest_fits wifi_eq in
    whole_of (record { credentials = rs; wifi = wifi; auto_lock_days = days }) f count encoded i1 i2
      i3 i4 supported (rw magic_is at encoded_splits)
      (rw ((==_iff version f).0 same) at version_splits) count_splits
      (leb→le count max_credentials few) (records, l) i5 w
      (rw (empty_of i6 done) at (read_auto_lock_of f i5 days i6 supported days_eq))

-- A plaintext that the decoder accepts is, byte for byte, what the encoder writes for the decoded
-- value in the detected format.
pub encode-decode :
    (encoded : Bytes) {value : VaultPlaintext} {format : ℕ}
    → IsBytes encoded
    → decode_plaintext encoded ≡ some (value, format)
    → encode_plaintext value format ≡ some encoded
unfolding decode_plaintext
encode-decode encoded {value} {format} h e = bind-elim _ _ e λ (magic, i1) magic_eq e.
    bind-elim _ _ e λ f f_eq e. bind-elim _ _ e λ (version, i2) version_eq e.
      bind-elim _ _ e λ _ same e. bind-elim _ _ e λ (count, i3) count_eq e.
        bind-elim _ _ e λ _ few e. bind-elim _ _ e λ (rs, i4) rs_eq e.
          bind-elim _ _ e λ (wifi, i5) wifi_eq e. bind-elim _ _ e λ (days, i6) days_eq e.
            bind-elim _ _ e λ _ done e.
              let (same_value, same_format) = pair-eq e in
              subst₂ (λ v g. encode_plaintext v g ≡ some encoded) same_value same_format
                (pieces_of encoded magic i1 i2 i3 i4 i5 i6 f version count rs wifi days h magic_eq
                  f_eq version_eq (guard-true (version == f) same) count_eq
                  (guard-true (leb count max_credentials) few) rs_eq wifi_eq days_eq
                  (guard-true (is_empty i6) done))
