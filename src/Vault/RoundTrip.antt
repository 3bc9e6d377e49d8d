-- ===== src/Vault/RoundTrip.antt =====
-- Reading what was written: each lemma reads one piece, with any `rest` behind it.
pub mod Records
use m5authenticator.Vault.Utf8.{is_valid_utf8}
use m5authenticator.Prelude.{
  ℕ, ◌^◌, ◌≤◌, ◌<◌, ◌≡◌, refl, inl, inr, Bool, true, false, not, ◌&&◌, ◌||◌, Option, none, some,
  List, [], ◌∷◌, ◌++◌, arith, ltb, ◌==◌, Bool-cases, length, Bytes, length-append, ==_iff, is_empty,
  bind-eq-some, take-append, drop-append, contains, bytes_eq, le→leb,
}
use mathlib.Core.List.{append_assoc}
use m5authenticator.Vault.{
  CredentialRecord, credential_id_bytes, sha1, WifiRecord, is_supported_vault_format,
  vault_format_version1, VaultPlaintext, max_credentials,
}
use m5authenticator.Vault.Decode.{
  read_bytes, read_u16, read_sized_bytes, read_sized_text, read_record, read_u8, read_records,
  read_wifi, read_auto_lock, detect_format, decode_plaintext,
}
use m5authenticator.Vault.Encode.{
  append_sized_bytes, append_sized_text, append_u16, max_field_bytes, max_secret_bytes,
  encode_record, valid_credential, encode_records, encode_wifi, encode_auto_lock,
  valid_auto_lock_days, plaintext_magic, encode_plaintext, is_some,
}
use m5authenticator.Vault.RoundTrip.Records.{
  AreRecords, read_bytes-append, read_u16-append, read_sized_text-append, read_records-append,
}

read_wifi-append :
    (wifi : Option WifiRecord) (rest : Bytes) {w : Bytes}
    → encode_wifi wifi ≡ some w
    → read_wifi (w ++ rest) ≡ some (wifi, rest)
unfolding encode_wifi read_wifi read_u8
read_wifi-append none rest e = ground arith
read_wifi-append (some wifi) rest {w} e =
    let (s, s_eq, e1) = bind-eq-some (append_sized_text wifi.ssid) _ e in
    let (p, p_eq, e2) = bind-eq-some (append_sized_text wifi.password) _ e1 in
    let total : 1 ∷ (s ++ p) ≡ w = cc in
    rw (← total) (
      simp (
        append_assoc,
        read_sized_text-append wifi.ssid (p ++ rest) s_eq,
        read_sized_text-append wifi.password rest p_eq,
      ))

read_auto_lock-append :
    (format : ℕ) (days : Option ℕ)
    → is_supported_vault_format format ≡ true
    → valid_auto_lock_days days ≡ true
    → (format ≡ vault_format_version1 → days ≡ none)
    → read_auto_lock format (encode_auto_lock format days) ≡ some (days, [])
unfolding encode_auto_lock read_auto_lock read_u8 valid_auto_lock_days
read_auto_lock-append format none h v f = ground arith
read_auto_lock-append format (some d) h v f = ground arith

length-plaintext_magic : (format : ℕ) → length (plaintext_magic format) ≡ 15
unfolding plaintext_magic
length-plaintext_magic format = ground arith

detect_format-plaintext_magic :
    (format : ℕ)
    → is_supported_vault_format format ≡ true
    → detect_format (plaintext_magic format) ≡ some format
unfolding detect_format plaintext_magic bytes_eq
detect_format-plaintext_magic format h = ground arith

-- What `encode_plaintext` writes, by its pieces.
record Whole (value : VaultPlaintext) (format : ℕ) (encoded : Bytes) : Type 0 where
  supported : is_supported_vault_format format ≡ true
  bounded : length value.credentials ≤ max_credentials
  days : valid_auto_lock_days value.auto_lock_days ≡ true
  no_days : format ≡ vault_format_version1 → value.auto_lock_days ≡ none
  records : Bytes
  wifi : Bytes
  records_written : encode_records [] value.credentials ≡ some records
  wifi_written : encode_wifi value.wifi ≡ some wifi
  total :
      encoded
      ≡ plaintext_magic format
        ++ (append_u16 format
            ++ (append_u16 (length value.credentials)
                ++ (records ++ (wifi ++ encode_auto_lock format value.auto_lock_days))))

abbrev refused : VaultPlaintext → ℕ → Bool
refused value format =
    not (is_supported_vault_format format)
    || ltb max_credentials (length value.credentials)
    || not (valid_auto_lock_days value.auto_lock_days)
    || format == vault_format_version1 && is_some value.auto_lock_days

encode_plaintext_pieces :
    (value : VaultPlaintext) (format : ℕ) (encoded : Bytes)
    → refused value format ≡ false
    → encode_plaintext value format ≡ some encoded
    → Whole value format encoded
unfolding encode_plaintext
encode_plaintext_pieces value format encoded fine e =
    let (rs, rs_eq, e1) = bind-eq-some (encode_records [] value.credentials) _ (rw fine at e) in
    let (w, w_eq, e2) = bind-eq-some (encode_wifi value.wifi) _ e1 in
    record {
      supported = ground arith;
      bounded = ground arith;
      days = ground arith;
      no_days = λ v. ground arith;
      records = rs;
      wifi = w;
      records_written = rs_eq;
      wifi_written = w_eq;
      total = cc;
    }

encode_plaintext-Whole :
    (value : VaultPlaintext) (format : ℕ) (encoded : Bytes)
    → encode_plaintext value format ≡ some encoded
    → Whole value format encoded
encode_plaintext-Whole value format encoded e = elim (Bool-cases (refused value format)) [
  | inl bad ↦ absurd (unfold encode_plaintext in ground arith)
  | inr fine ↦ encode_plaintext_pieces value format encoded fine e
]

Whole-decode :
    (value : VaultPlaintext) (format : ℕ) (encoded : Bytes)
    → AreRecords value.credentials
    → Whole value format encoded
    → decode_plaintext encoded ≡ some (value, format)
unfolding decode_plaintext
Whole-decode value format encoded h k =
    let auto : Bytes = encode_auto_lock format value.auto_lock_days in
    let count : Bytes = append_u16 (length value.credentials) in
    let behind : Bytes = k.records ++ (k.wifi ++ auto) in
    rw k.total (
      simp (
        read_bytes-append 15 (plaintext_magic format) (append_u16 format ++ (count ++ behind))
            (length-plaintext_magic format),
        detect_format-plaintext_magic format k.supported,
        read_u16-append format (count ++ behind) (ground (arith, k.supported)),
        (==_iff format format).1 refl,
        read_u16-append (length value.credentials) behind (omega (arith, k.bounded)),
        le→leb (length value.credentials) max_credentials k.bounded,
        read_records-append value.credentials [] (k.wifi ++ auto) h k.records_written,
        read_wifi-append value.wifi auto k.wifi_written,
        read_auto_lock-append format value.auto_lock_days k.supported k.days k.no_days,
      ))

-- What was written in a supported format reads back as the same value and format, whatever the
-- credentials, as long as their ids have 16 bytes and their numbers fit their C++ types.
pub decode-encode :
    (value : VaultPlaintext) (format : ℕ) {encoded : Bytes}
    → AreRecords value.credentials
    → encode_plaintext value format ≡ some encoded
    → decode_plaintext encoded ≡ some (value, format)
decode-encode value format {encoded} h e =
    Whole-decode value format encoded h (encode_plaintext-Whole value format encoded e)
