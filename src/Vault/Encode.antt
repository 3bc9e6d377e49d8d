-- ===== src/Vault/Encode.antt =====
-- The writing half of vault_format.cpp. A function here gives the bytes that the source's function
-- appends to its output, or nothing where that returns false.
use m5authenticator.Prelude.{
  ℕ, zero, suc, ◌*◌, ◌/◌, ◌%◌, ◌^◌, Bool, true, false, not, ◌&&◌, ◌||◌, Option, none, some, List,
  [], ◌∷◌, ◌++◌, ltb, leb, ◌==◌, if◌then◌else◌, length, Bytes, is_empty, ◌>>=◌, contains, codes,
}
use m5authenticator.Vault.Utf8.{is_valid_utf8}
use m5authenticator.Vault.{
  CredentialRecord, min_auto_lock_days, vault_format_version1, WifiRecord, vault_format_version2,
  VaultPlaintext, sha1, max_auto_lock_days, is_supported_vault_format, max_credentials,
}

abbrev pub max_field_bytes : ℕ
max_field_bytes = 1024

abbrev pub max_secret_bytes : ℕ
max_secret_bytes = 512

-- Most significant byte first.
abbrev pub append_u16 : ℕ → Bytes
append_u16 value = value / 2 ^ 8 % 2 ^ 8 ∷ value % 2 ^ 8 ∷ []

-- The bytes at the shifts 8 * (n - 1), …, 8, 0.
unfoldable pub append_shifts : ℕ → ℕ → Bytes
append_shifts zero value = []
append_shifts (suc n) value = value / 2 ^ (n * 8) % 2 ^ 8 ∷ append_shifts n value

unfoldable pub append_u64 : ℕ → Bytes
unfolding append_shifts
append_u64 value = append_shifts 8 value

unfoldable pub append_sized_bytes : Bytes → ℕ → Option Bytes
append_sized_bytes value maximum =
    if ltb maximum (length value) || ltb 0xffff (length value)
    then none
    else some (append_u16 (length value) ++ value)

unfoldable pub append_sized_text : Bytes → Option Bytes
append_sized_text value =
    if not (is_valid_utf8 value) || ltb max_field_bytes (length value) || ltb 0xffff (length value)
    then none
    else some (append_u16 (length value) ++ value)

unfoldable pub valid_credential : CredentialRecord → Bool
valid_credential r =
    not (is_empty r.secret)
    && leb (length r.secret) max_secret_bytes
    && r.algorithm == sha1
    && leb 1 r.digits
    && leb r.digits 10
    && leb 1 r.period_seconds

unfoldable pub valid_auto_lock_days : Option ℕ → Bool
valid_auto_lock_days none = true
valid_auto_lock_days (some days) = leb min_auto_lock_days days && leb days max_auto_lock_days

-- `sizeof` counts the zero behind the text.
unfoldable pub plaintext_magic : ℕ → Bytes
plaintext_magic format =
    if format == vault_format_version1
    then codes "M5AUTH-VLT-PT1" ++ (0 ∷ [])
    else codes "M5AUTH-VLT-PT2" ++ (0 ∷ [])

-- The fields of one record behind the checks of the loop.
unfoldable pub encode_record : CredentialRecord → Option Bytes
encode_record r = do
  secret ← append_sized_bytes r.secret max_secret_bytes
  issuer ← append_sized_text r.issuer
  account ← append_sized_text r.account
  display_name ← append_sized_text r.display_name
  some (
      r.credential_id
      ++ (secret
          ++ (issuer
              ++ (account
                  ++ (display_name
                      ++ (r.algorithm
                          ∷ r.digits
                          ∷ (append_u16 r.period_seconds ++ append_u16 r.manual_order)))))))

-- The loop over the credentials; `ids` is the set of the ids before.
unfoldable pub encode_records : List Bytes → List CredentialRecord → Option Bytes
encode_records ids [] = some []
encode_records ids (r ∷ rs) =
    if not (valid_credential r) || contains r.credential_id ids then none else do
      record_bytes ← encode_record r
      rest ← encode_records (r.credential_id ∷ ids) rs
      some (record_bytes ++ rest)

unfoldable pub encode_wifi : Option WifiRecord → Option Bytes
encode_wifi none = some (0 ∷ [])
encode_wifi (some wifi) = do
  ssid ← append_sized_text wifi.ssid
  password ← append_sized_text wifi.password
  some (1 ∷ (ssid ++ password))

unfoldable pub encode_auto_lock : ℕ → Option ℕ → Bytes
encode_auto_lock format days =
    if format == vault_format_version2
    then elim days [ none ↦ 0 ∷ [] | some d ↦ 1 ∷ d ∷ [] ]
    else []

unfoldable pub is_some : Option ℕ → Bool
is_some none = false
is_some (some d) = true

unfoldable pub encode_plaintext : VaultPlaintext → ℕ → Option Bytes
unfolding is_some
encode_plaintext value format =
    if not (is_supported_vault_format format)
      || ltb max_credentials (length value.credentials)
      || not (valid_auto_lock_days value.auto_lock_days)
      || format == vault_format_version1 && is_some value.auto_lock_days
    then none
    else do
      records ← encode_records [] value.credentials
      wifi ← encode_wifi value.wifi
      some (
          plaintext_magic format
          ++ (append_u16 format
              ++ (append_u16 (length value.credentials)
                  ++ (records ++ (wifi ++ encode_auto_lock format value.auto_lock_days)))))
