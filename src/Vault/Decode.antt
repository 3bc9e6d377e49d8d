-- ===== src/Vault/Decode.antt =====
-- The reading half of vault_format.cpp. A `Reader` is the bytes from its offset on; a reading
-- function gives what it read and the bytes left, or nothing where the source's returns false.
use m5authenticator.Prelude.{
  ℕ, zero, suc, ◌+◌, ◌*◌, ◌^◌, not, ◌||◌, Option, none, some, List, [], ◌∷◌, ltb, leb, ◌==◌,
  if◌then◌else◌, length, Bytes, is_empty, ◌>>=◌, ◌>>◌, guard, take, drop, contains, bytes_eq,
}
use m5authenticator.Vault.Utf8.{is_valid_utf8}
use m5authenticator.Vault.Encode.{
  max_field_bytes, max_secret_bytes, valid_credential, plaintext_magic,
}
use m5authenticator.Vault.{
  CredentialRecord, WifiRecord, vault_format_version1, VaultPlaintext, credential_id_bytes,
  vault_format_version2, max_credentials, sha1, min_auto_lock_days, max_auto_lock_days,
}

unfoldable pub read_bytes : ℕ → Bytes → Option (Bytes × Bytes)
read_bytes n input = if ltb (length input) n then none else some (take n input, drop n input)

unfoldable pub read_u8 : Bytes → Option (ℕ × Bytes)
read_u8 [] = none
read_u8 (x ∷ input) = some (x, input)

unfoldable pub read_u16 : Bytes → Option (ℕ × Bytes)
read_u16 (x ∷ y ∷ input) = some (x * 2 ^ 8 + y, input)
read_u16 _ = none

unfoldable pub read_sized_bytes : ℕ → Bytes → Option (Bytes × Bytes)
read_sized_bytes maximum input = do
  (n, input) ← read_u16 input
  if ltb maximum n then none else read_bytes n input

unfoldable pub read_sized_text : Bytes → Option (Bytes × Bytes)
read_sized_text input = do
  (n, input) ← read_u16 input
  (value, input) ← (if ltb max_field_bytes n then none else read_bytes n input)
  if is_valid_utf8 value then some (value, input) else none

unfoldable pub read_record : List Bytes → Bytes → Option (CredentialRecord × Bytes)
read_record ids input = do
  (credential_id, input) ← read_bytes credential_id_bytes input
  guard (not (contains credential_id ids))
  (secret, input) ← read_sized_bytes max_secret_bytes input
  guard (not (is_empty secret))
  (issuer, input) ← read_sized_text input
  (account, input) ← read_sized_text input
  (display_name, input) ← read_sized_text input
  (algorithm, input) ← read_u8 input
  guard (algorithm == sha1)
  (digits, input) ← read_u8 input
  (period_seconds, input) ← read_u16 input
  (manual_order, input) ← read_u16 input
  let r : CredentialRecord = record {
    credential_id = credential_id;
    secret = secret;
    issuer = issuer;
    account = account;
    display_name = display_name;
    algorithm = sha1;
    digits = digits;
    period_seconds = period_seconds;
    manual_order = manual_order;
  }
  guard (valid_credential r)
  some (r, input)

-- The loop of `decode_common_body`, on the count of the records to come.
unfoldable pub read_records : ℕ → List Bytes → Bytes → Option (List CredentialRecord × Bytes)
read_records zero ids input = some ([], input)
read_records (suc n) ids input = do
  (r, input) ← read_record ids input
  (rs, input) ← read_records n (r.credential_id ∷ ids) input
  some (r ∷ rs, input)

unfoldable pub read_wifi_record : Bytes → Option (Option WifiRecord × Bytes)
read_wifi_record input = do
  (ssid, input) ← read_sized_text input
  (password, input) ← read_sized_text input
  some (some (record { ssid = ssid; password = password }), input)

unfoldable pub read_wifi : Bytes → Option (Option WifiRecord × Bytes)
unfolding read_wifi_record
read_wifi input = do
  (present, input) ← read_u8 input
  guard (leb present 1)
  if present == 1 then read_wifi_record input else some (none, input)

unfoldable pub read_days : Bytes → Option (Option ℕ × Bytes)
read_days input = do
  (days, input) ← read_u8 input
  guard (not (ltb days min_auto_lock_days || ltb max_auto_lock_days days))
  some (some days, input)

unfoldable pub read_auto_lock_flag : Bytes → Option (Option ℕ × Bytes)
unfolding read_days
read_auto_lock_flag input = do
  (present, input) ← read_u8 input
  guard (leb present 1)
  if present == 1 then read_days input else some (none, input)

-- The tail that Format 2 has.
unfoldable pub read_auto_lock : ℕ → Bytes → Option (Option ℕ × Bytes)
unfolding read_auto_lock_flag
read_auto_lock format input =
    if format == vault_format_version1 then some (none, input) else read_auto_lock_flag input

unfoldable pub detect_format : Bytes → Option ℕ
detect_format magic =
    if bytes_eq magic (plaintext_magic vault_format_version1)
    then some vault_format_version1
    else if bytes_eq magic (plaintext_magic vault_format_version2)
    then some vault_format_version2
    else none

unfoldable pub decode_plaintext : Bytes → Option (VaultPlaintext × ℕ)
decode_plaintext encoded = do
  (magic, input) ← read_bytes 15 encoded
  format ← detect_format magic
  (encoded_version, input) ← read_u16 input
  guard (encoded_version == format)
  (count, input) ← read_u16 input
  guard (leb count max_credentials)
  (credentials, input) ← read_records count [] input
  (wifi, input) ← read_wifi input
  (auto_lock_days, input) ← read_auto_lock format input
  guard (is_empty input)
  some (record { credentials = credentials; wifi = wifi; auto_lock_days = auto_lock_days }, format)
