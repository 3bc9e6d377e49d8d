-- ===== src/Vault/Reencoding/Settings.antt =====
-- Lemmas on the Wi-Fi credentials and the automatic lock: from what is read to what is written.
use m5authenticator.Prelude.{
  ℕ, ◌≡◌, refl, sym, ◌⊎◌, inl, inr, true, false, ◌&&◌, Option, none, some, [], ◌∷◌, ◌++◌, arith,
  leb, ◌==◌, if◌then◌else◌, length, Bytes, IsBytes,
}
use m5authenticator.Vault.Canonical.Fields.{Sized, read_u8_of, read_sized_text_of}
use m5authenticator.Vault.Decode.{
  read_u8, read_wifi, read_wifi_record, read_days, read_auto_lock, read_auto_lock_flag,
}
use m5authenticator.Vault.Encode.{
  append_u16, append_sized_text, encode_wifi, encode_auto_lock, is_some, valid_auto_lock_days,
}
use m5authenticator.Vault.{WifiRecord, vault_format_version1}
use mathlib.Core.Path.{subst₂, subst}
use mathlib.Core.List.{append_assoc}
use m5authenticator.Prelude.{bind-elim, guard-true}
use m5authenticator.Vault.Reencoding.Records.{Written, pair-eq}

pub wifi_record_of :
    (input middle rest ssid password : Bytes)
    → Sized append_sized_text input ssid middle
    → Sized append_sized_text middle password rest
    → Written (encode_wifi (some (record { ssid = ssid; password = password }))) (1 ∷ input) rest
unfolding encode_wifi
wifi_record_of input middle rest ssid password s p = record {
  written = 1 ∷ ((append_u16 (length ssid) ++ ssid) ++ (append_u16 (length password) ++ password));
  encoded = simp (s.written, p.written);
  splits = rw (s.splits, p.splits) (simp append_assoc);
  rest_fits = p.rest_fits;
}

pub read_wifi_record_of :
    (input : Bytes) (wifi : Option WifiRecord) (rest : Bytes)
    → IsBytes input
    → read_wifi_record input ≡ some (wifi, rest)
    → Written (encode_wifi wifi) (1 ∷ input) rest
unfolding read_wifi_record
read_wifi_record_of input wifi rest h e = bind-elim _ _ e λ (ssid, i1) ssid_eq e.
    bind-elim _ _ e λ (password, i2) password_eq e.
      let (a, b) = pair-eq e in
      let s = read_sized_text_of input h ssid_eq in
      let p = read_sized_text_of i1 s.rest_fits password_eq in
      subst₂ (λ wifi rest. Written (encode_wifi wifi) (1 ∷ input) rest) a b
        (wifi_record_of input i1 i2 ssid password s p)

pub flag_of : (n : ℕ) → leb n 1 ≡ true → (n ≡ 0) ⊎ (n ≡ 1)
flag_of n h = ground arith

pub read_wifi_of :
    (input : Bytes) (wifi : Option WifiRecord) (rest : Bytes)
    → IsBytes input
    → read_wifi input ≡ some (wifi, rest)
    → Written (encode_wifi wifi) input rest
unfolding read_wifi
read_wifi_of input wifi rest h e = bind-elim _ _ e λ (present, i1) present_eq e.
    bind-elim _ _ e λ _ fine e.
      let (splits, _, fits) = read_u8_of input h present_eq in
      wifi_flag i1 wifi rest present input fits splits
        (flag_of present (guard-true (leb present 1) fine)) e
  where
    wifi_flag :
        (i1 : Bytes) (wifi : Option WifiRecord) (rest : Bytes) (present : ℕ) (input : Bytes)
        → IsBytes i1
        → input ≡ present ∷ i1
        → (present ≡ 0) ⊎ (present ≡ 1)
        → (if◌then◌else◌ {A = Option (Option WifiRecord × Bytes)}
            (present == 1)
            (read_wifi_record i1)
            (some (none, i1)))
          ≡ some (wifi, rest)
        → Written (encode_wifi wifi) input rest
    wifi_flag i1 wifi rest present input fits splits (inl zero_eq) e =
        let (a, b) = pair-eq (rw zero_eq at e) in
        subst₂ (λ wifi rest. Written (encode_wifi wifi) input rest) a b
          (record {
            written = 0 ∷ [];
            encoded = unfold encode_wifi in refl;
            splits = rw zero_eq at splits;
            rest_fits = fits;
          })
    wifi_flag i1 wifi rest present input fits splits (inr one_eq) e =
        subst (λ v. Written (encode_wifi wifi) v rest) (sym (rw one_eq at splits))
          (read_wifi_record_of i1 wifi rest fits (rw one_eq at e))

pub record Tail (format : ℕ) (days : Option ℕ) (input rest : Bytes) : Type 0 where
  pub splits : input ≡ encode_auto_lock format days ++ rest
  pub fine : valid_auto_lock_days days ≡ true
  pub absent : (format == vault_format_version1 && is_some days) ≡ false

pub read_days_of :
    (input : Bytes) (days : Option ℕ) (rest : Bytes)
    → read_days input ≡ some (days, rest)
    → Tail 2 days (1 ∷ input) rest
unfolding read_days read_u8 encode_auto_lock valid_auto_lock_days is_some
read_days_of [] days rest e = absurd (ground arith)
read_days_of (x ∷ input) days rest e = ground arith

pub read_auto_lock_flag_of :
    (input : Bytes) (days : Option ℕ) (rest : Bytes)
    → read_auto_lock_flag input ≡ some (days, rest)
    → Tail 2 days input rest
unfolding read_auto_lock_flag read_u8
read_auto_lock_flag_of [] days rest e = absurd (ground arith)
read_auto_lock_flag_of (x ∷ input) days rest e =
    bind-elim _ _ e λ _ fine e. present x input (flag_of x (guard-true (leb x 1) fine)) e
  where
    present :
        (x : ℕ) (input : Bytes)
        → (x ≡ 0) ⊎ (x ≡ 1)
        → (if◌then◌else◌ {A = Option (Option ℕ × Bytes)}
            (x == 1)
            (read_days input)
            (some (none, input)))
          ≡ some (days, rest)
        → Tail 2 days (x ∷ input) rest
    present x input (inl zero_eq) e =
        let (a, b) = pair-eq (rw zero_eq at e) in
        subst₂ (λ days rest. Tail 2 days (x ∷ input) rest) a b
          (unfold encode_auto_lock valid_auto_lock_days is_some in
            record { splits = rw zero_eq; fine = refl; absent = refl })
    present x input (inr one_eq) e =
        subst (λ v. Tail 2 days (v ∷ input) rest) (sym one_eq)
          (read_days_of input days rest (rw one_eq at e))

pub read_auto_lock_of :
    (format : ℕ) (input : Bytes) (days : Option ℕ) (rest : Bytes)
    → (format ≡ 1) ⊎ (format ≡ 2)
    → read_auto_lock format input ≡ some (days, rest)
    → Tail format days input rest
unfolding read_auto_lock
read_auto_lock_of format input days rest (inl one_eq) e =
    let (a, b) = pair-eq (rw one_eq at e) in
    subst₂ (λ days rest. Tail format days input rest) a b
      (unfold encode_auto_lock valid_auto_lock_days is_some in
        record { splits = rw one_eq; fine = refl; absent = rw one_eq })
read_auto_lock_of format input days rest (inr two_eq) e =
    subst (λ f. Tail f days input rest) (sym two_eq)
      (read_auto_lock_flag_of input days rest (rw two_eq at e))
