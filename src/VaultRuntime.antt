-- ===== src/VaultRuntime.antt =====
-- firmware/components/m5auth_vault_runtime: the encrypted Vault in use. Here are the state of
-- `Runtime` (runtime.hpp), the interface of its persistence and the checks of an envelope. A time
-- is a 64-bit number of milliseconds. The wiping of the copies of keys and plaintexts is not
-- modelled, but that of the resident key is.
pub mod Operations
pub mod Access
pub mod Invariant
pub mod Commit
pub mod Steps
pub mod Session
pub mod Tests
use m5authenticator.Prelude.{
  ℕ, ◌-◌, ◌*◌, Bool, true, false, not, ◌&&◌, ◌||◌, Option, none, some, ltb, leb, ◌==◌,
  if◌then◌else◌, length, Bytes, replicate, is_empty, bytes_eq,
}
use m5authenticator.Vault.{
  VaultEnvelope, empty_envelope, is_supported_vault_format, target_storage_schema_version,
  vmk_bytes, VaultPlaintext,
}
use m5authenticator.Vault.Decode.{decode_plaintext}
use m5authenticator.Vault.Crypto.{AesGcm, decrypt_vault}

abbrev pub max_persisted_ciphertext_bytes : ℕ
max_persisted_ciphertext_bytes = 64 * 1024

abbrev pub milliseconds_per_day : ℕ
milliseconds_per_day = 86_400_000

pub data Status : Type 0 where
  ok not_ready unprovisioned_status locked_status invalid_state invalid_argument : Status
  not_found reprovision_status unsupported_schema unsupported_vault_format : Status
  generation_mismatch authentication_failed corrupt io : Status

pub data State : Type 0 where
  unprovisioned reprovision_required locked unlocked error : State

abbrev pub is_ok : Status → Bool
is_ok ok = true
is_ok _ = false

abbrev pub is_unprovisioned : State → Bool
is_unprovisioned unprovisioned = true
is_unprovisioned _ = false

abbrev pub is_reprovision : State → Bool
is_reprovision reprovision_required = true
is_reprovision _ = false

abbrev pub is_locked : State → Bool
is_locked locked = true
is_locked _ = false

abbrev pub is_unlocked : State → Bool
is_unlocked unlocked = true
is_unlocked _ = false

abbrev pub is_error : State → Bool
is_error error = true
is_error _ = false

pub record PersistedSnapshot : Type 0 where
  pub schema_ready : Bool
  pub has_vault : Bool
  pub envelope : VaultEnvelope
  pub last_used : Option Bytes

-- The interface `Persistence`, over whatever a medium keeps. `load` fills the snapshot that it is
-- given, also when it fails.
pub record Persistence (Store : Type 0) : Type 0 where
  pub load : Store → Status × PersistedSnapshot
  pub format_schema2 : Store → Status × Store
  pub replace_envelope : ℕ → VaultEnvelope → Store → Status × Store
  pub set_last_used : Option Bytes → Store → Status × Store
  pub erase_all : Store → Status × Store

pub record Runtime : Type 0 where
  pub initialized : Bool
  pub schema_ready : Bool
  pub has_vault : Bool
  pub recovery_reset_allowed : Bool
  pub state : State
  pub envelope : VaultEnvelope
  pub last_used : Option Bytes
  pub vmk : Bytes
  pub vmk_present : Bool
  pub auto_lock_days : Option ℕ
  pub unlocked_since_ms : ℕ
  pub unlock_session_active : Bool

-- The member initialisers.
abbrev pub new_runtime : Runtime
new_runtime = record {
  initialized = false;
  schema_ready = false;
  has_vault = false;
  recovery_reset_allowed = false;
  state = unprovisioned;
  envelope = empty_envelope;
  last_used = none;
  vmk = replicate vmk_bytes 0;
  vmk_present = false;
  auto_lock_days = none;
  unlocked_since_ms = 0;
  unlock_session_active = false;
}

unfoldable pub valid_envelope_framing : VaultEnvelope → Bool
valid_envelope_framing e =
    is_supported_vault_format e.vault_format_version
    && e.storage_schema_version == target_storage_schema_version
    && not (e.generation == 0)
    && not (is_empty e.ciphertext)
    && leb (length e.ciphertext) max_persisted_ciphertext_bytes

unfoldable pub same_envelope : VaultEnvelope → VaultEnvelope → Bool
same_envelope left right =
    left.vault_format_version == right.vault_format_version
    && left.storage_schema_version == right.storage_schema_version
    && bytes_eq left.vault_id right.vault_id
    && left.generation == right.generation
    && bytes_eq left.nonce right.nonce
    && bytes_eq left.ciphertext right.ciphertext
    && bytes_eq left.tag right.tag

abbrev pub explicit_reset_recovery_status : Status → Bool
explicit_reset_recovery_status corrupt = true
explicit_reset_recovery_status unsupported_schema = true
explicit_reset_recovery_status reprovision_status = true
explicit_reset_recovery_status _ = false

abbrev pub wipe_vmk : Runtime → Runtime
wipe_vmk r = record r { vmk = replicate vmk_bytes 0; vmk_present = false }

abbrev pub clear_unlock_session_state : Runtime → Runtime
clear_unlock_session_state r = record (wipe_vmk r) {
  auto_lock_days = none;
  unlocked_since_ms = 0;
  unlock_session_active = false;
}

abbrev pub begin_unlock_session : Option ℕ → ℕ → Runtime → Runtime
begin_unlock_session auto_lock_days now_ms r = record r {
  auto_lock_days = auto_lock_days;
  unlocked_since_ms = now_ms;
  unlock_session_active = true;
}

unfoldable pub is_unlocked_now : Runtime → Bool
is_unlocked_now r = r.initialized && is_unlocked r.state && r.vmk_present

-- `automatic_lock_due`; the product stays below 2 ^ 64, since the days are a byte.
unfoldable pub automatic_lock_due : ℕ → Runtime → Bool
unfolding is_unlocked_now
automatic_lock_due now_ms r =
    if not (is_unlocked_now r) || not r.unlock_session_active then false else due r.auto_lock_days
  where
    due : Option ℕ → Bool
    due none = false
    due (some days) =
        not (ltb now_ms r.unlocked_since_ms)
        && leb (days * milliseconds_per_day) (now_ms - r.unlocked_since_ms)

-- The result of a decryption with the decoded plaintext; the failures are
-- `kAuthenticationFailed` and `kCorrupt`.
pub data Opened : Type 0 where
  opened : VaultPlaintext → Opened
  refused : Status → Opened

module _ (gcm : AesGcm) where
  abbrev decoded : ℕ → Option (VaultPlaintext × ℕ) → Opened
  decoded format none = refused corrupt
  decoded format (some (plaintext, decoded_format)) =
      if decoded_format == format then opened plaintext else refused corrupt

  abbrev decrypted : ℕ → Option Bytes → Opened
  decrypted format none = refused authentication_failed
  decrypted format (some encoded_plaintext) = decoded format (decode_plaintext encoded_plaintext)

  -- `decrypt_vault`, then `decode_plaintext` and the comparison of the format.
  unfoldable pub open_envelope : VaultEnvelope → Bytes → Opened
  open_envelope envelope vmk =
      decrypted envelope.vault_format_version (decrypt_vault gcm envelope vmk)

  -- With the policy that the plaintext holds.
  abbrev policy_of : Opened → Status × Option ℕ
  policy_of (opened plaintext) = (ok, plaintext.auto_lock_days)
  policy_of (refused status) = (status, none)

  unfoldable pub validate_envelope_with_key : VaultEnvelope → Bytes → Status × Option ℕ
  validate_envelope_with_key envelope vmk =
      if not (valid_envelope_framing envelope)
      then (
        (if is_supported_vault_format envelope.vault_format_version
            then invalid_argument
            else unsupported_vault_format),
        none,
      )
      else policy_of (open_envelope envelope vmk)
