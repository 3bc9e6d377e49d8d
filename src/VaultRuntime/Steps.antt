-- ===== src/VaultRuntime/Steps.antt =====
-- Any sequence of calls of the runtime, from its construction on.
use m5authenticator.Prelude.{ℕ, some, List, [], ◌∷◌, arith, Bytes}
use m5authenticator.VaultRuntime.{
  Runtime, Status, Persistence, Opened, opened, refused, open_envelope, new_runtime,
}
use m5authenticator.VaultRuntime.Operations.{
  initialize, format_for_schema2, install_encrypted_vault, unlock,
}
use m5authenticator.VaultRuntime.Operations.Boundaries.{
  lock, enter_recovery_boundary, fatal_security_error, enter_vmk_rekey_boundary,
}
use m5authenticator.VaultRuntime.Access.{
  with_plaintext, list_credentials, factory_reset, update_encrypted_vault, rekey_encrypted_vault,
  with_credential, use_opened, with_wifi, set_last_used,
}
use m5authenticator.VaultRuntime.Invariant.{
  Inv, fatal_security_error-Inv, initialize-Inv, format_for_schema2-Inv, new_runtime-Inv, lock-Inv,
  enter_vmk_rekey_boundary-Inv, factory_reset-Inv, unlock-Inv,
}
use m5authenticator.Vault.{VaultEnvelope, CredentialRecord, WifiRecord, VaultPlaintext}
use m5authenticator.Vault.Crypto.{AesGcm}
use m5authenticator.VaultRuntime.Commit.{
  install_encrypted_vault-Inv, update_encrypted_vault-Inv, rekey_encrypted_vault-Inv,
}

pub data Call : Type 0 where
  initializes formats locks recovers fails rekey_boundary lists resets : Call
  installs : VaultEnvelope → Bytes → Call
  unlocks : Bytes → ℕ → Call
  updates : ℕ → VaultEnvelope → ℕ → Call
  rekeys : ℕ → VaultEnvelope → Bytes → Call
  uses_credential : Bytes → (CredentialRecord → Status) → Call
  uses_wifi : (WifiRecord → Status) → Call
  marks_used : Bytes → Call

module _ {Store : Type 0} (persistence : Persistence Store) (gcm : AesGcm) where
  unfoldable pub step : Call → Runtime × Store → Runtime × Store
  step initializes (r, s) = (initialize persistence gcm (r, s)).1
  step formats (r, s) = (format_for_schema2 persistence gcm (r, s)).1
  step locks (r, s) = ((lock r).1, s)
  step recovers (r, s) = ((enter_recovery_boundary r).1, s)
  step fails (r, s) = ((fatal_security_error r).1, s)
  step rekey_boundary (r, s) = ((enter_vmk_rekey_boundary r).1, s)
  step lists (r, s) = (list_credentials persistence gcm (r, s)).1.1
  step resets (r, s) = (factory_reset persistence gcm (r, s)).1
  step (installs e key) (r, s) = (install_encrypted_vault persistence gcm e key (r, s)).1
  step (unlocks key now_ms) (r, s) = (unlock persistence gcm key now_ms (r, s)).1
  step (updates generation e now_ms) (r, s) =
      (update_encrypted_vault persistence gcm generation e now_ms (r, s)).1.1
  step (rekeys generation e key) (r, s) =
      (rekey_encrypted_vault persistence gcm generation e key (r, s)).1
  step (uses_credential id consumer) (r, s) =
      (with_credential persistence gcm id consumer (r, s)).1.1
  step (uses_wifi consumer) (r, s) = (with_wifi persistence gcm consumer (r, s)).1.1
  step (marks_used id) (r, s) = (set_last_used persistence gcm id (r, s)).1.1

  unfoldable pub run : List Call → Runtime × Store → Runtime × Store
  unfolding step
  run [] x = x
  run (c ∷ cs) x = run cs (step c x)

  module _ (P : Runtime × Store → Type 0) where
    opened_cases :
        {A : Type 0} (nothing : A) (f : VaultPlaintext → Status × (A × (Runtime × Store)))
        (r : Runtime) (s : Store) (o : Opened)
        → P ((fatal_security_error r).1, s)
        → ((p : VaultPlaintext) → P (f p).1.1)
        → P (use_opened persistence gcm nothing f (r, s) o).1.1
    opened_cases nothing f r s (opened p) fatal used = used p
    opened_cases nothing f r s (refused status) fatal used = fatal

    -- What the plaintext is used for decides, unless the call is refused or the runtime fails.
    pub with_plaintext_cases :
        {A : Type 0} (nothing : A) (f : VaultPlaintext → Status × (A × (Runtime × Store)))
        (r : Runtime) (s : Store)
        → P (r, s)
        → P ((fatal_security_error r).1, s)
        → ((p : VaultPlaintext) → P (f p).1.1)
        → P (with_plaintext persistence gcm nothing f (r, s)).1.1
    unfolding with_plaintext
    with_plaintext_cases nothing f r s same fatal used =
        ground (arith, opened_cases nothing f r s (open_envelope gcm r.envelope r.vmk) fatal used)

  read-Inv :
      {A : Type 0} (nothing : A) (f : VaultPlaintext → Status × (A × (Runtime × Store)))
      (r : Runtime) (s : Store)
      → Inv gcm r
      → ((p : VaultPlaintext) → Inv gcm (f p).1.1.0)
      → Inv gcm (with_plaintext persistence gcm nothing f (r, s)).1.1.0
  read-Inv nothing f r s v used =
      with_plaintext_cases (λ x. Inv gcm x.0) nothing f r s v (fatal_security_error-Inv gcm r v)
        used

  mark-Inv : (id : Bytes) (r : Runtime) → Inv gcm r → Inv gcm (record r { last_used = some id })
  mark-Inv id r v = ground arith

  list_credentials-Inv :
      (r : Runtime) (s : Store)
      → Inv gcm r
      → Inv gcm (list_credentials persistence gcm (r, s)).1.1.0
  unfolding list_credentials
  list_credentials-Inv r s v = read-Inv _ _ r s v λ p. v

  with_credential-Inv :
      (id : Bytes) (consumer : CredentialRecord → Status) (r : Runtime) (s : Store)
      → Inv gcm r
      → Inv gcm (with_credential persistence gcm id consumer (r, s)).1.1.0
  unfolding with_credential
  with_credential-Inv id consumer r s v = read-Inv _ _ r s v λ p. ground (arith, mark-Inv id r v)

  with_wifi-Inv :
      (consumer : WifiRecord → Status) (r : Runtime) (s : Store)
      → Inv gcm r
      → Inv gcm (with_wifi persistence gcm consumer (r, s)).1.1.0
  unfolding with_wifi
  with_wifi-Inv consumer r s v = read-Inv _ _ r s v λ p. ground arith

  set_last_used-Inv :
      (id : Bytes) (r : Runtime) (s : Store)
      → Inv gcm r
      → Inv gcm (set_last_used persistence gcm id (r, s)).1.1.0
  unfolding set_last_used
  set_last_used-Inv id r s v = read-Inv _ _ r s v λ p. ground (arith, mark-Inv id r v)

  pub step-Inv : (c : Call) (r : Runtime) (s : Store) → Inv gcm r → Inv gcm (step c (r, s)).0
  unfolding step enter_recovery_boundary lock
  step-Inv initializes r s v = initialize-Inv gcm persistence r s
  step-Inv formats r s v = format_for_schema2-Inv gcm persistence r s v
  step-Inv locks r s v = lock-Inv gcm r v
  step-Inv recovers r s v = lock-Inv gcm r v
  step-Inv fails r s v = fatal_security_error-Inv gcm r v
  step-Inv rekey_boundary r s v = enter_vmk_rekey_boundary-Inv gcm r v
  step-Inv lists r s v = list_credentials-Inv r s v
  step-Inv resets r s v = factory_reset-Inv gcm persistence r s v
  step-Inv (installs e key) r s v = install_encrypted_vault-Inv gcm persistence e key r s v
  step-Inv (unlocks key now_ms) r s v = unlock-Inv gcm persistence key now_ms r s v
  step-Inv (updates generation e now_ms) r s v =
      update_encrypted_vault-Inv gcm persistence generation e now_ms r s v
  step-Inv (rekeys generation e key) r s v =
      rekey_encrypted_vault-Inv gcm persistence generation e key r s v
  step-Inv (uses_credential id consumer) r s v = with_credential-Inv id consumer r s v
  step-Inv (uses_wifi consumer) r s v = with_wifi-Inv consumer r s v
  step-Inv (marks_used id) r s v = set_last_used-Inv id r s v

  run-Inv : (cs : List Call) (r : Runtime) (s : Store) → Inv gcm r → Inv gcm (run cs (r, s)).0
  unfolding run
  run-Inv [] r s v = v
  run-Inv (c ∷ cs) r s v = run-Inv cs (step c (r, s)).0 (step c (r, s)).1 (step-Inv c r s v)

  -- After any sequence of calls of a new runtime, with any medium that answers however it likes and
  -- any cipher: the master key is in memory exactly in the unlocked state, and is zero otherwise; in
  -- that state it decrypts the active envelope, and the automatic lock has the policy of that
  -- plaintext; a locked or unlocked runtime has a well-framed Vault, an unprovisioned one has none.
  pub run-new_runtime-Inv : (cs : List Call) (s : Store) → Inv gcm (run cs (new_runtime, s)).0
  run-new_runtime-Inv cs s = run-Inv cs new_runtime s (new_runtime-Inv gcm)
