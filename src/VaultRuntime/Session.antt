-- ===== src/VaultRuntime/Session.antt =====
-- How long a runtime stays unlocked, and what a commit of a new envelope does.
use m5authenticator.Prelude.{
  ℕ, ◌+◌, ◌*◌, ◌≤◌, ◌≡◌, ◌↔◌, Bool, true, false, Option, some, arith, Bytes, bytes_eq_iff, u64_max,
}
use m5authenticator.VaultRuntime.{
  Runtime, Status, Persistence, PersistedSnapshot, ok, unlocked, validate_envelope_with_key,
  is_unlocked, automatic_lock_due, is_unlocked_now, milliseconds_per_day, is_ok,
}
use m5authenticator.VaultRuntime.Operations.{
  initialize, install_encrypted_vault, format_for_schema2, finish_install, reload_after_persistence,
}
use m5authenticator.VaultRuntime.Operations.Boundaries.{
  lock, enter_recovery_boundary, fatal_security_error, enter_vmk_rekey_boundary, initialize_from,
  successor_status, adopt_snapshot, committed, adopt_committed, reload_from,
}
use m5authenticator.VaultRuntime.Access.{
  with_plaintext, list_credentials, with_credential, with_wifi, set_last_used, factory_reset,
  update_encrypted_vault, rekey_encrypted_vault,
}
use m5authenticator.VaultRuntime.Invariant.{Inv, same_envelope-eq}
use m5authenticator.VaultRuntime.Steps.{
  with_plaintext_cases, Call, initializes, formats, locks, recovers, fails, rekey_boundary, lists,
  resets, installs, unlocks, updates, rekeys, uses_credential, uses_wifi, marks_used, step,
}
use m5authenticator.Vault.{VaultEnvelope, VaultPlaintext, vault_format_version2}
use m5authenticator.Vault.Crypto.{AesGcm}

-- If the later runtime is unlocked, it is in a session that was active before, with its start.
pub record Continues (r after : Runtime) : Type 0 where
  active : is_unlocked after.state ≡ true → r.unlock_session_active ≡ true
  same_start : is_unlocked after.state ≡ true → after.unlocked_since_ms ≡ r.unlocked_since_ms

abbrev pub is_unlock : Call → Bool
is_unlock (unlocks key now_ms) = true
is_unlock _ = false

-- The automatic lock is due exactly when the runtime is unlocked in a session with a policy and
-- at least that number of days has passed since the unlock.
automatic_lock_due_iff :
    (now_ms days : ℕ) (r : Runtime)
    → r.auto_lock_days ≡ some days
    → (automatic_lock_due now_ms r ≡ true) ↔ (
        (is_unlocked_now r ≡ true)
        × (r.unlock_session_active ≡ true)
        × (r.unlocked_since_ms + days * milliseconds_per_day ≤ now_ms))
unfolding automatic_lock_due
automatic_lock_due_iff now_ms days r e = (λ h. ground arith, λ h. ground arith)

-- What a successful commit has done: the runtime has the new envelope, the next generation of the
-- same Vault in a supported format that is not older, and the session goes on from its start.
pub record Commits (e : VaultEnvelope) (r after : Runtime) : Type 0 where
  new : after.envelope ≡ e
  next : e.generation ≡ r.envelope.generation + 1
  bounded : e.generation ≤ u64_max
  same_vault : e.vault_id ≡ r.envelope.vault_id
  no_downgrade :
      r.envelope.vault_format_version ≡ vault_format_version2
      → e.vault_format_version ≡ vault_format_version2
  still_unlocked : after.state ≡ unlocked
  same_start : after.unlocked_since_ms ≡ r.unlocked_since_ms

module _ {Store : Type 0} (persistence : Persistence Store) (gcm : AesGcm) where
  initialize-Continues :
      (r : Runtime) (s : Store) → Continues r (initialize persistence gcm (r, s)).1.0
  unfolding initialize initialize_from adopt_snapshot
  initialize-Continues r s = ground arith

  successor-Commits :
      (generation : ℕ) (e : VaultEnvelope) (status : Status) (p : PersistedSnapshot) (r : Runtime)
      (key : Bytes) (policy : Option ℕ)
      → is_ok (successor_status generation e r.envelope) ≡ true
      → committed status p e ≡ true
      → r.envelope.generation ≤ u64_max
      → Commits e r
          (record (adopt_committed p r) { vmk = key; vmk_present = true; auto_lock_days = policy })
  unfolding successor_status committed
  successor-Commits generation e status p r key policy h c b =
      ground (arith, same_envelope-eq p.envelope e, bytes_eq_iff e.vault_id r.envelope.vault_id)

  -- Where `update_encrypted_vault` succeeds, on any medium and any clock, it has committed the given
  -- envelope, the next generation of the same Vault, without a downgrade of its format, and the
  -- session goes on from its start, if the generation in use was a 64-bit number.
  pub update_encrypted_vault-Commits :
      (generation : ℕ) (e : VaultEnvelope) (now_ms : ℕ) (r : Runtime) (s : Store)
      → r.envelope.generation ≤ u64_max
      → (update_encrypted_vault persistence gcm generation e now_ms (r, s)).0 ≡ ok
      → Commits e r (update_encrypted_vault persistence gcm generation e now_ms (r, s)).1.1.0
  unfolding update_encrypted_vault
  update_encrypted_vault-Commits generation e now_ms r s b h =
      let s' = (persistence.replace_envelope generation e s).1 in
      let valid = validate_envelope_with_key gcm e r.vmk in
      ground (
        arith,
        successor-Commits generation e (persistence.load s').0 (persistence.load s').1 r r.vmk
            valid.1,
      )

  -- Where `rekey_encrypted_vault` succeeds, on any medium, it has committed the given envelope, the
  -- next generation of the same Vault, without a downgrade of its format, the given key is the
  -- resident one, and the session goes on from its start, if the generation in use was a 64-bit
  -- number.
  pub rekey_encrypted_vault-Commits :
      (generation : ℕ) (e : VaultEnvelope) (key : Bytes) (r : Runtime) (s : Store)
      → r.envelope.generation ≤ u64_max
      → (rekey_encrypted_vault persistence gcm generation e key (r, s)).0 ≡ ok
      → Commits e r (rekey_encrypted_vault persistence gcm generation e key (r, s)).1.0
        × ((rekey_encrypted_vault persistence gcm generation e key (r, s)).1.0.vmk ≡ key)
  unfolding rekey_encrypted_vault
  rekey_encrypted_vault-Commits generation e key r s b h =
      let s' = (persistence.replace_envelope generation e s).1 in
      let valid = validate_envelope_with_key gcm e key in
      ground (
        arith,
        successor-Commits generation e (persistence.load s').0 (persistence.load s').1 r key
            valid.1,
      )

  install-Continues :
      (e : VaultEnvelope) (key : Bytes) (r : Runtime) (s : Store)
      → Inv gcm r
      → Continues r (install_encrypted_vault persistence gcm e key (r, s)).1.0
  unfolding install_encrypted_vault finish_install reload_after_persistence reload_from
  install-Continues e key r s v = ground arith

  update-Continues :
      (generation : ℕ) (e : VaultEnvelope) (now_ms : ℕ) (r : Runtime) (s : Store)
      → Inv gcm r
      → Continues r (update_encrypted_vault persistence gcm generation e now_ms (r, s)).1.1.0
  unfolding update_encrypted_vault fatal_security_error
  update-Continues generation e now_ms r s v = ground arith

  rekey-Continues :
      (generation : ℕ) (e : VaultEnvelope) (key : Bytes) (r : Runtime) (s : Store)
      → Inv gcm r
      → Continues r (rekey_encrypted_vault persistence gcm generation e key (r, s)).1.0
  unfolding rekey_encrypted_vault
  rekey-Continues generation e key r s v = ground arith

  read-Continues :
      {A : Type 0} (nothing : A) (f : VaultPlaintext → Status × (A × (Runtime × Store)))
      (r : Runtime) (s : Store)
      → Inv gcm r
      → ((p : VaultPlaintext) → Continues r (f p).1.1.0)
      → Continues r (with_plaintext persistence gcm nothing f (r, s)).1.1.0
  read-Continues nothing f r s v used =
      with_plaintext_cases persistence gcm (λ x. Continues r x.0) nothing f r s (ground arith)
        (unfold fatal_security_error in ground arith) used

  mark-Continues :
      (id : Bytes) (r : Runtime) → Inv gcm r → Continues r (record r { last_used = some id })
  mark-Continues id r v = ground arith

  -- Whatever the medium, the cipher and the clock: after a call other than `unlock` on a runtime that
  -- satisfies the invariant, the runtime is unlocked only in a session that was active before the
  -- call, and the start of that session has not changed.
  pub step-Continues :
      (c : Call) (r : Runtime) (s : Store)
      → Inv gcm r
      → is_unlock c ≡ false
      → Continues r (step persistence gcm c (r, s)).0
  unfolding step
  step-Continues initializes r s v e = initialize-Continues r s
  step-Continues formats r s v e =
      unfold format_for_schema2 reload_after_persistence reload_from in ground arith
  step-Continues locks r s v e = unfold lock in ground arith
  step-Continues recovers r s v e = unfold enter_recovery_boundary in ground arith
  step-Continues fails r s v e = unfold fatal_security_error in ground arith
  step-Continues rekey_boundary r s v e = unfold enter_vmk_rekey_boundary in ground arith
  step-Continues lists r s v e =
      unfold list_credentials in read-Continues _ _ r s v λ p. ground arith
  step-Continues resets r s v e = unfold factory_reset in ground arith
  step-Continues (installs e' key) r s v e = install-Continues e' key r s v
  step-Continues (unlocks key now_ms) r s v e = absurd (ground arith)
  step-Continues (updates generation e' now_ms) r s v e =
      update-Continues generation e' now_ms r s v
  step-Continues (rekeys generation e' key) r s v e = rekey-Continues generation e' key r s v
  step-Continues (uses_credential id consumer) r s v e =
      unfold with_credential in read-Continues _ _ r s v λ p. ground (arith, mark-Continues id r v)
  step-Continues (uses_wifi consumer) r s v e =
      unfold with_wifi in read-Continues _ _ r s v λ p. ground arith
  step-Continues (marks_used id) r s v e =
      unfold set_last_used in read-Continues _ _ r s v λ p. ground (arith, mark-Continues id r v)
