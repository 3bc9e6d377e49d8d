-- ===== src/VaultRuntime/Invariant.antt =====
-- What holds of the runtime between any two calls.
use m5authenticator.Prelude.{
  ℕ, ◌≡◌, Bool, true, false, ◌||◌, Option, none, arith, Bytes, replicate, bytes_eq_iff,
}
use m5authenticator.VaultRuntime.{
  Runtime, Status, Persistence, PersistedSnapshot, ok, valid_envelope_framing, same_envelope,
  validate_envelope_with_key, clear_unlock_session_state, is_unlocked, new_runtime, is_locked,
  is_unprovisioned, is_reprovision, is_ok,
}
use m5authenticator.VaultRuntime.Access.{factory_reset}
use m5authenticator.VaultRuntime.Operations.{
  initialize, format_for_schema2, unlock, reload_after_persistence,
}
use m5authenticator.VaultRuntime.Operations.Boundaries.{
  lock, fatal_security_error, enter_vmk_rekey_boundary, initialize_from, reload_from, fail,
  adopt_snapshot, reset_fields,
}
use m5authenticator.Vault.{VaultEnvelope, vmk_bytes}
use m5authenticator.Vault.Crypto.{AesGcm}

-- `has_key`: the key is in memory exactly when the state is unlocked. `wiped`: where it is not, its
-- bytes are zero. `authentic`: the key opens the active envelope, whose plaintext holds the policy
-- in use.
pub record Inv (gcm : AesGcm) (r : Runtime) : Type 0 where
  pub has_key : is_unlocked r.state ≡ r.vmk_present
  pub wiped : r.vmk_present ≡ false → r.vmk ≡ replicate vmk_bytes 0
  pub authentic :
      is_unlocked r.state ≡ true
      → validate_envelope_with_key gcm r.envelope r.vmk ≡ (ok, r.auto_lock_days)
  pub provisioned : is_unlocked r.state || is_locked r.state ≡ true → r.has_vault ≡ true
  pub framed :
      is_unlocked r.state || is_locked r.state ≡ true → valid_envelope_framing r.envelope ≡ true
  pub empty : is_unprovisioned r.state || is_reprovision r.state ≡ true → r.has_vault ≡ false
  pub session : is_unlocked r.state ≡ true → r.unlock_session_active ≡ true
  pub session_state :
      r.unlock_session_active ≡ true → is_unlocked r.state || is_locked r.state ≡ true
  pub no_session :
      r.unlock_session_active ≡ false → (r.auto_lock_days ≡ none) × (r.unlocked_since_ms ≡ 0)
  pub started : is_unprovisioned r.state ≡ false → r.initialized ≡ true

pub same_envelope-eq : (a b : VaultEnvelope) → same_envelope a b ≡ true → a ≡ b
unfolding same_envelope
same_envelope-eq a b h = ground (
  arith,
  bytes_eq_iff a.vault_id b.vault_id,
  bytes_eq_iff a.nonce b.nonce,
  bytes_eq_iff a.ciphertext b.ciphertext,
  bytes_eq_iff a.tag b.tag,
)

module _ (gcm : AesGcm) where
  pub new_runtime-Inv : Inv gcm new_runtime
  new_runtime-Inv = ground arith

  pub lock-Inv : (r : Runtime) → Inv gcm r → Inv gcm (lock r).1
  unfolding lock
  lock-Inv r v = ground arith

  pub fatal_security_error-Inv : (r : Runtime) → Inv gcm r → Inv gcm (fatal_security_error r).1
  unfolding fatal_security_error
  fatal_security_error-Inv r v = ground arith

  pub enter_vmk_rekey_boundary-Inv :
      (r : Runtime) → Inv gcm r → Inv gcm (enter_vmk_rekey_boundary r).1
  unfolding enter_vmk_rekey_boundary
  enter_vmk_rekey_boundary-Inv r v = ground arith

  pub validate-framed :
      (e : VaultEnvelope) (key : Bytes)
      → is_ok (validate_envelope_with_key gcm e key).0 ≡ true
      → valid_envelope_framing e ≡ true
  unfolding validate_envelope_with_key
  validate-framed e key h = ground arith

  pub ok-eq : (p : Status × Option ℕ) → is_ok p.0 ≡ true → p ≡ (ok, p.1)
  ok-eq (status, policy) h = ground arith

  reset_fields-Inv :
      (status : Status) (s : PersistedSnapshot) (r : Runtime)
      → Inv gcm (initialize_from status s (reset_fields r)).1
  unfolding initialize_from adopt_snapshot
  reset_fields-Inv status s r = ground arith

  pub reload_from-Inv :
      (status : Status) (s : PersistedSnapshot) (r : Runtime)
      → r.initialized ≡ true
      → Inv gcm (reload_from status s r).1
  unfolding reload_from
  reload_from-Inv status s r h = ground arith

  pub fail-Inv : (b : Bool) (r : Runtime) → r.initialized ≡ true → Inv gcm (fail b r)
  fail-Inv b r h = ground arith

  module _ {Store : Type 0} (persistence : Persistence Store) where
    pub initialize-Inv : (r : Runtime) (s : Store) → Inv gcm (initialize persistence gcm (r, s)).1.0
    unfolding initialize
    initialize-Inv r s = reset_fields-Inv (persistence.load s).0 (persistence.load s).1 r

    pub format_for_schema2-Inv :
        (r : Runtime) (s : Store)
        → Inv gcm r
        → Inv gcm (format_for_schema2 persistence gcm (r, s)).1.0
    unfolding format_for_schema2 reload_after_persistence
    format_for_schema2-Inv r s v =
        let s' = (persistence.format_schema2 s).1 in
        ground (
          arith,
          reload_from-Inv (persistence.load s').0 (persistence.load s').1
              (clear_unlock_session_state r),
        )

    pub unlock-Inv :
        (key : Bytes) (now_ms : ℕ) (r : Runtime) (s : Store)
        → Inv gcm r
        → Inv gcm (unlock persistence gcm key now_ms (r, s)).1.0
    unfolding unlock
    unlock-Inv key now_ms r s v =
        ground (arith, ok-eq (validate_envelope_with_key gcm r.envelope key))

    pub factory_reset-Inv :
        (r : Runtime) (s : Store) → Inv gcm r → Inv gcm (factory_reset persistence gcm (r, s)).1.0
    unfolding factory_reset
    factory_reset-Inv r s v = ground arith
