-- ===== src/VaultRuntime/Commit.antt =====
-- The calls that open or replace the envelope keep the invariant.
use m5authenticator.Prelude.{ℕ, ◌≡◌, refl, true, Option, arith, Bytes}
use m5authenticator.VaultRuntime.{
  Runtime, Status, Persistence, PersistedSnapshot, ok, valid_envelope_framing,
  validate_envelope_with_key, is_ok,
}
use m5authenticator.VaultRuntime.Operations.{
  install_encrypted_vault, finish_install, reload_after_persistence,
}
use m5authenticator.VaultRuntime.Operations.Boundaries.{committed, adopt_committed}
use m5authenticator.VaultRuntime.Access.{update_encrypted_vault, rekey_encrypted_vault}
use m5authenticator.VaultRuntime.Invariant.{
  Inv, ok-eq, fatal_security_error-Inv, validate-framed, same_envelope-eq, reload_from-Inv,
}
use m5authenticator.Vault.{VaultEnvelope}
use m5authenticator.Vault.Crypto.{AesGcm}

module _ (gcm : AesGcm) where
  adopt_committed-Inv :
      (s : PersistedSnapshot) (e : VaultEnvelope) (key : Bytes) (policy : Option ℕ) (r : Runtime)
      → r.initialized ≡ true
      → r.unlock_session_active ≡ true
      → validate_envelope_with_key gcm e key ≡ (ok, policy)
      → valid_envelope_framing e ≡ true
      → s.envelope ≡ e
      → Inv gcm
          (record (adopt_committed s r) { vmk = key; vmk_present = true; auto_lock_days = policy })
  adopt_committed-Inv s e key policy r i a v f same = record {
    has_key = refl;
    wiped = λ h. cc;
    authentic = λ _. rw same v;
    provisioned = λ _. refl;
    framed = λ _. rw same f;
    empty = λ h. cc;
    session = λ _. a;
    session_state = λ _. refl;
    no_session = λ h. ground arith;
    started = λ _. i;
  }

  committed-Inv :
      (status : Status) (s : PersistedSnapshot) (e : VaultEnvelope) (key : Bytes) (r : Runtime)
      → r.initialized ≡ true
      → r.unlock_session_active ≡ true
      → is_ok (validate_envelope_with_key gcm e key).0 ≡ true
      → committed status s e ≡ true
      → Inv gcm (record (adopt_committed s r) {
        vmk = key;
        vmk_present = true;
        auto_lock_days = (validate_envelope_with_key gcm e key).1;
      })
  unfolding committed
  committed-Inv status s e key r i a h c =
      adopt_committed-Inv s e key (validate_envelope_with_key gcm e key).1 r i a
        (ok-eq gcm (validate_envelope_with_key gcm e key) h) (validate-framed gcm e key h)
        (same_envelope-eq s.envelope e (ground arith))

  module _ {Store : Type 0} (persistence : Persistence Store) where
    pub install_encrypted_vault-Inv :
        (e : VaultEnvelope) (key : Bytes) (r : Runtime) (s : Store)
        → Inv gcm r
        → Inv gcm (install_encrypted_vault persistence gcm e key (r, s)).1.0
    unfolding install_encrypted_vault finish_install reload_after_persistence
    install_encrypted_vault-Inv e key r s v =
        let s' = (persistence.replace_envelope 0 e s).1 in
        ground (arith, reload_from-Inv gcm (persistence.load s').0 (persistence.load s').1 r)

    pub update_encrypted_vault-Inv :
        (generation : ℕ) (e : VaultEnvelope) (now_ms : ℕ) (r : Runtime) (s : Store)
        → Inv gcm r
        → Inv gcm (update_encrypted_vault persistence gcm generation e now_ms (r, s)).1.1.0
    unfolding update_encrypted_vault
    update_encrypted_vault-Inv generation e now_ms r s v =
        let s' = (persistence.replace_envelope generation e s).1 in
        ground (
          arith,
          committed-Inv (persistence.load s').0 (persistence.load s').1 e r.vmk r,
          fatal_security_error-Inv gcm r v,
        )

    pub rekey_encrypted_vault-Inv :
        (generation : ℕ) (e : VaultEnvelope) (key : Bytes) (r : Runtime) (s : Store)
        → Inv gcm r
        → Inv gcm (rekey_encrypted_vault persistence gcm generation e key (r, s)).1.0
    unfolding rekey_encrypted_vault
    rekey_encrypted_vault-Inv generation e key r s v =
        let s' = (persistence.replace_envelope generation e s).1 in
        ground (arith, committed-Inv (persistence.load s').0 (persistence.load s').1 e key r)
