-- ===== src/Provisioning/Sink/Install.antt =====
-- What an installation of a Vault has done where it succeeds, and that one that fails leaves no key.
use m5authenticator.Prelude.{ℕ, ◌+◌, ◌≤◌, ◌<◌, ◌≡◌, Bool, true, arith, Bytes, bytes_eq_iff, u64_max}
use m5authenticator.Session.{Operation, initial_provisioning, recovery, vmk_rekey}
use m5authenticator.Session.Attempts.Context.{BeginContext}
use m5authenticator.Nvs.{Nvs}
use m5authenticator.Registration
use m5authenticator.Registration.Operations.{RegistrationKey}
use m5authenticator.Registration.Operations
use m5authenticator.Vault.{VaultEnvelope}
use m5authenticator.Vault.Crypto.{AesGcm}
use m5authenticator.VaultRuntime.{Persistence, Runtime, Status, unlocked, ok}
use m5authenticator.VaultRuntime.Invariant.{same_envelope-eq}
use m5authenticator.Provisioning.Sink.{
  store_vault, commit_vault, install_initial_vault, install_recovered_vault, install_rekeyed_vault,
}
use m5authenticator.Provisioning.Sink.Pending.{
  VmkSink, same_operation, pending_valid, expire_pending, cancelled, Device,
  envelope_matches_pending, initial_allowed, recovered_allowed, rekeyed_allowed,
}
use m5authenticator.VaultRuntime.Operations.{
  unlock, finish_install, install_encrypted_vault, reload_after_persistence, format_for_schema2,
}
use m5authenticator.VaultRuntime.Session.{Commits, rekey_encrypted_vault-Commits}

-- The runtime is unlocked since `now_ms` under the key `vmk`, with the envelope `e`.
pub record Unlocked (e : VaultEnvelope) (vmk : Bytes) (now_ms : ℕ) (r : Runtime) : Type 0 where
  pub open_now : r.state ≡ unlocked
  pub resident : r.vmk ≡ vmk
  pub active : r.envelope ≡ e
  pub since : r.unlocked_since_ms ≡ now_ms

-- The store holds this registration.
pub record Registered (vault_id id : Bytes) (epoch : ℕ) (key : Bytes) (g : Registration.Store)
    : Type 0 where
  pub present : g.current.registration_present ≡ true
  pub same_vault : g.current.vault_id ≡ vault_id
  pub same_id : g.current.registration_id ≡ id
  pub same_epoch : g.current.epoch ≡ epoch
  pub same_key : g.current.brk_public_key ≡ key

-- The key was held for this operation and its deadline had not come.
pub record Waiting (operation : Operation) (now_ms : ℕ) (p : VmkSink) : Type 0 where
  pub waits : p.pending ≡ true
  pub armed : p.deadline_armed ≡ true
  pub in_time : now_ms < p.pending_expires_at_ms
  pub same : p.pending_context.operation ≡ operation

same_operation-eq : (a b : Operation) → same_operation a b ≡ true → a ≡ b
same_operation-eq a b h = ground arith

pub pending_valid-Waiting :
    (operation : Operation) (now_ms : ℕ) (p : VmkSink)
    → (pending_valid operation now_ms p).0 ≡ true
    → Waiting operation now_ms p × ((pending_valid operation now_ms p).1 ≡ p)
unfolding pending_valid expire_pending cancelled
pending_valid-Waiting operation now_ms p h =
    ground (arith, same_operation-eq p.pending_context.operation operation)

module _ {P S : Type 0} (persistence : Persistence P) (gcm : AesGcm) (nvs : Nvs RegistrationKey S)
    (valid_public_key : Bytes → Bool) where
  unlock-Unlocked :
      (vmk : Bytes) (now_ms : ℕ) (r : Runtime) (s : P)
      → (unlock persistence gcm vmk now_ms (r, s)).0 ≡ ok
      → Unlocked r.envelope vmk now_ms (unlock persistence gcm vmk now_ms (r, s)).1.0
  unfolding unlock
  unlock-Unlocked vmk now_ms r s h = ground arith

  finish_install-active :
      (e : VaultEnvelope) (x : Status × (Runtime × P))
      → (finish_install persistence gcm e x).0 ≡ ok
      → (finish_install persistence gcm e x).1.0.envelope ≡ e
  unfolding finish_install
  finish_install-active e (status, (r, s)) h = ground (arith, same_envelope-eq r.envelope e)

  install-active :
      (e : VaultEnvelope) (vmk : Bytes) (r : Runtime) (s : P)
      → (install_encrypted_vault persistence gcm e vmk (r, s)).0 ≡ ok
      → (install_encrypted_vault persistence gcm e vmk (r, s)).1.0.envelope ≡ e
  unfolding install_encrypted_vault
  install-active e vmk r s h =
      let s' = (persistence.replace_envelope 0 e s).1 in
      ground (arith, finish_install-active e (reload_after_persistence persistence gcm (r, s')))

  store_vault-Unlocked :
      (e : VaultEnvelope) (vmk : Bytes) (now_ms : ℕ) (r : Runtime) (s : P)
      → (store_vault persistence gcm nvs valid_public_key e vmk now_ms (r, s)).0 ≡ ok
      → Unlocked e vmk now_ms
          (store_vault persistence gcm nvs valid_public_key e vmk now_ms (r, s)).1.0
  unfolding store_vault
  store_vault-Unlocked e vmk now_ms r s h =
      let (r1, s1) = (format_for_schema2 persistence gcm (r, s)).1 in
      let (r2, s2) = (install_encrypted_vault persistence gcm e vmk (r1, s1)).1 in
      ground (arith, install-active e vmk r1 s1, unlock-Unlocked vmk now_ms r2 s2)

  persist-Registered :
      (vault_id id : Bytes) (epoch : ℕ) (key : Bytes) (g : Registration.Store) (s : S)
      → (Registration.Operations.persist_registration nvs valid_public_key vault_id id epoch key
          (g, s)).0
        ≡ Registration.ok
      → Registered vault_id id epoch key
          (Registration.Operations.persist_registration nvs valid_public_key vault_id id epoch key
            (g, s)).1.0
  unfolding Registration.Operations.persist_registration Registration.Operations.map_error
  persist-Registered vault_id id epoch key g s h = ground arith

  install_initial-Registered :
      (c : BeginContext) (g : Registration.Store) (s : S)
      → (Registration.Operations.install_initial nvs valid_public_key c.vault_id c.registration_id 1
          c.proposed_brk_public_key
          (g, s)).0
        ≡ Registration.ok
      → Registered c.vault_id c.registration_id 1 c.proposed_brk_public_key
          (Registration.Operations.install_initial nvs valid_public_key c.vault_id c.registration_id
            1 c.proposed_brk_public_key
            (g, s)).1.0
  unfolding Registration.Operations.install_initial
  install_initial-Registered c g s h =
      let loaded =
        Registration.Operations.load_registration nvs valid_public_key g.current.device_id s in
      ground (
        arith,
        persist-Registered c.vault_id c.registration_id 1 c.proposed_brk_public_key
            (Registration.Operations.refreshed nvs valid_public_key g loaded.0.1) loaded.1,
      )

  pub replace-Registered :
      (c : BeginContext) (epoch : ℕ) (g : Registration.Store) (s : S)
      → (Registration.Operations.replace nvs valid_public_key c.vault_id epoch c.registration_id
          c.registration_epoch c.proposed_brk_public_key
          (g, s)).0
        ≡ Registration.ok
      → Registered c.vault_id c.registration_id c.registration_epoch c.proposed_brk_public_key
          (Registration.Operations.replace nvs valid_public_key c.vault_id epoch c.registration_id
            c.registration_epoch c.proposed_brk_public_key
            (g, s)).1.0
  unfolding Registration.Operations.replace
  replace-Registered c epoch g s h =
      let loaded =
        Registration.Operations.load_registration nvs valid_public_key g.current.device_id s in
      ground (
        arith,
        persist-Registered c.vault_id c.registration_id c.registration_epoch
            c.proposed_brk_public_key
            (Registration.Operations.refreshed nvs valid_public_key g loaded.0.1) loaded.1,
      )

  -- What a successful installation of a Vault has done.
  pub record Installed (e : VaultEnvelope) (now_ms : ℕ) (p : VmkSink) (d : Device P S)
      : Type 0 where
    pub in_use : Unlocked e p.pending_vmk now_ms d.runtime.0
    pub of_vault : e.vault_id ≡ p.pending_context.vault_id
    pub registered :
        Registered p.pending_context.vault_id p.pending_context.registration_id 1
          p.pending_context.proposed_brk_public_key d.registration.0
    pub over : d.sink ≡ cancelled

  commit_vault-Installed :
      (e : VaultEnvelope) (now_ms : ℕ) (d : Device P S)
      → (commit_vault persistence gcm nvs valid_public_key e now_ms d).0 ≡ true
      → e.vault_id ≡ d.sink.pending_context.vault_id
      → Installed e now_ms d.sink (commit_vault persistence gcm nvs valid_public_key e now_ms d).1
  unfolding commit_vault
  commit_vault-Installed e now_ms d h k = ground (
    arith,
    store_vault-Unlocked e d.sink.pending_vmk now_ms d.runtime.0 d.runtime.1,
    install_initial-Registered d.sink.pending_context d.registration.0 d.registration.1,
  )

  envelope_matches-eq :
      (e : VaultEnvelope) (c : BeginContext) (generation : ℕ)
      → envelope_matches_pending e c generation ≡ true
      → (e.vault_id ≡ c.vault_id) × (e.generation ≡ generation)
  unfolding envelope_matches_pending
  envelope_matches-eq e c generation h = ground (arith, bytes_eq_iff e.vault_id c.vault_id)

  pub install_initial_vault-Installed :
      (e : VaultEnvelope) (now_ms : ℕ) (d : Device P S)
      → (install_initial_vault persistence gcm nvs valid_public_key e now_ms d).0 ≡ true
      → Waiting initial_provisioning now_ms d.sink
        × (e.generation ≡ 1)
        × Installed e now_ms d.sink
            (install_initial_vault persistence gcm nvs valid_public_key e now_ms d).1
  unfolding install_initial_vault initial_allowed
  install_initial_vault-Installed e now_ms d h = ground (
    arith,
    pending_valid-Waiting initial_provisioning now_ms d.sink,
    envelope_matches-eq e d.sink.pending_context 1,
    commit_vault-Installed e now_ms d,
  )

  pub install_recovered_vault-Installed :
      (e : VaultEnvelope) (now_ms : ℕ) (d : Device P S)
      → (install_recovered_vault persistence gcm nvs valid_public_key e now_ms d).0 ≡ true
      → Waiting recovery now_ms d.sink
        × (e.generation ≡ d.sink.pending_context.expected_generation)
        × Installed e now_ms d.sink
            (install_recovered_vault persistence gcm nvs valid_public_key e now_ms d).1
  unfolding install_recovered_vault recovered_allowed
  install_recovered_vault-Installed e now_ms d h = ground (
    arith,
    pending_valid-Waiting recovery now_ms d.sink,
    envelope_matches-eq e d.sink.pending_context d.sink.pending_context.expected_generation,
    commit_vault-Installed e now_ms d,
  )

  pub install_rekeyed_vault-Commits :
      (generation : ℕ) (e : VaultEnvelope) (now_ms : ℕ) (d : Device P S)
      → d.runtime.0.envelope.generation ≤ u64_max
      → (install_rekeyed_vault persistence gcm nvs valid_public_key generation e now_ms d).0 ≡ true
      → let d' =
          (install_rekeyed_vault persistence gcm nvs valid_public_key generation e now_ms d).1 in
        Waiting vmk_rekey now_ms d.sink
        × (generation ≡ d.sink.pending_context.expected_generation)
        × (e.vault_id ≡ d.sink.pending_context.vault_id)
        × Commits e d.runtime.0 d'.runtime.0
        × (d'.runtime.0.vmk ≡ d.sink.pending_vmk)
        × (d'.sink ≡ cancelled)
  unfolding install_rekeyed_vault rekeyed_allowed
  install_rekeyed_vault-Commits generation e now_ms d b h = ground (
    arith,
    pending_valid-Waiting vmk_rekey now_ms d.sink,
    envelope_matches-eq e d.sink.pending_context (generation + 1),
    rekey_encrypted_vault-Commits persistence gcm generation e d.sink.pending_vmk d.runtime.0
        d.runtime.1 b,
  )
