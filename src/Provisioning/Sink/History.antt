-- ===== src/Provisioning/Sink/History.antt =====
-- Any calls of the sink, with those that other parts make of the runtime and the registration in
-- between.
use m5authenticator.Prelude.{
  ℕ, ◌≡◌, ◌⊎◌, inl, inr, Bool, true, false, Option, List, [], ◌∷◌, arith, Bytes,
  saturating_deadline,
}
use m5authenticator.Session.{Operation, initial_provisioning, recovery}
use m5authenticator.Session.Attempts.Context.{BeginContext}
use m5authenticator.Nvs.{Nvs}
use m5authenticator.Registration
use m5authenticator.Registration.Operations.{RegistrationKey}
use m5authenticator.Vault.{VaultEnvelope}
use m5authenticator.Vault.Crypto.{AesGcm}
use m5authenticator.VaultRuntime.{Persistence, Runtime}
use m5authenticator.VaultRuntime.Access.{Metadata, metadata}
use m5authenticator.VaultRuntime.Steps
use m5authenticator.Provisioning.Sink.{
  prepare_operation, replace_registration, recover, install_vmk, commit_vault, prepare_attempt,
  prepare_with, install_operation, unlock_device, cancel_pending, install_initial_vault,
  install_recovered_vault, install_rekeyed_vault,
}
use m5authenticator.Provisioning.Sink.Pending.{
  VmkSink, Device, cancelled, held, pending_vault_vmk_ttl_ms, arm_pending_deadline, expire_pending,
  pending_valid,
}

pub data Call (S : Type 0) : Type 0 where
  prepares : BeginContext → Call S
  delivers : BeginContext → Bytes → ℕ → Call S
  arms : ℕ → Call S
  expires : ℕ → Call S
  cancels : Call S
  installs_initial : VaultEnvelope → ℕ → Call S
  installs_recovered : VaultEnvelope → ℕ → Call S
  installs_rekeyed : ℕ → VaultEnvelope → ℕ → Call S
  -- What other parts do to the runtime and to the registration.
  runs : Steps.Call → Call S
  registers : (Registration.Store × S → Registration.Store × S) → Call S

-- The calls newest first: the last delivery was of this context and key, and what was held since has
-- not been dropped.
abbrev pub Delivered : {S : Type 0} → BeginContext → Bytes → List (Call S) → Type 0
Delivered c vmk (delivers context key now_ms ∷ h) = (c ≡ context) × (vmk ≡ key)
Delivered c vmk (arms now_ms ∷ h) = Delivered c vmk h
Delivered c vmk (expires now_ms ∷ h) = Delivered c vmk h
Delivered c vmk (runs a ∷ h) = Delivered c vmk h
Delivered c vmk (registers f ∷ h) = Delivered c vmk h
Delivered c vmk _ = ⊥

-- The last call that armed the deadline since that delivery gave this one.
abbrev pub Armed : {S : Type 0} → ℕ → List (Call S) → Type 0
Armed deadline (arms now_ms ∷ h) = deadline ≡ saturating_deadline now_ms pending_vault_vmk_ttl_ms
Armed deadline (expires now_ms ∷ h) = Armed deadline h
Armed deadline (runs a ∷ h) = Armed deadline h
Armed deadline (registers f ∷ h) = Armed deadline h
Armed deadline _ = ⊥

-- What is held is what was delivered, and nothing is left where nothing is held.
pub record Holds {S : Type 0} (h : List (Call S)) (p : VmkSink) : Type 0 where
  pub delivered : p.pending ≡ true → Delivered p.pending_context p.pending_vmk h
  pub armed : p.deadline_armed ≡ true → Armed p.pending_expires_at_ms h
  pub wiped : p.pending ≡ false → p ≡ cancelled

module _ {P S : Type 0} (persistence : Persistence P) (gcm : AesGcm) (nvs : Nvs RegistrationKey S)
    (valid_public_key : Bytes → Bool) where
  unfoldable pub step : Call S → Device P S → Device P S
  step (prepares c) d = (prepare_attempt persistence gcm nvs valid_public_key c d).1
  step (delivers c vmk now_ms) d =
      (install_vmk persistence gcm nvs valid_public_key c vmk now_ms d).1
  step (arms now_ms) d = record d { sink = arm_pending_deadline now_ms d.sink }
  step (expires now_ms) d = record d { sink = (expire_pending now_ms d.sink).1 }
  step cancels d = cancel_pending persistence gcm nvs valid_public_key d
  step (installs_initial e now_ms) d =
      (install_initial_vault persistence gcm nvs valid_public_key e now_ms d).1
  step (installs_recovered e now_ms) d =
      (install_recovered_vault persistence gcm nvs valid_public_key e now_ms d).1
  step (installs_rekeyed generation e now_ms) d =
      (install_rekeyed_vault persistence gcm nvs valid_public_key generation e now_ms d).1
  step (runs a) d = record d { runtime = Steps.step persistence gcm a d.runtime }
  step (registers f) d = record d { registration = f d.registration }

  -- From a new sink.
  unfoldable pub after : List (Call S) → Runtime × P → Registration.Store × S → Device P S
  unfolding step
  after [] x y = record { runtime = x; registration = y; sink = cancelled }
  after (a ∷ h) x y = step a (after h x y)

  cancelled-Holds : (h : List (Call S)) → Holds h cancelled
  unfolding cancelled
  cancelled-Holds h = ground arith

  held-Holds :
      (h : List (Call S)) (c : BeginContext) (vmk : Bytes) (now_ms : ℕ)
      → Holds (delivers c vmk now_ms ∷ h) (held c vmk)
  unfolding held
  held-Holds h c vmk now_ms = ground arith

  prepare-sink :
      (operation : Operation) (m : Option Metadata) (d : Device P S)
      → (prepare_with persistence gcm nvs valid_public_key operation m d).1.sink ≡ d.sink
  unfolding prepare_operation
  prepare-sink operation m d = ground arith

  replace_registration-sink :
      (c : BeginContext) (vmk : Bytes) (now_ms : ℕ) (d : Device P S)
      → (replace_registration persistence gcm nvs valid_public_key c vmk now_ms d).1.sink ≡ d.sink
  unfolding replace_registration
  replace_registration-sink c vmk now_ms d = ground arith

  recover-sink :
      (c : BeginContext) (vmk : Bytes) (now_ms : ℕ) (m : Option Metadata) (d : Device P S)
      → let p = (recover persistence gcm nvs valid_public_key c vmk now_ms m d).1.sink in
        (p ≡ d.sink) ⊎ (p ≡ held c vmk)
  unfolding recover
  recover-sink c vmk now_ms m d = ground (arith, replace_registration-sink c vmk now_ms d)

  install_vmk-sink :
      (c : BeginContext) (vmk : Bytes) (now_ms : ℕ) (d : Device P S)
      → let p = (install_vmk persistence gcm nvs valid_public_key c vmk now_ms d).1.sink in
        (p ≡ cancelled) ⊎ (p ≡ held c vmk)
  unfolding install_vmk install_operation unlock_device
  install_vmk-sink c vmk now_ms d =
      let d' = cancel_pending persistence gcm nvs valid_public_key d in
      ground (
        arith,
        recover-sink c vmk now_ms (metadata d.runtime.0) d',
        replace_registration-sink c vmk now_ms d',
      )

  commit_vault-sink :
      (e : VaultEnvelope) (now_ms : ℕ) (d : Device P S)
      → (commit_vault persistence gcm nvs valid_public_key e now_ms d).1.sink ≡ cancelled
  unfolding commit_vault
  commit_vault-sink e now_ms d = ground arith

  initial-sink :
      (e : VaultEnvelope) (now_ms : ℕ) (d : Device P S)
      → (install_initial_vault persistence gcm nvs valid_public_key e now_ms d).1.sink ≡ cancelled
  unfolding install_initial_vault
  initial-sink e now_ms d =
      let p = (pending_valid initial_provisioning now_ms d.sink).1 in
      ground (arith, commit_vault-sink e now_ms (record d { sink = p }))

  recovered-sink :
      (e : VaultEnvelope) (now_ms : ℕ) (d : Device P S)
      → (install_recovered_vault persistence gcm nvs valid_public_key e now_ms d).1.sink ≡ cancelled
  unfolding install_recovered_vault
  recovered-sink e now_ms d =
      let p = (pending_valid recovery now_ms d.sink).1 in
      ground (arith, commit_vault-sink e now_ms (record d { sink = p }))

  rekeyed-sink :
      (generation : ℕ) (e : VaultEnvelope) (now_ms : ℕ) (d : Device P S)
      → (install_rekeyed_vault persistence gcm nvs valid_public_key generation e now_ms d).1.sink
        ≡ cancelled
  unfolding install_rekeyed_vault
  rekeyed-sink generation e now_ms d = ground arith

  delivers-Holds :
      (h : List (Call S)) (c : BeginContext) (vmk : Bytes) (now_ms : ℕ) (p : VmkSink)
      → (p ≡ cancelled) ⊎ (p ≡ held c vmk)
      → Holds (delivers c vmk now_ms ∷ h) p
  delivers-Holds h c vmk now_ms p (inl e) = rw e (cancelled-Holds _)
  delivers-Holds h c vmk now_ms p (inr e) = rw e (held-Holds h c vmk now_ms)

  arms-Holds :
      (h : List (Call S)) (now_ms : ℕ) (p : VmkSink)
      → Holds h p
      → Holds (arms now_ms ∷ h) (arm_pending_deadline now_ms p)
  unfolding arm_pending_deadline cancelled
  arms-Holds h now_ms p v = ground arith

  expires-Holds :
      (h : List (Call S)) (now_ms : ℕ) (p : VmkSink)
      → Holds h p
      → Holds (expires now_ms ∷ h) (expire_pending now_ms p).1
  unfolding expire_pending
  expires-Holds h now_ms p v = ground (arith, cancelled-Holds (expires now_ms ∷ h))

  step-Holds :
      (a : Call S) (h : List (Call S)) (d : Device P S)
      → Holds h d.sink
      → Holds (a ∷ h) (step a d).sink
  unfolding step
  step-Holds (prepares c) h d v =
      unfold prepare_attempt in
      rw
        (prepare-sink c.operation (metadata d.runtime.0)
          (cancel_pending persistence gcm nvs valid_public_key d))
        (cancelled-Holds _)
  step-Holds (delivers c vmk now_ms) h d v =
      delivers-Holds h c vmk now_ms _ (install_vmk-sink c vmk now_ms d)
  step-Holds (arms now_ms) h d v = arms-Holds h now_ms d.sink v
  step-Holds (expires now_ms) h d v = expires-Holds h now_ms d.sink v
  step-Holds cancels h d v = cancelled-Holds _
  step-Holds (installs_initial e now_ms) h d v = rw (initial-sink e now_ms d) (cancelled-Holds _)
  step-Holds (installs_recovered e now_ms) h d v =
      rw (recovered-sink e now_ms d) (cancelled-Holds _)
  step-Holds (installs_rekeyed generation e now_ms) h d v =
      rw (rekeyed-sink generation e now_ms d) (cancelled-Holds _)
  step-Holds (runs a) h d v = record { delivered = v.delivered; armed = v.armed; wiped = v.wiped }
  step-Holds (registers f) h d v = record {
    delivered = v.delivered;
    armed = v.armed;
    wiped = v.wiped;
  }

  -- After any calls, a key that the sink holds is the one that was delivered last, with its context, and
  -- its deadline, if armed, is the one that was armed since; where the sink holds no key, every field of
  -- it is blank.
  pub after-Holds :
      (h : List (Call S)) (x : Runtime × P) (y : Registration.Store × S)
      → Holds h (after h x y).sink
  unfolding after
  after-Holds [] x y = cancelled-Holds []
  after-Holds (a ∷ h) x y = step-Holds a h (after h x y) (after-Holds h x y)
