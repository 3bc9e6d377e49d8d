-- ===== src/Provisioning/Sink/Pending.antt =====
-- The key that `CanonicalVmkSink` holds and the tests of an envelope against it
-- (canonical_v2_state.cpp).
use m5authenticator.Prelude.{
  ℕ, ◌+◌, Bool, true, false, not, ◌&&◌, ◌||◌, ltb, ◌==◌, if◌then◌else◌, Bytes, replicate, is_empty,
  bytes_eq, all_zero,
}
use m5authenticator.Session.{Operation, trusted_browser_unlock, operation_code}
use m5authenticator.Session.Attempts.Context.{BeginContext, blank_context}
use m5authenticator.Registration
use m5authenticator.Vault.{
  VaultEnvelope, vmk_bytes, is_supported_vault_format, target_storage_schema_version,
}
use m5authenticator.VaultRuntime.{Runtime, Status, is_ok, is_unprovisioned, is_reprovision}
use m5authenticator.VaultRuntime.Access.{Metadata}
use m5authenticator.Prelude.{saturating_deadline, u64_max}

abbrev pub pending_vault_vmk_ttl_ms : ℕ
pending_vault_vmk_ttl_ms = 30_000

pub record VmkSink : Type 0 where
  pub pending_vmk : Bytes
  pub pending_context : BeginContext
  pub pending : Bool
  pub deadline_armed : Bool
  pub pending_expires_at_ms : ℕ

-- `cancel_pending`, which overwrites every field, as the constructor does.
unfoldable pub cancelled : VmkSink
cancelled = record {
  pending_vmk = replicate vmk_bytes 0;
  pending_context = blank_context trusted_browser_unlock;
  pending = false;
  deadline_armed = false;
  pending_expires_at_ms = 0;
}

-- The sink with the two objects that it refers to, each with what its medium keeps.
pub record Device (P S : Type 0) : Type 0 where
  pub runtime : Runtime × P
  pub registration : Registration.Store × S
  pub sink : VmkSink

abbrev pub same_operation : Operation → Operation → Bool
same_operation a b = operation_code a == operation_code b

unfoldable pub envelope_matches_pending : VaultEnvelope → BeginContext → ℕ → Bool
envelope_matches_pending e c generation =
    is_supported_vault_format e.vault_format_version
    && e.storage_schema_version == target_storage_schema_version
    && bytes_eq e.vault_id c.vault_id
    && e.generation == generation
    && not (is_empty e.ciphertext)

unfoldable pub arm_pending_deadline : ℕ → VmkSink → VmkSink
arm_pending_deadline now_ms p = if not p.pending then p else record p {
  deadline_armed = true;
  pending_expires_at_ms = saturating_deadline now_ms pending_vault_vmk_ttl_ms;
}

unfoldable pub expire_pending : ℕ → VmkSink → Bool × VmkSink
expire_pending now_ms p =
    if not p.pending || not p.deadline_armed || ltb now_ms p.pending_expires_at_ms
    then (false, p)
    else (true, cancelled)

unfoldable pub pending_valid : Operation → ℕ → VmkSink → Bool × VmkSink
unfolding expire_pending
pending_valid operation now_ms p =
    let (_, p') = expire_pending now_ms p in
    (p'.pending && p'.deadline_armed && same_operation p'.pending_context.operation operation, p')

-- The key is kept until the Vault follows.
unfoldable pub held : BeginContext → Bytes → VmkSink
held context vmk = record {
  pending_vmk = vmk;
  pending_context = context;
  pending = true;
  deadline_armed = false;
  pending_expires_at_ms = 0;
}

-- A state in which a Device without a Vault takes one.
abbrev pub takes_vault : Metadata → Bool
takes_vault m = is_unprovisioned m.state || is_reprovision m.state

-- The conditions of the three calls that install a Vault, behind `pending_valid`.
unfoldable pub initial_allowed : VaultEnvelope → BeginContext → Bool
initial_allowed e c =
    c.expected_generation == 0
    && c.registration_epoch == 0
    && not (all_zero c.registration_id)
    && envelope_matches_pending e c 1

unfoldable pub recovered_allowed : VaultEnvelope → BeginContext → Bool
recovered_allowed e c =
    not (c.expected_generation == 0)
    && c.registration_epoch == 1
    && all_zero c.current_brk_public_key
    && not (all_zero c.registration_id)
    && envelope_matches_pending e c c.expected_generation

unfoldable pub rekeyed_allowed : ℕ → VaultEnvelope → BeginContext → Bool
rekeyed_allowed expected_generation e c =
    expected_generation == c.expected_generation
    && not (expected_generation == u64_max)
    && envelope_matches_pending e c (expected_generation + 1)

-- The next call, where the one before it succeeded.
abbrev pub and_then : {X : Type 0} → Status × X → (X → Status × X) → Status × X
and_then (status, x) f = let next = f x in if is_ok status then next else (status, x)
