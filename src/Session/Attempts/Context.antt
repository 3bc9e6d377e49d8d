-- ===== src/Session/Attempts/Context.antt =====
-- The context and the state of an attempt (attempt_coordinator.cpp).
use m5authenticator.Prelude.{ℕ, Bool, true, false, not, ◌&&◌, [], ◌++◌, ltb, ◌==◌, Bytes, replicate}
use m5authenticator.Presence.{PresenceOperation}
use m5authenticator.Session.{
  Operation, trusted_browser_unlock, initial_provisioning, recovery, browser_replacement, vmk_rekey,
  is_zero_public_key,
}
use m5authenticator.Session.Device.{AttemptDescriptor, DeviceSession}

pub record BeginContext : Type 0 where
  pub operation : Operation
  pub device_id : Bytes
  pub vault_id : Bytes
  pub expected_generation : ℕ
  pub registration_id : Bytes
  pub registration_epoch : ℕ
  pub current_brk_public_key : Bytes
  pub proposed_brk_public_key : Bytes

pub data AttemptState : Type 0 where
  idle awaiting_authorization awaiting_presence confirmed : AttemptState

abbrev pub is_awaiting_authorization : AttemptState → Bool
is_awaiting_authorization awaiting_authorization = true
is_awaiting_authorization _ = false

abbrev pub is_awaiting_presence : AttemptState → Bool
is_awaiting_presence awaiting_presence = true
is_awaiting_presence _ = false

abbrev pub is_confirmed : AttemptState → Bool
is_confirmed confirmed = true
is_confirmed _ = false

pub record PresenceBinding (U : Type 0) : Type 0 where
  pub begin_presence : PresenceOperation → Bytes → ℕ → U → Bool × U
  pub consume_presence : Bytes → ℕ → U → Bool × U
  pub cancel_presence : U → U
  pub presence_confirmed : U → Bool

pub record AttemptCoordinator (K : Type 0) : Type 0 where
  pub crypto : DeviceSession K
  pub context : BeginContext
  pub descriptor : AttemptDescriptor
  pub web_public_key : Bytes
  pub transcript : Bytes
  pub active : Bool
  pub state : AttemptState

-- The second `switch` of `context_valid`.
unfoldable pub context_fits : Operation → Bytes → Bytes → ℕ → Bool
context_fits trusted_browser_unlock current proposed epoch =
    ltb 0 epoch && not (is_zero_public_key current)
context_fits vmk_rekey current proposed epoch = ltb 0 epoch && not (is_zero_public_key current)
context_fits initial_provisioning current proposed epoch =
    epoch == 0 && is_zero_public_key current && not (is_zero_public_key proposed)
context_fits recovery current proposed epoch = ltb 0 epoch && not (is_zero_public_key proposed)
context_fits browser_replacement current proposed epoch =
    ltb 0 epoch && not (is_zero_public_key proposed)

unfoldable pub brk_signature_required : Operation → Bool
brk_signature_required trusted_browser_unlock = true
brk_signature_required vmk_rekey = true
brk_signature_required _ = false

abbrev pub hkdf_salt : AttemptDescriptor → Bytes
hkdf_salt descriptor = descriptor.attempt_id ++ descriptor.challenge

abbrev pub blank_descriptor : AttemptDescriptor
blank_descriptor = record {
  attempt_id = replicate 16 0;
  challenge = replicate 32 0;
  device_public_key = replicate 65 0;
  expires_at_ms = 0;
}

-- The kind of the operation stays.
abbrev pub blank_context : Operation → BeginContext
blank_context operation = record {
  operation = operation;
  device_id = [];
  vault_id = replicate 16 0;
  expected_generation = 0;
  registration_id = replicate 16 0;
  registration_epoch = 0;
  current_brk_public_key = replicate 65 0;
  proposed_brk_public_key = replicate 65 0;
}
