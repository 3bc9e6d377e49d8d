-- ===== src/Session/Attempts.antt =====
-- The class `AttemptCoordinator` (attempt_coordinator.cpp): one attempt of the browser to hand over the
-- Vault's key. The object with the button is the interface `PresenceBinding`, over any state of its own.
-- The wiping of the transcripts is left out where it is not the coordinator's own.
pub mod Context
pub mod Authorized
pub mod Delivery
pub mod Honest
use m5authenticator.Prelude.{
  ℕ, Bool, true, false, not, ◌&&◌, ◌||◌, Option, none, some, [], ◌++◌, ltb, leb, ◌==◌,
  if◌then◌else◌, length, Bytes, replicate, is_empty, all_zero,
}
use m5authenticator.Presence.{PresenceOperation}
use m5authenticator.Session.{
  Operation, trusted_browser_unlock, initial_provisioning, recovery, browser_replacement, vmk_rekey,
  presence_operation, TranscriptInput, encode_transcript, is_zero_public_key,
  valid_optional_p256_identity, max_device_id_bytes,
}
use m5authenticator.Session.Device
use m5authenticator.Session.Device.{
  AttemptDescriptor, Crypto, Draws, DeviceSession, reset, descriptor_of, matches_attempt,
  verify_brk_signature, open_vmk, brk_signature_bytes,
}
use m5authenticator.Session.Attempts.Context.{
  BeginContext, AttemptState, idle, awaiting_authorization, awaiting_presence, confirmed,
  is_awaiting_authorization, is_awaiting_presence, is_confirmed, PresenceBinding,
  AttemptCoordinator, context_fits, brk_signature_required, hkdf_salt, blank_descriptor,
  blank_context,
}

module _ {K : Type 0} where
  unfoldable pub wipe_staged : AttemptCoordinator K → AttemptCoordinator K
  wipe_staged c = record {
    crypto = c.crypto;
    context = blank_context c.context.operation;
    descriptor = blank_descriptor;
    web_public_key = replicate 65 0;
    transcript = [];
    active = false;
    state = idle;
  }

  unfoldable pub new_coordinator : AttemptCoordinator K
  new_coordinator = record {
    crypto = reset;
    context = blank_context trusted_browser_unlock;
    descriptor = blank_descriptor;
    web_public_key = replicate 65 0;
    transcript = [];
    active = false;
    state = idle;
  }

  unfoldable pub transcript_input : AttemptCoordinator K → Bytes → TranscriptInput
  transcript_input c web_public_key = record {
    operation = c.context.operation;
    device_id = c.context.device_id;
    vault_id = c.context.vault_id;
    expected_generation = c.context.expected_generation;
    registration_id = c.context.registration_id;
    registration_epoch = c.context.registration_epoch;
    attempt_id = c.descriptor.attempt_id;
    challenge = c.descriptor.challenge;
    device_ephemeral_public_key = c.descriptor.device_public_key;
    web_ephemeral_public_key = web_public_key;
    current_brk_public_key = c.context.current_brk_public_key;
    proposed_brk_public_key = c.context.proposed_brk_public_key;
  }

module _ (import_public_key : Bytes → Bool) where
  unfoldable pub context_valid : BeginContext → Bool
  context_valid context =
      not (is_empty context.device_id || ltb max_device_id_bytes (length context.device_id))
      && not (all_zero context.registration_id)
      && valid_optional_p256_identity import_public_key context.current_brk_public_key
      && valid_optional_p256_identity import_public_key context.proposed_brk_public_key
      && context_fits context.operation context.current_brk_public_key
          context.proposed_brk_public_key context.registration_epoch

module _ {K U : Type 0} (crypto : Crypto K) (import_public_key : Bytes → Bool)
    (presence : PresenceBinding U) where
  unfoldable pub cancel : AttemptCoordinator K × U → AttemptCoordinator K × U
  cancel (c, u) = (wipe_staged (record c { crypto = reset }), presence.cancel_presence u)

  unfoldable pub begin :
      Draws K
      → BeginContext
      → ℕ
      → AttemptCoordinator K × U
      → Option AttemptDescriptor × (AttemptCoordinator K × U)
  begin draws context now_ms (c, u) =
      let (c', u') = cancel (c, u) in
      let generated = Device.begin draws now_ms in
      let begun : AttemptCoordinator K = record {
        crypto = generated;
        context = context;
        descriptor = descriptor_of generated;
        web_public_key = replicate 65 0;
        transcript = [];
        active = true;
        state = awaiting_authorization;
      } in
      if not (context_valid import_public_key context)
      then (none, (c', u'))
      else if not generated.active
      then (none, (record c' { crypto = generated }, u'))
      else (some (descriptor_of generated), (begun, u'))

  -- The signature, where one is required or given.
  unfoldable pub authenticate :
      Bytes → Bytes → ℕ → AttemptCoordinator K → DeviceSession K → Bool × DeviceSession K
  authenticate transcript brk_signature now_ms c d =
      let key = c.context.current_brk_public_key in
      let verified = verify_brk_signature crypto key transcript brk_signature now_ms d in
      if brk_signature_required c.context.operation
      then (if not (length brk_signature == brk_signature_bytes) then (false, d) else verified)
      else if is_empty brk_signature
      then (true, d)
      else if is_zero_public_key key || not (length brk_signature == brk_signature_bytes)
      then (false, d)
      else verified

  -- `authorize` behind the transcript.
  unfoldable pub authorize_transcript :
      Bytes
      → Bytes
      → ℕ
      → AttemptCoordinator K × U
      → Option Bytes
      → Bool × (AttemptCoordinator K × U)
  authorize_transcript web_public_key brk_signature now_ms (c, u) none = (false, cancel (c, u))
  authorize_transcript web_public_key brk_signature now_ms (c, u) (some transcript) =
      let (authenticated, d) = authenticate transcript brk_signature now_ms c c.crypto in
      let (begun, u') =
        presence.begin_presence (presence_operation c.context.operation) c.descriptor.attempt_id
          now_ms u in
      if not authenticated
      then (false, cancel (c, u))
      else if not begun
      then (false, cancel (c, u'))
      else (
        true,
        (
          record c {
            crypto = d;
            web_public_key = web_public_key;
            transcript = transcript;
            state = awaiting_presence;
          },
          u',
        ),
      )

  unfoldable pub authorize :
      Bytes → Bytes → ℕ → AttemptCoordinator K × U → Bool × (AttemptCoordinator K × U)
  authorize web_public_key brk_signature now_ms (c, u) =
      let (matched, d) = matches_attempt c.descriptor.attempt_id now_ms c.crypto in
      let transcript = encode_transcript import_public_key (transcript_input c web_public_key) in
      let authorized =
        authorize_transcript web_public_key brk_signature now_ms (record c { crypto = d }, u)
          transcript in
      if not c.active || not (is_awaiting_authorization c.state) || not matched
      then (false, cancel (c, u))
      else authorized

  unfoldable pub complete :
      Bytes
      → Bytes
      → Bytes
      → ℕ
      → AttemptCoordinator K × U
      → Option Bytes × (AttemptCoordinator K × U)
  complete nonce ciphertext tag now_ms (c, u) =
      let (matched, d) = matches_attempt c.descriptor.attempt_id now_ms c.crypto in
      let (consumed, u') = presence.consume_presence c.descriptor.attempt_id now_ms u in
      let (opened, d') =
        open_vmk crypto c.web_public_key (hkdf_salt c.descriptor) c.transcript nonce ciphertext tag
          c.transcript now_ms d in
      if not c.active || not (is_awaiting_presence c.state || is_confirmed c.state) || not matched
      then (none, cancel (c, u))
      else if not consumed
      then (none, cancel (c, u'))
      else (opened, (wipe_staged (record c { crypto = d' }), u'))

  unfoldable pub expire : ℕ → AttemptCoordinator K × U → Bool × (AttemptCoordinator K × U)
  expire now_ms (c, u) =
      let (crypto_expired, d) = Device.expire now_ms c.crypto in
      if not c.active
      then (false, (c, u))
      else if crypto_expired || leb c.descriptor.expires_at_ms now_ms
      then (true, cancel (c, u))
      else (false, (record c { crypto = d }, u))

  unfoldable pub state_of : AttemptCoordinator K × U → AttemptState
  state_of (c, u) =
      if c.active && is_awaiting_presence c.state && presence.presence_confirmed u
      then confirmed
      else c.state
