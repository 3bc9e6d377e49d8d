-- ===== src/Session/Attempts/Honest.antt =====
-- An attempt whose two sides both follow the protocol: the browser's side of web/src/security/session-flow-v2.ts
-- and what its cryptography, that of the browser and of mbedTLS, is relied on for.
pub mod Completes
use m5authenticator.Prelude.{
  ℕ, ◌+◌, ◌≤◌, ◌<◌, ◌≡◌, Bool, true, false, Option, some, [], ◌++◌, arith, length, length-append,
  Bytes, ◌>>=◌, get_or, saturating_deadline, constant_time_equal_iff, replicate, refl, bind-eq-some,
  some_eq,
}
use m5authenticator.Presence.{attempt_ttl_ms}
use m5authenticator.Session.{
  TranscriptInput, transcript_bytes, encode_transcript, valid_p256_public_key, identities_fit,
  valid_optional_p256_identity, presence_operation,
}
use m5authenticator.Session.Transcript.{IsInput, length-append_be}
use m5authenticator.Session.Device.{
  AttemptDescriptor, Crypto, Draws, DeviceSession, drawn, matches_attempt, verify_brk_signature,
  open_vmk, decrypt,
}
use m5authenticator.Session.Device
use m5authenticator.Session.Attempts.{
  context_valid, transcript_input, begin, authenticate, authorize_transcript, authorize, complete,
  cancel,
}
use m5authenticator.Session.Attempts.Context.{
  BeginContext, AttemptCoordinator, PresenceBinding, awaiting_authorization, awaiting_presence,
  context_fits, brk_signature_required,
}

-- What the two sides rely on: the key agreement gives both the same secret, the cipher opens what it
-- sealed, and keys and tags have their sizes.
pub record CryptoLaws {K : Type 0} (crypto : Crypto K) (import_public_key : Bytes → Bool)
    : Type 0 where
  pub public_key : K → Bytes
  pub encrypt_vmk_gcm : Bytes → Bytes → Bytes → Bytes → Bytes × Bytes
  pub well_formed : (a : K) → valid_p256_public_key import_public_key (public_key a) ≡ true
  pub agreement :
      (a b : K) → crypto.derive_shared a (public_key b) ≡ crypto.derive_shared b (public_key a)
  pub sealed_sizes :
      (key nonce vmk aad : Bytes)
      → let (ciphertext, tag) = encrypt_vmk_gcm key nonce vmk aad in
        (length ciphertext ≡ length vmk) × (length tag ≡ 16)
  pub opened :
      (key nonce vmk aad : Bytes)
      → let (ciphertext, tag) = encrypt_vmk_gcm key nonce vmk aad in
        crypto.decrypt_vmk_gcm key nonce ciphertext tag aad ≡ some vmk

-- The transcript of an attempt that the Device began with these draws.
abbrev pub shared_input : BeginContext → Bytes → Bytes → Bytes → Bytes → TranscriptInput
shared_input context attempt_id challenge device_public_key web_public_key = record {
  operation = context.operation;
  device_id = context.device_id;
  vault_id = context.vault_id;
  expected_generation = context.expected_generation;
  registration_id = context.registration_id;
  registration_epoch = context.registration_epoch;
  attempt_id = attempt_id;
  challenge = challenge;
  device_ephemeral_public_key = device_public_key;
  web_ephemeral_public_key = web_public_key;
  current_brk_public_key = context.current_brk_public_key;
  proposed_brk_public_key = context.proposed_brk_public_key;
}

pub length-transcript_bytes :
    (input : TranscriptInput)
    → IsInput input
    → length (transcript_bytes input) ≡ 360 + length input.device_id
unfolding transcript_bytes
length-transcript_bytes input v = simp length-append (
    omega (
      arith,
      length-append_be 8 input.expected_generation,
      length-append_be 4 input.registration_epoch,
    ))

-- A valid context has a transcript.
pub encode_transcript-shared :
    (import_public_key : Bytes → Bool) (context : BeginContext)
    (attempt_id challenge device_key web_key : Bytes)
    → let input = shared_input context attempt_id challenge device_key web_key in
      IsInput input
      → context_valid import_public_key context ≡ true
      → valid_p256_public_key import_public_key device_key ≡ true
      → valid_p256_public_key import_public_key web_key ≡ true
      → encode_transcript import_public_key input ≡ some (transcript_bytes input)
unfolding encode_transcript context_valid context_fits identities_fit
encode_transcript-shared import_public_key context attempt_id challenge device_key web_key v h p q =
    ground (
      arith,
      length-transcript_bytes (shared_input context attempt_id challenge device_key web_key) v,
    )

-- What the two sides draw and ask for.
pub record Exchange (K : Type 0) : Type 0 where
  pub context : BeginContext
  pub attempt_id : Bytes
  pub challenge : Bytes
  pub device_key : K
  pub web_key : K
  pub begin_ms : ℕ

module _ {K : Type 0} {crypto : Crypto K} {import_public_key : Bytes → Bool}
    (laws : CryptoLaws crypto import_public_key) (x : Exchange K) where
  abbrev pub honest_draws : Draws K
  honest_draws = record {
    attempt_id = some x.attempt_id;
    challenge = some x.challenge;
    key_pair = some (x.device_key, laws.public_key x.device_key);
  }

  abbrev pub begun_descriptor : AttemptDescriptor
  begun_descriptor = record {
    attempt_id = x.attempt_id;
    challenge = x.challenge;
    device_public_key = laws.public_key x.device_key;
    expires_at_ms = saturating_deadline x.begin_ms attempt_ttl_ms;
  }

  abbrev pub honest_input : TranscriptInput
  honest_input =
      shared_input x.context x.attempt_id x.challenge (laws.public_key x.device_key)
        (laws.public_key x.web_key)

  -- The browser's side: the key that it agrees on with the Device's public key, and its seal.
  unfoldable pub web_seal : Bytes → Bytes → Option (Bytes × Bytes)
  web_seal nonce vmk =
      crypto.derive_shared x.web_key (laws.public_key x.device_key) >>= λ shared_secret.
      crypto.derive_hkdf shared_secret (x.attempt_id ++ x.challenge) (transcript_bytes honest_input)
      >>= λ session_key.
          some (laws.encrypt_vmk_gcm session_key nonce vmk (transcript_bytes honest_input))

  -- The registered browser signs where it has to, and nothing is sent otherwise.
  pub record Signs (signature : Bytes) : Type 0 where
    pub signed :
        brk_signature_required x.context.operation ≡ true
        → (length signature ≡ 64)
          × (crypto.verify_brk x.context.current_brk_public_key
                (transcript_bytes honest_input)
                signature
              ≡ true)
    pub unsigned : brk_signature_required x.context.operation ≡ false → signature ≡ []

  pub generated : DeviceSession K
  generated = record {
    attempt_id = x.attempt_id;
    challenge = x.challenge;
    device_public_key = laws.public_key x.device_key;
    expires_at_ms = saturating_deadline x.begin_ms attempt_ttl_ms;
    active = true;
    key = some x.device_key;
  }

  pub begin-generated : Device.begin honest_draws x.begin_ms ≡ generated
  unfolding Device.begin drawn generated valid_p256_public_key
  begin-generated = ground (arith, laws.well_formed x.device_key)

  pub started : AttemptCoordinator K
  unfolding generated
  started = record {
    crypto = generated;
    context = x.context;
    descriptor = begun_descriptor;
    web_public_key = replicate 65 0;
    transcript = [];
    active = true;
    state = awaiting_authorization;
  }

  pub authorized : AttemptCoordinator K
  unfolding started
  authorized = record started {
    web_public_key = laws.public_key x.web_key;
    transcript = transcript_bytes honest_input;
    state = awaiting_presence;
  }

  pub matches-generated :
      (later_ms : ℕ)
      → later_ms < saturating_deadline x.begin_ms attempt_ttl_ms
      → matches_attempt x.attempt_id later_ms generated ≡ (true, generated)
  unfolding matches_attempt generated
  matches-generated later_ms h =
      ground (arith, (constant_time_equal_iff x.attempt_id x.attempt_id).1 refl)
