-- ===== src/Session/Tests.antt =====
-- One attempt with a toy of the cryptography and the real gate, and the encodings on small inputs.
use m5authenticator.Prelude.{
  ℕ, ◌≡◌, refl, ◌↔◌, Bool, true, false, none, some, List, [], ◌∷◌, arith, if◌then◌else◌, Bytes,
  replicate, bytes_eq, all_zero, codes, get_or,
}
use m5authenticator.Presence.{
  UserPresenceGate, cleared, observe_input_state, confirm_current, consume_confirmation,
}
use m5authenticator.Presence
use m5authenticator.Session.{
  TranscriptInput, trusted_browser_unlock, encode_transcript, transcript_bytes, append_be,
  valid_p256_public_key, valid_optional_p256_identity, identities_fit,
}
use m5authenticator.Session.Transcript.{IsInput, encode_transcript-injective}
use m5authenticator.Session.Base64.{base64url_encode, base64url_decode}
use m5authenticator.Session.Base64.RoundTrip.{base64url_decode_iff}
use m5authenticator.Session.Device.{Crypto, Draws, reset}
use m5authenticator.Session.Device
use m5authenticator.Session.Attempts.{begin}
use m5authenticator.Session.Attempts.Context.{BeginContext, PresenceBinding}
use m5authenticator.Session.Attempts.Authorized.{Call, begins, authorizes, moves}
use m5authenticator.Unlock.{Event, attempts, acts}
use m5authenticator.Unlock
use m5authenticator.Ui.Steps.{observes, presses}
use m5authenticator.Ui

base64url_decode_iff_example :
    (base64url_decode (codes "TTVB") ≡ some (77 ∷ 53 ∷ 65 ∷ []))
    ↔ (codes "TTVB" ≡ base64url_encode (77 ∷ 53 ∷ 65 ∷ []))
base64url_decode_iff_example =
    base64url_decode_iff (codes "TTVB") (77 ∷ 53 ∷ 65 ∷ []) (ground arith)

abbrev device_key : Bytes
device_key = 4 ∷ replicate 64 1

abbrev pub web_key : Bytes
web_key = 4 ∷ replicate 64 2

abbrev pub brk_key : Bytes
brk_key = 4 ∷ replicate 64 3

abbrev pub any_key : Bytes → Bool
any_key key = true

abbrev input : TranscriptInput
input = record {
  operation = trusted_browser_unlock;
  device_id = 97 ∷ 98 ∷ [];
  vault_id = replicate 16 5;
  expected_generation = 3;
  registration_id = replicate 16 6;
  registration_epoch = 1;
  attempt_id = replicate 16 7;
  challenge = replicate 32 8;
  device_ephemeral_public_key = device_key;
  web_ephemeral_public_key = web_key;
  current_brk_public_key = brk_key;
  proposed_brk_public_key = replicate 65 0;
}

input-IsInput : IsInput input
input-IsInput = record {
  vault_id_size = refl;
  generation_fits = ground arith;
  registration_id_size = refl;
  epoch_fits = ground arith;
  attempt_id_size = refl;
  challenge_size = refl;
  device_key_size = refl;
  web_key_size = refl;
  current_key_size = refl;
  proposed_key_size = refl;
}

encodes_input : encode_transcript any_key input ≡ some (transcript_bytes input)
unfolding encode_transcript transcript_bytes append_be valid_p256_public_key
    valid_optional_p256_identity identities_fit all_zero
encodes_input = refl

encode_transcript-injective_example : input ≡ input
encode_transcript-injective_example =
    encode_transcript-injective any_key input input input-IsInput input-IsInput encodes_input
      encodes_input

-- A signature of this toy is the key's last byte, sixty-four times.
abbrev pub toy : Crypto ℕ
toy = record {
  verify_brk = λ key transcript signature. bytes_eq signature (replicate 64 (get_or key 64 0));
  derive_shared = λ key public_key. some (key ∷ get_or public_key 1 0 ∷ []);
  derive_hkdf = λ shared salt info. some shared;
  decrypt_vmk_gcm = λ key nonce ciphertext tag aad.
      if bytes_eq tag (replicate 16 9) then some (get_or key 0 0 ∷ ciphertext) else none;
}

abbrev pub gate : PresenceBinding UserPresenceGate
gate = record {
  begin_presence =
      λ operation attempt_id now_ms g. (true, Presence.begin operation attempt_id now_ms 0 g);
  consume_presence = λ attempt_id now_ms g.
      let (g', consumed) = consume_confirmation attempt_id now_ms g in (consumed, g');
  cancel_presence = λ g. cleared;
  presence_confirmed = λ g. Presence.is_confirmed g.state;
}

abbrev pub context : BeginContext
context = record {
  operation = trusted_browser_unlock;
  device_id = 97 ∷ 98 ∷ [];
  vault_id = replicate 16 5;
  expected_generation = 3;
  registration_id = replicate 16 6;
  registration_epoch = 1;
  current_brk_public_key = brk_key;
  proposed_brk_public_key = replicate 65 0;
}

abbrev pub draws : Draws ℕ
draws = record {
  attempt_id = some (replicate 16 7);
  challenge = some (replicate 32 8);
  key_pair = some (42, device_key);
}

-- The button is released twice, pressed and confirmed.
abbrev pub pressed : UserPresenceGate → UserPresenceGate
pressed g =
    (confirm_current 30 1
      (observe_input_state true (observe_input_state false (observe_input_state false g)))).0

abbrev calls : List (Call ℕ UserPresenceGate)
calls = begins draws context 10 ∷ authorizes web_key (replicate 64 3) 20 ∷ moves pressed ∷ []

-- The same attempt with the display.
abbrev events : List (Event ℕ)
events =
    attempts (begins draws context 10)
    ∷ attempts (authorizes web_key (replicate 64 3) 20)
    ∷ acts (observes false)
    ∷ acts (observes false)
    ∷ acts (observes true)
    ∷ acts (presses 30)
    ∷ []
