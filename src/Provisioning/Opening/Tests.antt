-- ===== src/Provisioning/Opening/Tests.antt =====
-- A Device that a registered browser unlocks, with a toy of the cryptography and of the JSON library.
mod Json
use m5authenticator.Prelude.{
  ℕ, ◌≡◌, refl, ◌⊎◌, Bool, true, false, Option, none, some, List, [], ◌∷◌, arith, ◌==◌,
  if◌then◌else◌, Bytes, replicate, bytes_eq, all_zero, codes, get_or, constant_time_equal,
  difference, saturating_deadline,
}
use m5authenticator.Session.Base64
use m5authenticator.Session.Attempts
use m5authenticator.Session.Device as Crypto
use m5authenticator.Registration.Operations as Store
use m5authenticator.Session.Attempts.{
  wipe_staged, context_valid, new_coordinator, authorize_transcript, transcript_input, authenticate,
}
use m5authenticator.Session.Attempts.Context.{context_fits, brk_signature_required}
use m5authenticator.Session.{
  encode_transcript, transcript_bytes, append_be, valid_optional_p256_identity,
  valid_p256_public_key, identities_fit, presence_operation, parse_operation,
}
use m5authenticator.Presence
use m5authenticator.Presence.{
  UserPresenceGate, cleared, observe_input_state, confirm_current, consume_confirmation,
}
use m5authenticator.Nvs.Memory.{Memory, blank, memory}
use m5authenticator.VaultRuntime.Tests
use m5authenticator.Registration
use m5authenticator.Registration.{Store}
use m5authenticator.Registration.Tests.{ready_store, index, sec1_framed}
use m5authenticator.Session.Tests.{toy, gate, context, draws, pressed, any_key, web_key, brk_key}
use m5authenticator.Session.Base64.{base64url_encode, base64url_decode}
use m5authenticator.Vault.{VaultEnvelope}
use m5authenticator.VaultRuntime.{
  PersistedSnapshot, locked, is_unlocked, validate_envelope_with_key, valid_envelope_framing,
  open_envelope,
}
use m5authenticator.VaultRuntime.Tests.{vault_at, in_use, formatted, open_gcm}
use m5authenticator.Provisioning.Sink.{install_vmk, install_operation, unlock_device}
use m5authenticator.Provisioning.Sink.Pending.{Device, cancelled}
use m5authenticator.Provisioning.Handler.{
  handle_begin, cancel_attempt, clear_context, handle_authorize, handle_complete,
  current_binding_matches, current_attempt, deliver,
}
use m5authenticator.Provisioning.Handler.Responses.{Handler, begun}
use m5authenticator.Provisioning.Handler.Request.{
  Cjson, parse_begin_context, read_string, read_binary, text_of, read_u32_allow_zero,
  read_nonnegative_int, parse_u64_decimal, parse_digits, read_optional_signature,
}
use m5authenticator.Provisioning.Handler.Effect.{Installs}
use m5authenticator.Provisioning.Handler.Run.{
  Call, new_handler, run, lines, moves, run-handle_line-Installs, step,
}
use m5authenticator.Provisioning.Opening.{canonical_ports, Opened, run-handle_line-Opened}
use m5authenticator.Provisioning.Binding.{
  operation_matches, registered_matches, existing_vault_matches, existing_registration_matches,
  current_brk_is_device_owned, canonical_snapshot, joined_snapshot, snapshot_of, device_id_text,
  session_v2_begin_matches_snapshot, operation_matches, SessionV2DeviceSnapshot,
}
use m5authenticator.VaultRuntime.Access.{metadata}
use m5authenticator.VaultRuntime.Operations.{unlock}
use m5authenticator.Vault.Crypto.{decrypt_vault, build_vault_aad}
use m5authenticator.Vault.Decode.{
  decode_plaintext, read_bytes, detect_format, read_u16, read_records, read_wifi, read_u8,
  read_auto_lock, read_auto_lock_flag, read_days,
}
use m5authenticator.Vault.Encode.{plaintext_magic}
use m5authenticator.Provisioning.Binding.Matches.{
  OfVault, OfClean, session_v2_begin_matches_snapshot-Fits,
}
use m5authenticator.Provisioning.Handler.Lines.{handle_line, dispatch}
use m5authenticator.Provisioning.Opening.Tests.Json.{json}

-- The Vault of the context, under the key that the attempt delivers.
abbrev vault : VaultEnvelope
vault = record (vault_at 3 5) { vault_id = replicate 16 5; tag = 42 ∷ replicate 32 4 }

abbrev registered : Registration.Store
registered = record ready_store {
  current = record {
    device_id = 171 ∷ [];
    registration_present = true;
    vault_id = replicate 16 5;
    registration_id = replicate 16 6;
    epoch = 1;
    brk_public_key = brk_key;
  };
}

abbrev device : Device PersistedSnapshot Memory
device = record {
  runtime = (
    record in_use {
      state = locked;
      envelope = vault;
      vmk = replicate 32 0;
      vmk_present = false;
      auto_lock_days = none;
      unlocked_since_ms = 0;
      unlock_session_active = false;
    },
    record formatted { has_vault = true; envelope = vault },
  );
  registration = (registered, λ i. blank);
  sink = cancelled;
}

abbrev calls : List (Call ℕ UserPresenceGate (ℕ × Device PersistedSnapshot Memory))
calls = lines draws (1 ∷ []) 10 ∷ lines draws (2 ∷ []) 20 ∷ moves pressed ∷ []

abbrev start : ℕ × Device PersistedSnapshot Memory
start = (40, device)

abbrev now : Handler ℕ UserPresenceGate (ℕ × Device PersistedSnapshot Memory)
now =
    run toy any_key gate (canonical_ports Tests.memory open_gcm (memory index) sec1_framed) json
      calls (new_handler cleared start)

-- Before the last message the runtime is locked, after it unlocked.
opens :
    (now.world.1.registration.0.current.epoch ≡ 1)
    × (is_unlocked now.world.1.runtime.0.state ≡ false)
    × (is_unlocked
          (handle_line toy any_key gate
            (canonical_ports Tests.memory open_gcm (memory index) sec1_framed)
            json
            draws
            (3 ∷ [])
            40
            now).1.world.1.runtime.0.state
        ≡ true)
unfolding handle_line dispatch handle_begin parse_begin_context read_string read_binary text_of
    read_u32_allow_zero read_nonnegative_int parse_u64_decimal parse_digits base64url_decode
    base64url_encode Base64.decode_chars Base64.decode_char Base64.finish_decode Base64.char_at
    Base64.alphabet parse_operation bytes_eq canonical_ports canonical_snapshot joined_snapshot
    snapshot_of metadata Store.snapshot device_id_text session_v2_begin_matches_snapshot
    operation_matches registered_matches existing_vault_matches existing_registration_matches
    current_brk_is_device_owned all_zero constant_time_equal difference new_handler new_coordinator
    cancel_attempt clear_context Attempts.cancel wipe_staged Attempts.begin context_valid
    valid_optional_p256_identity valid_p256_public_key context_fits Crypto.begin Crypto.drawn
    saturating_deadline begun run step handle_authorize handle_complete read_optional_signature
    current_binding_matches current_attempt deliver Attempts.authorize authorize_transcript
    encode_transcript transcript_bytes append_be transcript_input identities_fit authenticate
    brk_signature_required Attempts.complete Crypto.matches_attempt Crypto.decrypt Crypto.open_vmk
    Crypto.verify_brk_signature presence_operation Presence.begin observe_input_state
    confirm_current consume_confirmation Presence.expire install_vmk install_operation unlock_device
    unlock validate_envelope_with_key valid_envelope_framing open_envelope decrypt_vault
    build_vault_aad decode_plaintext read_bytes detect_format plaintext_magic read_u16 read_records
    read_wifi read_u8 read_auto_lock read_auto_lock_flag read_days
opens = (refl, refl, refl)

run-handle_line-Installs_example :
    let s' =
      (handle_line toy any_key gate
        (canonical_ports Tests.memory open_gcm (memory index) sec1_framed)
        json
        draws
        (3 ∷ [])
        40
        now).1 in
    (s'.world ≡ now.world)
    ⊎ Installs toy any_key gate
        (canonical_ports Tests.memory open_gcm (memory index) sec1_framed)
        json
        40
        now
        s'.world
run-handle_line-Installs_example =
    run-handle_line-Installs toy any_key gate
      (canonical_ports Tests.memory open_gcm (memory index) sec1_framed) json calls cleared start
      draws (3 ∷ []) 40

run-handle_line-Opened_example :
    Opened Tests.memory open_gcm
      (memory index)
      sec1_framed
      toy
      any_key
      gate
      json
      40
      now
      (handle_line toy any_key gate
        (canonical_ports Tests.memory open_gcm (memory index) sec1_framed)
        json
        draws
        (3 ∷ [])
        40
        now).1.world
run-handle_line-Opened_example =
    let (epoch, locked_before, unlocked_after) = opens in
    run-handle_line-Opened Tests.memory open_gcm (memory index) sec1_framed toy any_key gate json
      calls cleared start draws (3 ∷ []) 40 (rw epoch (ground arith)) locked_before unlocked_after

abbrev shown : SessionV2DeviceSnapshot
shown = record {
  device_id = 97 ∷ 98 ∷ [];
  vault_present = true;
  vault_id = replicate 16 5;
  generation = 3;
  registration_present = true;
  registration_id = replicate 16 6;
  registration_epoch = 1;
  brk_public_key = brk_key;
}

session_v2_begin_matches_snapshot-Fits_example :
    (context.device_id ≡ shown.device_id)
    × (shown.vault_present ≡ true → OfVault context shown)
    × (shown.vault_present ≡ false → OfClean context shown)
session_v2_begin_matches_snapshot-Fits_example =
    session_v2_begin_matches_snapshot-Fits context shown (ground arith) fits
  where
    fits : session_v2_begin_matches_snapshot context shown ≡ true
    fits =
        unfold session_v2_begin_matches_snapshot operation_matches registered_matches
          existing_vault_matches existing_registration_matches current_brk_is_device_owned all_zero
          constant_time_equal difference bytes_eq in
        refl
