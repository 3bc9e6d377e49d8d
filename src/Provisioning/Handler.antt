-- ===== src/Provisioning/Handler.antt =====
-- `StagedSessionV2Handler` (firmware/components/m5auth_provisioning/session_protocol_v2.cpp and its
-- header): the messages of the browser that drive an attempt of the coordinator, and the delivery of the
-- key to a sink. The source of the Device's snapshot and the sink are the interface `Ports`, over any
-- state of their own. A response is its data: cJSON prints it, or the fixed text of an internal error.
-- The wiping of requests and of local buffers is left out.
pub mod Responses
pub mod Request
pub mod Lines
pub mod Coordinator
pub mod Effect
pub mod Messages
pub mod Installs
pub mod Run
use m5authenticator.Prelude.{
  ℕ, ◌-◌, Bool, true, false, not, ◌&&◌, ◌||◌, Option, none, some, ltb, if◌then◌else◌, Bytes, ◌>>=◌,
  ◌>>◌,
}
use m5authenticator.Session.Attempts
use m5authenticator.Session.Attempts.Context.{
  BeginContext, AttemptState, AttemptCoordinator, PresenceBinding, blank_context, idle,
  awaiting_authorization, awaiting_presence, confirmed,
}
use m5authenticator.Session.Base64.{base64url_encode}
use m5authenticator.Session.Device.{
  Crypto, Draws, AttemptDescriptor, session_nonce_bytes, session_tag_bytes, session_key_bytes,
}
use m5authenticator.Provisioning.Binding.{
  SessionV2DeviceSnapshot, session_v2_begin_matches_snapshot, same_bytes,
}
use m5authenticator.Provisioning.Handler.Request.{
  Cjson, parse_begin_context, read_binary, read_optional_signature,
}
use m5authenticator.Provisioning.Handler.Responses.{
  ErrorCode, invalid_request, invalid_state, binding_mismatch, stale_attempt, authentication_failed,
  session_rejected, name_expired, state_name, Response, error_response, empty_success,
  state_success, Ports, Handler, begun,
}

module _ {K U W : Type 0} where
  -- The kind of the operation stays.
  unfoldable pub clear_context : Handler K U W → Handler K U W
  clear_context s = record s { context = blank_context s.context.operation; context_active = false }

  abbrev pub with_coordinator : AttemptCoordinator K × U → Handler K U W → Handler K U W
  with_coordinator x s = record s { coordinator = x }

  -- The test of `stale_attempt`.
  unfoldable pub current_attempt : Bytes → Handler K U W → Bool
  current_attempt attempt s =
      s.context_active
      && s.coordinator.0.active
      && same_bytes attempt s.coordinator.0.descriptor.attempt_id

module _ {K U W J : Type 0} (crypto : Crypto K) (import_public_key : Bytes → Bool)
    (presence : PresenceBinding U) (ports : Ports W) (json : Cjson J) where
  abbrev pub matches : BeginContext → Option SessionV2DeviceSnapshot → Bool
  matches c none = false
  matches c (some s) = session_v2_begin_matches_snapshot c s

  unfoldable pub current_binding_matches : Handler K U W → Bool
  current_binding_matches s = s.context_active && matches s.context (ports.snapshot s.world)

  -- `coordinator_.cancel()` and `clear_context()`; the body of `disconnect`.
  unfoldable pub cancel_attempt : Handler K U W → Handler K U W
  unfolding clear_context
  cancel_attempt s =
      clear_context
        (with_coordinator (Attempts.cancel crypto import_public_key presence s.coordinator) s)

  unfoldable pub fail_closed : ℕ → ErrorCode → Handler K U W → Response × Handler K U W
  unfolding cancel_attempt
  fail_closed id code s = (error_response id code, cancel_attempt s)

  unfoldable pub expire : ℕ → Handler K U W → Bool × Handler K U W
  unfolding clear_context
  expire now_ms s =
      let (expired, x) = Attempts.expire crypto import_public_key presence now_ms s.coordinator in
      let s' = with_coordinator x s in if expired then (true, clear_context s') else (false, s')

  -- Behind the checks of the context.
  abbrev pub begin_coordinator :
      Draws K → ℕ → ℕ → BeginContext → Handler K U W → Response × Handler K U W
  begin_coordinator draws id now_ms c s =
      answer (Attempts.begin crypto import_public_key presence draws c now_ms s.coordinator)
    where
      answer : Option AttemptDescriptor × (AttemptCoordinator K × U) → Response × Handler K U W
      answer (none, x) = (error_response id invalid_request, with_coordinator x s)
      answer (some descriptor, x) = (
        begun id descriptor now_ms,
        record (with_coordinator x s) { context = c; context_active = true },
      )

  abbrev pub begin_bound :
      Draws K
      → ℕ
      → ℕ
      → BeginContext
      → Option SessionV2DeviceSnapshot
      → Handler K U W
      → Response × Handler K U W
  begin_bound draws id now_ms c none s = (error_response id invalid_state, s)
  begin_bound draws id now_ms c (some snapshot) s =
      let started = begin_coordinator draws id now_ms c s in
      if not (session_v2_begin_matches_snapshot c snapshot)
      then (error_response id binding_mismatch, s)
      else started

  abbrev pub begin_parsed :
      Draws K → ℕ → ℕ → Option BeginContext → Handler K U W → Response × Handler K U W
  begin_parsed draws id now_ms none s = (error_response id invalid_request, s)
  begin_parsed draws id now_ms (some c) s = begin_bound draws id now_ms c (ports.snapshot s.world) s

  unfoldable pub handle_begin : Draws K → ℕ → J → ℕ → Handler K U W → Response × Handler K U W
  unfolding cancel_attempt
  handle_begin draws id params now_ms s =
      begin_parsed draws id now_ms (parse_begin_context json params) (cancel_attempt s)

  -- The checks of the attempt that the messages after `session.begin` share.
  abbrev pub for_attempt :
      ℕ
      → Option Bytes
      → (Handler K U W → Response × Handler K U W)
      → Handler K U W
      → Response × Handler K U W
  for_attempt id none f s = fail_closed id invalid_request s
  for_attempt id (some attempt) f s =
      let next = f s in
      if not (current_attempt attempt s)
      then fail_closed id stale_attempt s
      else if not (current_binding_matches s)
      then fail_closed id binding_mismatch s
      else next

  abbrev pub authorize_with : ℕ → ℕ → Bytes → Bytes → Handler K U W → Response × Handler K U W
  authorize_with id now_ms web_public signature s =
      let (authorized, x) =
        Attempts.authorize crypto import_public_key presence web_public signature now_ms
          s.coordinator in
      let s' = with_coordinator x s in
      if not authorized
      then (error_response id authentication_failed, clear_context s')
      else (empty_success id, s')

  abbrev pub authorize_parsed :
      ℕ → ℕ → Option (Bytes × Bytes × Bytes) → Handler K U W → Response × Handler K U W
  authorize_parsed id now_ms none s = fail_closed id invalid_request s
  authorize_parsed id now_ms (some (attempt, web_public, signature)) s =
      for_attempt id (some attempt) (authorize_with id now_ms web_public signature) s

  unfoldable pub handle_authorize : ℕ → J → ℕ → Handler K U W → Response × Handler K U W
  unfolding fail_closed clear_context current_binding_matches
  handle_authorize id params now_ms s =
      authorize_parsed id now_ms
        (do
          attempt ← read_binary json params "attempt_id" 16
          web_public ← read_binary json params "web_public_key" 65
          signature ← read_optional_signature json params
          some (attempt, web_public, signature))
        s

  abbrev pub report_status : ℕ → ℕ → Handler K U W → Response × Handler K U W
  report_status id now_ms s =
      let (expired, x) = Attempts.expire crypto import_public_key presence now_ms s.coordinator in
      let s' = with_coordinator x s in
      if expired then (state_success id name_expired, clear_context s') else (
        state_success id (state_name (Attempts.state_of crypto import_public_key presence x)),
        s',
      )

  unfoldable pub handle_status : ℕ → J → ℕ → Handler K U W → Response × Handler K U W
  unfolding fail_closed clear_context current_binding_matches
  handle_status id params now_ms s =
      for_attempt id (read_binary json params "attempt_id" 16) (report_status id now_ms) s

  -- Behind `coordinator_.complete`.
  unfoldable pub deliver : ℕ → Option Bytes → Handler K U W → Response × Handler K U W
  unfolding clear_context current_binding_matches
  deliver id none s = (error_response id session_rejected, clear_context s)
  deliver id (some vmk) s =
      let (installed, w) = ports.install_vmk s.context vmk s.world in
      let s' = clear_context (record s { world = w }) in
      if not (current_binding_matches s)
      then (error_response id binding_mismatch, clear_context s)
      else if installed
      then (empty_success id, s')
      else (error_response id invalid_state, s')

  abbrev pub complete_with :
      ℕ → ℕ → Bytes → Bytes → Bytes → Handler K U W → Response × Handler K U W
  complete_with id now_ms nonce ciphertext tag s =
      let (opened, x) =
        Attempts.complete crypto import_public_key presence nonce ciphertext tag now_ms
          s.coordinator in
      deliver id opened (with_coordinator x s)

  abbrev pub complete_parsed :
      ℕ → ℕ → Option (Bytes × Bytes × Bytes × Bytes) → Handler K U W → Response × Handler K U W
  complete_parsed id now_ms none s = fail_closed id invalid_request s
  complete_parsed id now_ms (some (attempt, nonce, ciphertext, tag)) s =
      for_attempt id (some attempt) (complete_with id now_ms nonce ciphertext tag) s

  unfoldable pub handle_complete : ℕ → J → ℕ → Handler K U W → Response × Handler K U W
  unfolding fail_closed deliver current_binding_matches
  handle_complete id params now_ms s =
      complete_parsed id now_ms
        (do
          attempt ← read_binary json params "attempt_id" 16
          nonce ← read_binary json params "nonce" session_nonce_bytes
          ciphertext ← read_binary json params "ciphertext" session_key_bytes
          tag ← read_binary json params "tag" session_tag_bytes
          some (attempt, nonce, ciphertext, tag))
        s

  abbrev pub cancel_parsed : ℕ → Option Bytes → Handler K U W → Response × Handler K U W
  cancel_parsed id none s = fail_closed id invalid_request s
  cancel_parsed id (some attempt) s =
      if not s.context_active || not s.coordinator.0.active
      then (empty_success id, clear_context s)
      else if not (same_bytes attempt s.coordinator.0.descriptor.attempt_id)
      then fail_closed id stale_attempt s
      else (empty_success id, cancel_attempt s)

  unfoldable pub handle_cancel : ℕ → J → Handler K U W → Response × Handler K U W
  unfolding fail_closed clear_context
  handle_cancel id params s = cancel_parsed id (read_binary json params "attempt_id" 16) s
