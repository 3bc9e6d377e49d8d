-- ===== src/Provisioning/Handler/Lines.antt =====
-- The dispatch of a line (`StagedSessionV2Handler::handle_line`, session_protocol_v2.cpp).
use m5authenticator.Prelude.{
  ℕ, Bool, not, Option, none, some, ltb, ◌==◌, if◌then◌else◌, length, Bytes, is_empty, ◌>>=◌,
  bytes_eq, codes,
}
use m5authenticator.Session.Attempts.Context.{PresenceBinding}
use m5authenticator.Session.Device.{Crypto, Draws}
use m5authenticator.Provisioning.Handler.Request.{Cjson, read_nonnegative_int}
use m5authenticator.Provisioning.Handler.{
  fail_closed, handle_begin, handle_authorize, handle_status, handle_complete, handle_cancel,
}
use m5authenticator.Provisioning.Handler.Responses.{
  Ports, Handler, Response, invalid_request, unsupported_version, invalid_id, invalid_json,
  protocol_version, max_session_v2_message_bytes, message_too_large, unsupported_op,
}

module _ {K U W J : Type 0} (crypto : Crypto K) (import_public_key : Bytes → Bool)
    (presence : PresenceBinding U) (ports : Ports W) (json : Cjson J) where
  -- The chain of comparisons with the names of the operations.
  unfoldable pub dispatch : Draws K → ℕ → Bytes → J → ℕ → Handler K U W → Response × Handler K U W
  dispatch draws id operation params now_ms s =
      if bytes_eq operation (codes "session.begin")
      then handle_begin crypto import_public_key presence ports json draws id params now_ms s
      else if bytes_eq operation (codes "session.authorize")
      then handle_authorize crypto import_public_key presence ports json id params now_ms s
      else if bytes_eq operation (codes "session.status")
      then handle_status crypto import_public_key presence ports json id params now_ms s
      else if bytes_eq operation (codes "session.complete")
      then handle_complete crypto import_public_key presence ports json id params now_ms s
      else if bytes_eq operation (codes "session.cancel")
      then handle_cancel crypto import_public_key presence ports json id params s
      else fail_closed crypto import_public_key presence ports json id unsupported_op s

  -- A string and an object.
  abbrev pub dispatch_parsed :
      Draws K → ℕ → Option Bytes → Option J → ℕ → Handler K U W → Response × Handler K U W
  dispatch_parsed draws id (some operation) (some params) now_ms s =
      let next = dispatch draws id operation params now_ms s in
      if not (json.is_object params)
      then fail_closed crypto import_public_key presence ports json id invalid_request s
      else next
  dispatch_parsed draws id _ _ now_ms s =
      fail_closed crypto import_public_key presence ports json id invalid_request s

  abbrev pub versioned : Draws K → ℕ → Option ℕ → J → ℕ → Handler K U W → Response × Handler K U W
  versioned draws id none root now_ms s =
      fail_closed crypto import_public_key presence ports json id unsupported_version s
  versioned draws id (some version) root now_ms s =
      let next =
        dispatch_parsed draws id (json.get_item root "op" >>= json.string_of)
          (json.get_item root "params") now_ms s in
      if not (version == protocol_version)
      then fail_closed crypto import_public_key presence ports json id unsupported_version s
      else next

  abbrev pub identified : Draws K → Option ℕ → J → ℕ → Handler K U W → Response × Handler K U W
  identified draws none root now_ms s =
      fail_closed crypto import_public_key presence ports json 0 invalid_id s
  identified draws (some id) root now_ms s =
      versioned draws id (read_nonnegative_int json (json.get_item root "v")) root now_ms s

  abbrev pub parsed : Draws K → Option J → ℕ → Handler K U W → Response × Handler K U W
  parsed draws none now_ms s =
      fail_closed crypto import_public_key presence ports json 0 invalid_json s
  parsed draws (some root) now_ms s =
      let next =
        identified draws (read_nonnegative_int json (json.get_item root "id")) root now_ms s in
      if not (json.is_object root)
      then fail_closed crypto import_public_key presence ports json 0 invalid_json s
      else next

  unfoldable pub handle_line : Draws K → Bytes → ℕ → Handler K U W → Response × Handler K U W
  unfolding fail_closed dispatch
  handle_line draws line now_ms s =
      let next = parsed draws (json.parse line) now_ms s in
      if is_empty line
      then fail_closed crypto import_public_key presence ports json 0 invalid_request s
      else if ltb max_session_v2_message_bytes (length line)
      then fail_closed crypto import_public_key presence ports json 0 message_too_large s
      else next
