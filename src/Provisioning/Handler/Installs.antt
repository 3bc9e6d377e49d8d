-- ===== src/Provisioning/Handler/Installs.antt =====
-- The messages of a browser, in any order: what they do behind the ports.
use m5authenticator.Prelude.{ℕ, Bool, Option, none, some, arith, Bytes, ◌>>=◌}
use m5authenticator.Session.Attempts.Context.{PresenceBinding}
use m5authenticator.Session.Device.{Crypto, Draws}
use m5authenticator.Provisioning.Handler.Request.{Cjson, read_binary, read_nonnegative_int}
use m5authenticator.Provisioning.Handler.Effect.{
  Inv, Effect, fail_closed-Effect, for_attempt-Effect, handle_begin-Effect,
}
use m5authenticator.Provisioning.Handler.{
  report_status, handle_authorize, handle_status, handle_complete, handle_cancel,
}
use m5authenticator.Provisioning.Handler.Responses.{
  Ports, Handler, invalid_request, unsupported_op, unsupported_version, invalid_id, invalid_json,
  message_too_large,
}
use m5authenticator.Provisioning.Handler.Messages.{
  authorize_parsed-Effect, report_status-Effect, complete_parsed-Effect, cancel_parsed-Effect,
}
use m5authenticator.Provisioning.Handler.Lines.{
  dispatch, dispatch_parsed, versioned, identified, parsed, handle_line,
}

module _ {K U W J : Type 0} (crypto : Crypto K) (import_public_key : Bytes → Bool)
    (presence : PresenceBinding U) (ports : Ports W) (json : Cjson J) where
  handle_authorize-Effect :
      (id : ℕ) (params : J) (now_ms : ℕ) (s : Handler K U W)
      → Inv crypto import_public_key presence ports json s
      → Effect crypto import_public_key presence ports json now_ms s
          (handle_authorize crypto import_public_key presence ports json id params now_ms s).1
  unfolding handle_authorize
  handle_authorize-Effect id params now_ms s v =
      authorize_parsed-Effect crypto import_public_key presence ports json id now_ms _ s v

  handle_status-Effect :
      (id : ℕ) (params : J) (now_ms : ℕ) (s : Handler K U W)
      → Inv crypto import_public_key presence ports json s
      → Effect crypto import_public_key presence ports json now_ms s
          (handle_status crypto import_public_key presence ports json id params now_ms s).1
  unfolding handle_status
  handle_status-Effect id params now_ms s v =
      for_attempt-Effect crypto import_public_key presence ports json id now_ms
        (read_binary json params "attempt_id" 16)
        (report_status crypto import_public_key presence ports json id now_ms) s v
        (report_status-Effect crypto import_public_key presence ports json id now_ms s v)

  handle_complete-Effect :
      (id : ℕ) (params : J) (now_ms : ℕ) (s : Handler K U W)
      → Inv crypto import_public_key presence ports json s
      → Effect crypto import_public_key presence ports json now_ms s
          (handle_complete crypto import_public_key presence ports json id params now_ms s).1
  unfolding handle_complete
  handle_complete-Effect id params now_ms s v =
      complete_parsed-Effect crypto import_public_key presence ports json id now_ms _ s v

  handle_cancel-Effect :
      (id : ℕ) (params : J) (now_ms : ℕ) (s : Handler K U W)
      → Inv crypto import_public_key presence ports json s
      → Effect crypto import_public_key presence ports json now_ms s
          (handle_cancel crypto import_public_key presence ports json id params s).1
  unfolding handle_cancel
  handle_cancel-Effect id params now_ms s v =
      cancel_parsed-Effect crypto import_public_key presence ports json id now_ms
        (read_binary json params "attempt_id" 16) s v

  dispatch-Effect :
      (draws : Draws K) (id : ℕ) (operation : Bytes) (params : J) (now_ms : ℕ) (s : Handler K U W)
      → Inv crypto import_public_key presence ports json s
      → Effect crypto import_public_key presence ports json now_ms s
          (dispatch crypto import_public_key presence ports json draws id operation params now_ms
            s).1
  unfolding dispatch
  dispatch-Effect draws id operation params now_ms s v = ground (
    arith,
    handle_begin-Effect crypto import_public_key presence ports json draws id params now_ms s v,
    handle_authorize-Effect id params now_ms s v,
    handle_status-Effect id params now_ms s v,
    handle_complete-Effect id params now_ms s v,
    handle_cancel-Effect id params now_ms s v,
    fail_closed-Effect crypto import_public_key presence ports json id unsupported_op now_ms s v,
  )

  dispatch_parsed-Effect :
      (draws : Draws K) (id : ℕ) (operation : Option Bytes) (params : Option J) (now_ms : ℕ)
      (s : Handler K U W)
      → Inv crypto import_public_key presence ports json s
      → Effect crypto import_public_key presence ports json now_ms s
          (dispatch_parsed crypto import_public_key presence ports json draws id operation params
            now_ms s).1
  dispatch_parsed-Effect draws id (some operation) (some params) now_ms s v = ground (
    arith,
    fail_closed-Effect crypto import_public_key presence ports json id invalid_request now_ms s v,
    dispatch-Effect draws id operation params now_ms s v,
  )
  dispatch_parsed-Effect draws id none params now_ms s v =
      fail_closed-Effect crypto import_public_key presence ports json id invalid_request now_ms s v
  dispatch_parsed-Effect draws id (some operation) none now_ms s v =
      fail_closed-Effect crypto import_public_key presence ports json id invalid_request now_ms s v

  versioned-Effect :
      (draws : Draws K) (id : ℕ) (version : Option ℕ) (root : J) (now_ms : ℕ) (s : Handler K U W)
      → Inv crypto import_public_key presence ports json s
      → Effect crypto import_public_key presence ports json now_ms s
          (versioned crypto import_public_key presence ports json draws id version root now_ms s).1
  versioned-Effect draws id none root now_ms s v =
      fail_closed-Effect crypto import_public_key presence ports json id unsupported_version now_ms
        s v
  versioned-Effect draws id (some version) root now_ms s v = ground (
    arith,
    fail_closed-Effect crypto import_public_key presence ports json id unsupported_version now_ms s
        v,
    dispatch_parsed-Effect draws id (json.get_item root "op" >>= json.string_of)
        (json.get_item root "params") now_ms s v,
  )

  identified-Effect :
      (draws : Draws K) (id : Option ℕ) (root : J) (now_ms : ℕ) (s : Handler K U W)
      → Inv crypto import_public_key presence ports json s
      → Effect crypto import_public_key presence ports json now_ms s
          (identified crypto import_public_key presence ports json draws id root now_ms s).1
  identified-Effect draws none root now_ms s v =
      fail_closed-Effect crypto import_public_key presence ports json 0 invalid_id now_ms s v
  identified-Effect draws (some id) root now_ms s v =
      versioned-Effect draws id (read_nonnegative_int json (json.get_item root "v")) root now_ms s v

  parsed-Effect :
      (draws : Draws K) (root : Option J) (now_ms : ℕ) (s : Handler K U W)
      → Inv crypto import_public_key presence ports json s
      → Effect crypto import_public_key presence ports json now_ms s
          (parsed crypto import_public_key presence ports json draws root now_ms s).1
  parsed-Effect draws none now_ms s v =
      fail_closed-Effect crypto import_public_key presence ports json 0 invalid_json now_ms s v
  parsed-Effect draws (some root) now_ms s v = ground (
    arith,
    fail_closed-Effect crypto import_public_key presence ports json 0 invalid_json now_ms s v,
    identified-Effect draws (read_nonnegative_int json (json.get_item root "id")) root now_ms s v,
  )

  pub handle_line-Effect :
      (draws : Draws K) (line : Bytes) (now_ms : ℕ) (s : Handler K U W)
      → Inv crypto import_public_key presence ports json s
      → Effect crypto import_public_key presence ports json now_ms s
          (handle_line crypto import_public_key presence ports json draws line now_ms s).1
  unfolding handle_line
  handle_line-Effect draws line now_ms s v = ground (
    arith,
    fail_closed-Effect crypto import_public_key presence ports json 0 invalid_request now_ms s v,
    fail_closed-Effect crypto import_public_key presence ports json 0 message_too_large now_ms s v,
    parsed-Effect draws (json.parse line) now_ms s v,
  )
