-- ===== src/Provisioning/Handler/Responses.antt =====
-- The responses of the message handler, what it calls and its state (session_protocol_v2.cpp).
use m5authenticator.Prelude.{ℕ, ◌-◌, Bool, Option, ltb, if◌then◌else◌, Bytes}
use m5authenticator.Session.Attempts.Context.{
  BeginContext, AttemptState, AttemptCoordinator, idle, awaiting_authorization, awaiting_presence,
  confirmed,
}
use m5authenticator.Session.Base64.{base64url_encode}
use m5authenticator.Session.Device.{AttemptDescriptor}
use m5authenticator.Provisioning.Binding.{SessionV2DeviceSnapshot}

abbrev pub max_session_v2_message_bytes : ℕ
max_session_v2_message_bytes = 2048

abbrev pub protocol_version : ℕ
protocol_version = 2

pub data ErrorCode : Type 0 where
  invalid_request message_too_large invalid_json invalid_id unsupported_version : ErrorCode
  invalid_state binding_mismatch stale_attempt authentication_failed session_rejected : ErrorCode
  unsupported_op : ErrorCode

pub data StateName : Type 0 where
  name_cancelled name_awaiting_authorization name_awaiting_presence name_confirmed : StateName
  name_expired : StateName

unfoldable pub state_name : AttemptState → StateName
state_name idle = name_cancelled
state_name awaiting_authorization = name_awaiting_authorization
state_name awaiting_presence = name_awaiting_presence
state_name confirmed = name_confirmed

-- The first number is the id of the request. A begun attempt is answered with its id, its challenge, the
-- key of the Device and the milliseconds that remain.
pub data Response : Type 0 where
  error_response : ℕ → ErrorCode → Response
  empty_success : ℕ → Response
  begin_success : ℕ → Bytes → Bytes → Bytes → ℕ → Response
  state_success : ℕ → StateName → Response

-- `SessionV2BindingSource` and `SessionV2VmkSink`.
pub record Ports (W : Type 0) : Type 0 where
  pub snapshot : W → Option SessionV2DeviceSnapshot
  pub install_vmk : BeginContext → Bytes → W → Bool × W

-- The handler with the coordinator, the object with the button and the state behind the ports.
pub record Handler (K U W : Type 0) : Type 0 where
  pub coordinator : AttemptCoordinator K × U
  pub context : BeginContext
  pub context_active : Bool
  pub world : W

unfoldable pub begun : ℕ → AttemptDescriptor → ℕ → Response
begun id d now_ms =
    begin_success id (base64url_encode d.attempt_id) (base64url_encode d.challenge)
      (base64url_encode d.device_public_key)
      (if ltb now_ms d.expires_at_ms then d.expires_at_ms - now_ms else 0)
