-- ===== src/Session.antt =====
-- firmware/components/m5auth_session, protocol_v2.hpp and session_protocol_v2.cpp: the transcript that
-- both sides of an attempt sign and derive their key from. The import of a P-256 key (p256_public_key.cpp,
-- mbedTLS) is a parameter.
pub mod Transcript
pub mod Base64
pub mod Device
pub mod Attempts
pub mod Tests
use m5authenticator.Prelude.{
  ℕ, zero, suc, ◌+◌, ◌*◌, ◌/◌, ◌%◌, ◌^◌, Bool, not, ◌&&◌, ◌||◌, Option, none, some, [], ◌∷◌, ◌++◌,
  ltb, ◌==◌, if◌then◌else◌, length, Bytes, is_empty, bytes_eq, all_zero, codes, get_or,
}
use m5authenticator.Presence.{PresenceOperation}
use m5authenticator.Presence

pub data Operation : Type 0 where
  trusted_browser_unlock initial_provisioning recovery browser_replacement vmk_rekey : Operation

abbrev pub operation_code : Operation → ℕ
operation_code trusted_browser_unlock = 1
operation_code initial_provisioning = 2
operation_code recovery = 3
operation_code browser_replacement = 4
operation_code vmk_rekey = 5

unfoldable pub operation_name : Operation → Bytes
operation_name trusted_browser_unlock = codes "trusted_browser_unlock"
operation_name initial_provisioning = codes "initial_provisioning"
operation_name recovery = codes "recovery"
operation_name browser_replacement = codes "browser_replacement"
operation_name vmk_rekey = codes "vmk_rekey"

unfoldable pub parse_operation : Bytes → Option Operation
parse_operation value =
    if bytes_eq value (codes "trusted_browser_unlock")
    then some trusted_browser_unlock
    else if bytes_eq value (codes "initial_provisioning")
    then some initial_provisioning
    else if bytes_eq value (codes "recovery")
    then some recovery
    else if bytes_eq value (codes "browser_replacement")
    then some browser_replacement
    else if bytes_eq value (codes "vmk_rekey")
    then some vmk_rekey
    else none

unfoldable pub presence_operation : Operation → PresenceOperation
presence_operation trusted_browser_unlock = Presence.trusted_browser_unlock
presence_operation initial_provisioning = Presence.initial_provisioning
presence_operation recovery = Presence.recovery
presence_operation browser_replacement = Presence.browser_replacement
presence_operation vmk_rekey = Presence.vmk_rekey

abbrev pub max_device_id_bytes : ℕ
max_device_id_bytes = 64

pub record TranscriptInput : Type 0 where
  pub operation : Operation
  pub device_id : Bytes
  pub vault_id : Bytes
  pub expected_generation : ℕ
  pub registration_id : Bytes
  pub registration_epoch : ℕ
  pub attempt_id : Bytes
  pub challenge : Bytes
  pub device_ephemeral_public_key : Bytes
  pub web_ephemeral_public_key : Bytes
  pub current_brk_public_key : Bytes
  pub proposed_brk_public_key : Bytes

-- The bytes that `append_u32` and `append_u64` write, most significant first.
unfoldable pub append_be : ℕ → ℕ → Bytes
append_be zero value = []
append_be (suc n) value = value / 2 ^ (8 * n) % 2 ^ 8 ∷ append_be n value

abbrev pub is_zero_public_key : Bytes → Bool
is_zero_public_key key = all_zero key

abbrev pub p256_public_key_bytes : ℕ
p256_public_key_bytes = 65

-- `import_public_key` stands for the import by the library.
unfoldable pub valid_p256_public_key : (Bytes → Bool) → Bytes → Bool
valid_p256_public_key import_public_key public_key =
    length public_key == p256_public_key_bytes
    && get_or public_key 0 0 == 4
    && import_public_key public_key

-- The checks of `encode_transcript` for each operation.
unfoldable pub identities_fit : Operation → Bytes → Bytes → ℕ → Bool
identities_fit trusted_browser_unlock current proposed epoch =
    not (is_zero_public_key current) && not (epoch == 0)
identities_fit initial_provisioning current proposed epoch =
    is_zero_public_key current && not (is_zero_public_key proposed) && epoch == 0
identities_fit recovery current proposed epoch = not (is_zero_public_key proposed)
identities_fit browser_replacement current proposed epoch = not (is_zero_public_key proposed)
identities_fit vmk_rekey current proposed epoch =
    not (is_zero_public_key current) && not (epoch == 0)

unfoldable pub transcript_bytes : TranscriptInput → Bytes
transcript_bytes input =
    77
    ∷ 53
    ∷ 65
    ∷ 83
    ∷ 1
    ∷ 2
    ∷ operation_code input.operation
    ∷ length input.device_id % 2 ^ 8
    ∷ (input.device_id
        ++ (input.vault_id
            ++ (append_be 8 input.expected_generation
                ++ (input.registration_id
                    ++ (append_be 4 input.registration_epoch
                        ++ (input.attempt_id
                            ++ (input.challenge
                                ++ (input.device_ephemeral_public_key
                                    ++ (input.web_ephemeral_public_key
                                        ++ (input.current_brk_public_key
                                            ++ input.proposed_brk_public_key))))))))))

module _ (import_public_key : Bytes → Bool) where
  unfoldable pub valid_optional_p256_identity : Bytes → Bool
  valid_optional_p256_identity key =
      is_zero_public_key key || valid_p256_public_key import_public_key key

  unfoldable pub encode_transcript : TranscriptInput → Option Bytes
  encode_transcript input =
      if is_empty input.device_id || ltb max_device_id_bytes (length input.device_id)
      then none
      else if not (valid_p256_public_key import_public_key input.device_ephemeral_public_key)
          || not (valid_p256_public_key import_public_key input.web_ephemeral_public_key)
      then none
      else if not (valid_optional_p256_identity input.current_brk_public_key)
          || not (valid_optional_p256_identity input.proposed_brk_public_key)
      then none
      else if not (
          identities_fit input.operation input.current_brk_public_key input.proposed_brk_public_key
            input.registration_epoch)
      then none
      else if length (transcript_bytes input) == 360 + length input.device_id
      then some (transcript_bytes input)
      else none
