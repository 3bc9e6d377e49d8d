-- ===== src/Provisioning/Handler/Request.antt =====
-- The readers of a request (firmware/components/m5auth_provisioning/session_protocol_v2.cpp). The
-- JSON library (cJSON) is the interface `Cjson`, and its documents are what the library makes of them.
-- The wiping of the texts and of the decoded buffers is left out.
use m5authenticator.Prelude.{
  ℕ, ◌+◌, ◌-◌, ◌*◌, ◌/◌, ◌^◌, Bool, not, ◌&&◌, ◌||◌, Option, none, some, [], ◌∷◌, ltb, leb, ◌==◌,
  if◌then◌else◌, length, Bytes, is_empty, ◌>>=◌, ◌>>◌, guard,
}
use Prim.Native.String.{String}
use m5authenticator.Session.{parse_operation, max_device_id_bytes}
use m5authenticator.Session.Base64.{base64url_decode}
use m5authenticator.Session.Device.{brk_signature_bytes}
use m5authenticator.Session.Attempts.Context.{BeginContext}
use m5authenticator.Prelude.{u64_max, u32_max}

-- `parse` is `cJSON_ParseWithLength`, `get_item` is `cJSON_GetObjectItemCaseSensitive`, `string_of` the
-- `valuestring` of a string. `natural_of` is the number of an item whose `valuedouble` is finite, not
-- negative and integral: those that the conversion to an integer and back leaves as they are.
pub record Cjson (J : Type 0) : Type 0 where
  pub parse : Bytes → Option J
  pub is_object : J → Bool
  pub get_item : J → String → Option J
  pub string_of : J → Option Bytes
  pub natural_of : J → Option ℕ

abbrev pub int_max : ℕ
int_max = 2 ^ 31 - 1

-- The loop of `parse_u64_decimal`; `char` values below '0' and above '9' end it.
unfoldable pub parse_digits : ℕ → Bytes → Option ℕ
parse_digits parsed [] = some parsed
parse_digits parsed (c ∷ text) =
    let rest = parse_digits (parsed * 10 + (c - 48)) text in
    if ltb c 48 || ltb 57 c
    then none
    else if ltb ((u64_max - (c - 48)) / 10) parsed
    then none
    else rest

unfoldable pub parse_u64_decimal : Bytes → Option ℕ
unfolding parse_digits
parse_u64_decimal [] = none
parse_u64_decimal (c ∷ text) =
    if c == 48 && not (is_empty text) then none else parse_digits 0 (c ∷ text)

-- Whether an optional value is there.
abbrev pub at_most : ℕ → ℕ → Option ℕ
at_most bound n = if leb n bound then some n else none

module _ {J : Type 0} (json : Cjson J) where
  unfoldable pub read_nonnegative_int : Option J → Option ℕ
  read_nonnegative_int item = item >>= json.natural_of >>= at_most int_max

  unfoldable pub read_u32_allow_zero : Option J → Option ℕ
  read_u32_allow_zero item = item >>= json.natural_of >>= at_most u32_max

  unfoldable pub text_of : J → String → Option Bytes
  text_of object key = json.get_item object key >>= json.string_of

  unfoldable pub read_string : J → String → ℕ → Option Bytes
  unfolding text_of
  read_string object key maximum = do
    value ← text_of object key
    guard (not (is_empty value || ltb maximum (length value)))
    some value

  unfoldable pub read_binary : J → String → ℕ → Option Bytes
  unfolding text_of
  read_binary object key n = do
    value ← text_of object key
    decoded ← base64url_decode value
    guard (length decoded == n)
    some decoded

  abbrev pub signature_of : J → Option Bytes
  signature_of item = do
    value ← json.string_of item
    decoded ← base64url_decode value
    guard (length decoded == brk_signature_bytes)
    some decoded

  unfoldable pub read_optional_signature : J → Option Bytes
  read_optional_signature object = given (json.get_item object "brk_signature")
    where
      given : Option J → Option Bytes
      given none = some []
      given (some item) = signature_of item

  unfoldable pub parse_begin_context : J → Option BeginContext
  unfolding read_string read_binary read_u32_allow_zero text_of
  parse_begin_context params = do
    name ← read_string params "operation" 32
    operation ← parse_operation name
    device_id ← read_string params "device_id" max_device_id_bytes
    vault_id ← read_binary params "vault_id" 16
    registration_id ← read_binary params "registration_id" 16
    registration_epoch ← read_u32_allow_zero (json.get_item params "registration_epoch")
    current_brk_public_key ← read_binary params "current_brk_public_key" 65
    proposed_brk_public_key ← read_binary params "proposed_brk_public_key" 65
    generation ← text_of params "expected_generation"
    expected_generation ← parse_u64_decimal generation
    some (record {
      operation = operation;
      device_id = device_id;
      vault_id = vault_id;
      expected_generation = expected_generation;
      registration_id = registration_id;
      registration_epoch = registration_epoch;
      current_brk_public_key = current_brk_public_key;
      proposed_brk_public_key = proposed_brk_public_key;
    })
