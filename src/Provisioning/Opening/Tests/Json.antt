-- ===== src/Provisioning/Opening/Tests/Json.antt =====
-- A parser that knows the messages of a session, as a value of the interface `Cjson`.
use m5authenticator.Prelude.{
  ℕ, Bool, true, false, Option, none, some, List, [], ◌∷◌, ◌==◌, if◌then◌else◌, Bytes, replicate,
  bytes_eq, codes, get_or,
}
use m5authenticator.Session.Tests.{context, web_key}
use m5authenticator.Session.Base64.{base64url_encode}
use m5authenticator.Provisioning.Handler.Request.{Cjson}

pub data Item : Type 0 where
  request : ℕ → Item
  fields : ℕ → Item
  text : Bytes → Item
  number : ℕ → Item

-- The three messages, by their number.
abbrev pub operation_of : ℕ → Bytes
operation_of n =
    if n == 1
    then codes "session.begin"
    else if n == 2
    then codes "session.authorize"
    else codes "session.complete"

abbrev pub bytes_of : Bytes → Option Item
bytes_of value = some (text (base64url_encode value))

abbrev pub look : List (Bytes × Option Item) → Bytes → Option Item
look [] key = none
look ((name, item) ∷ rest) key =
    let next = look rest key in if bytes_eq name key then item else next

abbrev pub item_of : Item → Bytes → Option Item
item_of (request n) key =
    look
      ((codes "id", some (number n))
        ∷ (codes "v", some (number 2))
        ∷ (codes "op", some (text (operation_of n)))
        ∷ (codes "params", some (fields n))
        ∷ [])
      key
item_of (fields n) key =
    look
      ((codes "operation", some (text (codes "trusted_browser_unlock")))
        ∷ (codes "device_id", some (text context.device_id))
        ∷ (codes "vault_id", bytes_of context.vault_id)
        ∷ (codes "expected_generation", some (text (codes "3")))
        ∷ (codes "registration_id", bytes_of context.registration_id)
        ∷ (codes "registration_epoch", some (number 1))
        ∷ (codes "current_brk_public_key", bytes_of context.current_brk_public_key)
        ∷ (codes "proposed_brk_public_key", bytes_of context.proposed_brk_public_key)
        ∷ (codes "attempt_id", bytes_of (replicate 16 7))
        ∷ (codes "web_public_key", bytes_of web_key)
        ∷ (codes "brk_signature", bytes_of (replicate 64 3))
        ∷ (codes "nonce", bytes_of (replicate 12 0))
        ∷ (codes "ciphertext", bytes_of (replicate 32 4))
        ∷ (codes "tag", bytes_of (replicate 16 9))
        ∷ [])
      key
item_of _ key = none

abbrev pub string_in : Item → Option Bytes
string_in (text value) = some value
string_in _ = none

abbrev pub natural_in : Item → Option ℕ
natural_in (number n) = some n
natural_in _ = none

abbrev pub is_map : Item → Bool
is_map (request n) = true
is_map (fields n) = true
is_map _ = false

abbrev pub json : Cjson Item
json = record {
  parse = λ line. some (request (get_or line 0 0));
  is_object = is_map;
  get_item = λ item key. item_of item (codes key);
  string_of = string_in;
  natural_of = natural_in;
}
