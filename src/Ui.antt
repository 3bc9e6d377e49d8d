-- ===== src/Ui.antt =====
-- firmware/components/m5auth_device_sticks3/ui_model.cpp: the list of accounts, the code that is shown and
-- the request that waits for the button. `std::sort` is an insertion sort.

pub mod Accounts
pub mod Steps
pub mod Reveal
mod Tests
use m5authenticator.Prelude.{
  ℕ, ◌+◌, Bool, true, false, not, ◌&&◌, ◌||◌, Option, none, some, List, [], ◌∷◌, ltb, ◌==◌,
  if◌then◌else◌, Bytes, is_empty, bytes_eq,
}
use m5authenticator.Prelude.{saturating_deadline, u64_max}
use m5authenticator.Presence.{UserPresenceGate, PresenceOperation, PresenceState}
use m5authenticator.Presence

abbrev pub otp_reveal_duration_ms : ℕ
otp_reveal_duration_ms = 10_000

-- Of storage.hpp.
pub record AccountMetadata : Type 0 where
  pub id : ℕ
  pub order : ℕ
  pub issuer : Bytes
  pub account : Bytes
  pub display_name : Bytes

unfoldable pub account_equal : AccountMetadata → AccountMetadata → Bool
account_equal left right =
    left.id == right.id
    && left.order == right.order
    && bytes_eq left.issuer right.issuer
    && bytes_eq left.account right.account
    && bytes_eq left.display_name right.display_name

unfoldable pub account_display_label : AccountMetadata → Bytes
account_display_label a =
    if not (is_empty a.display_name)
    then a.display_name
    else if not (is_empty a.issuer)
    then a.issuer
    else a.account

pub record UiModel : Type 0 where
  pub accounts : List AccountMetadata
  pub selected_id : ℕ
  pub reveal_active : Bool
  pub revealed_code : ℕ
  pub reveal_deadline_ms : ℕ
  pub button_press_generation : ℕ
  pub presence : UserPresenceGate

abbrev pub new_ui : UiModel
new_ui = record {
  accounts = [];
  selected_id = 0;
  reveal_active = false;
  revealed_code = 0;
  reveal_deadline_ms = 0;
  button_press_generation = 0;
  presence = Presence.cleared;
}

unfoldable pub accounts_equal : List AccountMetadata → List AccountMetadata → Bool
accounts_equal [] [] = true
accounts_equal (a ∷ left) (b ∷ right) = account_equal a b && accounts_equal left right
accounts_equal _ _ = false

-- `std::any_of(…, account.id == id)`.
unfoldable pub has_id : ℕ → List AccountMetadata → Bool
has_id id [] = false
has_id id (a ∷ accounts) = a.id == id || has_id id accounts

abbrev pub contains_id : ℕ → List AccountMetadata → Bool
contains_id id accounts = not (id == 0) && has_id id accounts

abbrev pub less : AccountMetadata → AccountMetadata → Bool
less left right =
    if not (left.order == right.order) then ltb left.order right.order else ltb left.id right.id

unfoldable pub insert_account : AccountMetadata → List AccountMetadata → List AccountMetadata
insert_account a [] = a ∷ []
insert_account a (b ∷ accounts) =
    let rest = insert_account a accounts in if less b a then b ∷ rest else a ∷ b ∷ accounts

unfoldable pub sort_accounts : List AccountMetadata → List AccountMetadata
sort_accounts [] = []
sort_accounts (a ∷ accounts) = insert_account a (sort_accounts accounts)

abbrev pub front_id : List AccountMetadata → ℕ
front_id [] = 0
front_id (a ∷ accounts) = a.id

-- With its result, whether there was something to hide.
unfoldable pub hide_reveal : UiModel → Bool × UiModel
hide_reveal u = (
  u.reveal_active || not (u.revealed_code == 0) || not (u.reveal_deadline_ms == 0),
  record u { reveal_active = false; revealed_code = 0; reveal_deadline_ms = 0 },
)

-- The selection, where the selected account is gone.
unfoldable pub select_valid : ℕ → UiModel → UiModel
select_valid preferred_id u =
    if contains_id u.selected_id u.accounts
    then u
    else if contains_id preferred_id u.accounts
    then record u { selected_id = preferred_id }
    else record u { selected_id = front_id u.accounts }

unfoldable pub update_accounts : List AccountMetadata → ℕ → UiModel → Bool × UiModel
update_accounts accounts preferred_id u =
    let sorted = sort_accounts accounts in
    let changed = not (accounts_equal u.accounts sorted) in
    let u' = (if changed then record ((hide_reveal u).1) { accounts = sorted } else u) in
    let r = select_valid preferred_id u' in (changed || not (u.selected_id == r.selected_id), r)

-- The id behind the first account with this id, that of the first account at the end.
unfoldable pub id_after : ℕ → ℕ → List AccountMetadata → Option ℕ
id_after first id [] = none
id_after first id (a ∷ accounts) =
    let rest = id_after first id accounts in
    if a.id == id then some (elim accounts [ [] ↦ first | b ∷ _ ↦ b.id ]) else rest

abbrev pub last_id : ℕ → List AccountMetadata → ℕ
last_id id [] = id
last_id id (a ∷ accounts) = last_id a.id accounts

-- The id in front of the first account with this id; `before` is what stands in front of the list.
unfoldable pub id_before : ℕ → ℕ → List AccountMetadata → Option ℕ
id_before before id [] = none
id_before before id (a ∷ accounts) =
    let rest = id_before a.id id accounts in if a.id == id then some before else rest

-- The common end of the two selections: the id that was found, if any.
unfoldable pub select_id : Option ℕ → UiModel → Bool → Bool × UiModel
select_id none u changed = (true, record u { selected_id = front_id u.accounts })
select_id (some id) u changed =
    (changed || not (id == u.selected_id), record u { selected_id = id })

unfoldable pub select_next : UiModel → Bool × UiModel
select_next u =
    let (changed, u') = hide_reveal u in
    if Presence.active u.presence
    then (false, u)
    else if is_empty u'.accounts
    then (changed, record u' { selected_id = 0 })
    else select_id (id_after (front_id u'.accounts) u'.selected_id u'.accounts) u' changed

unfoldable pub select_previous : UiModel → Bool × UiModel
select_previous u =
    let (changed, u') = hide_reveal u in
    if Presence.active u.presence
    then (false, u)
    else if is_empty u'.accounts
    then (changed, record u' { selected_id = 0 })
    else select_id (id_before (last_id 0 u'.accounts) u'.selected_id u'.accounts) u' changed

unfoldable pub selected_account : ℕ → List AccountMetadata → Option AccountMetadata
selected_account id [] = none
selected_account id (a ∷ accounts) =
    let rest = selected_account id accounts in if a.id == id then some a else rest

-- One more than the index, 0 where there is none.
unfoldable pub selected_position : ℕ → List AccountMetadata → ℕ
selected_position id [] = 0
selected_position id (a ∷ accounts) =
    let rest = selected_position id accounts in
    if a.id == id then 1 else if rest == 0 then 0 else rest + 1

abbrev pub is_present : Option AccountMetadata → Bool
is_present none = false
is_present (some a) = true

unfoldable pub reveal : ℕ → ℕ → UiModel → Bool × UiModel
reveal code now_ms u =
    if Presence.active u.presence || not (is_present (selected_account u.selected_id u.accounts))
    then (false, u)
    else (
      true,
      record u {
        revealed_code = code;
        reveal_active = true;
        reveal_deadline_ms = saturating_deadline now_ms otp_reveal_duration_ms;
      },
    )

unfoldable pub expire : ℕ → UiModel → Bool × UiModel
expire now_ms u =
    if not u.reveal_active || ltb now_ms u.reveal_deadline_ms then (false, u) else hide_reveal u

unfoldable pub begin_unlock_request : PresenceOperation → Bytes → ℕ → UiModel → Bool × UiModel
begin_unlock_request operation attempt_id now_ms u =
    let (reveal_was_visible, u') = hide_reveal u in
    let r = record u' {
      presence = Presence.begin operation attempt_id now_ms u'.button_press_generation u'.presence;
    } in
    (reveal_was_visible || Presence.active r.presence, r)

unfoldable pub expire_unlock_request : ℕ → UiModel → Bool × UiModel
expire_unlock_request now_ms u =
    let (g, expired) = Presence.expire now_ms u.presence in (expired, record u { presence = g })

unfoldable pub cancel_unlock_request : UiModel → UiModel
cancel_unlock_request u = record u { presence = Presence.cancel u.presence }

abbrev pub unlock_request_confirmed : UiModel → Bool
unlock_request_confirmed u = Presence.is_confirmed u.presence.state

unfoldable pub observe_primary_button_state : Bool → UiModel → UiModel
observe_primary_button_state pressed u = record u {
  presence = Presence.observe_input_state pressed u.presence;
}

unfoldable pub primary_button_pressed : ℕ → UiModel → Bool × UiModel
primary_button_pressed now_ms u =
    let generation =
      (if not (u.button_press_generation == u64_max)
        then u.button_press_generation + 1
        else u.button_press_generation) in
    let u' = record u { button_press_generation = generation } in
    let (g, confirmed) = Presence.confirm_current now_ms generation u.presence in
    if not (Presence.active u.presence)
    then (false, u')
    else (confirmed, record u' { presence = g })

unfoldable pub consume_unlock_confirmation : Bytes → ℕ → UiModel → Bool × UiModel
consume_unlock_confirmation attempt_id now_ms u =
    let (g, consumed) = Presence.consume_confirmation attempt_id now_ms u.presence in
    (consumed, record u { presence = g })
