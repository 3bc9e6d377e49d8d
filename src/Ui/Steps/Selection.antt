-- ===== src/Ui/Steps/Selection.antt =====
-- The invariant of the display, with lemmas on the selection and the list of accounts.
use m5authenticator.Prelude.{
  ℕ, ◌≡◌, refl, ◌⊎◌, inl, inr, Bool, true, false, Option, none, some, List, [], ◌∷◌, arith,
  if◌then◌else◌, Bool-cases, is_empty,
}
use m5authenticator.Presence.{UserPresenceGate, PresenceOperation}
use m5authenticator.Presence
use m5authenticator.Ui.{
  AccountMetadata, UiModel, accounts_equal, has_id, contains_id, sort_accounts, front_id,
  hide_reveal, select_valid, update_accounts, id_after, last_id, id_before, select_id, select_next,
  select_previous,
}
use m5authenticator.Ui.Accounts.{
  Sorted, has_front, has_last, id_after-cases, id_before-cases, sort_accounts-Sorted,
}

-- `whole`: one of the accounts is selected, or there is none. `owned`: a code that is shown has its account.
pub record Inv (u : UiModel) : Type 0 where
  pub whole : (has_id u.selected_id u.accounts ≡ true) ⊎ ((u.accounts ≡ []) × (u.selected_id ≡ 0))
  pub sorted : Sorted u.accounts
  pub hidden : u.reveal_active ≡ false → (u.revealed_code ≡ 0) × (u.reveal_deadline_ms ≡ 0)
  pub exclusive : Presence.active u.presence ≡ true → u.reveal_active ≡ false
  pub owned : u.reveal_active ≡ true → has_id u.selected_id u.accounts ≡ true

pub hide_reveal-Inv : (u : UiModel) → Inv u → Inv (hide_reveal u).1
unfolding hide_reveal
hide_reveal-Inv u v = ground (arith, v)

pub chosen-Inv :
    (u : UiModel) (id : ℕ)
    → Inv u
    → (has_id id u.accounts ≡ true) ⊎ ((u.accounts ≡ []) × (id ≡ 0))
    → Inv (record ((hide_reveal u).1) { selected_id = id })
unfolding hide_reveal
chosen-Inv u id v h = ground arith

pub select_id-Inv :
    (u : UiModel) (m : Option ℕ) (changed : Bool)
    → Inv u
    → ((x : ℕ) → m ≡ some x → has_id x u.accounts ≡ true)
    → Inv (select_id m (hide_reveal u).1 changed).1
unfolding select_id hide_reveal
select_id-Inv u none changed v h = chosen-Inv u (front_id u.accounts) v (has_front u.accounts)
select_id-Inv u (some id) changed v h = chosen-Inv u id v (inl (h id refl))

pub next_id :
    (u : UiModel) (x : ℕ)
    → is_empty u.accounts ≡ false
    → id_after (front_id u.accounts) u.selected_id u.accounts ≡ some x
    → has_id x u.accounts ≡ true
next_id u x h e = elim (id_after-cases (front_id u.accounts) u.selected_id u.accounts e) [
  | inl same ↦ rw same (elim (has_front u.accounts) [
    | inl front ↦ front
    | inr gone ↦ absurd (ground (arith, h, gone))
  ])
  | inr there ↦ there
]

pub previous_id :
    (u : UiModel) (x : ℕ)
    → is_empty u.accounts ≡ false
    → id_before (last_id 0 u.accounts) u.selected_id u.accounts ≡ some x
    → has_id x u.accounts ≡ true
previous_id u x h e = elim (id_before-cases (last_id 0 u.accounts) u.selected_id u.accounts e) [
  | inl same ↦ rw same (has_last 0 u.accounts h)
  | inr there ↦ there
]

pub empty-eq : (accounts : List AccountMetadata) → is_empty accounts ≡ true → accounts ≡ []
empty-eq [] h = refl
empty-eq (a ∷ accounts) h = cc

-- What the two selections have in common.
pub selected-Inv :
    (u : UiModel) (m : Option ℕ)
    → Inv u
    → ((x : ℕ) → is_empty u.accounts ≡ false → m ≡ some x → has_id x u.accounts ≡ true)
    → let (changed, u') = hide_reveal u in
      Inv
        (if Presence.active u.presence
          then (false, u)
          else if is_empty u.accounts
          then (changed, record u' { selected_id = 0 })
          else select_id m u' changed).1
selected-Inv u m v h = elim (Bool-cases (Presence.active u.presence)) [
  | inl busy ↦ rw busy v
  | inr free ↦ elim (Bool-cases (is_empty u.accounts)) [
    | inl bare ↦ rw (free, bare) (chosen-Inv u 0 v (inr (empty-eq u.accounts bare, refl)))
    | inr full ↦ rw (free, full) (select_id-Inv u m (hide_reveal u).0 v λ x e. h x full e)
  ]
]

pub select_next-Inv : (u : UiModel) → Inv u → Inv (select_next u).1
unfolding select_next hide_reveal
select_next-Inv u v =
    selected-Inv u (id_after (front_id u.accounts) u.selected_id u.accounts) v
      λ x h e. next_id u x h e

pub select_previous-Inv : (u : UiModel) → Inv u → Inv (select_previous u).1
unfolding select_previous hide_reveal
select_previous-Inv u v =
    selected-Inv u (id_before (last_id 0 u.accounts) u.selected_id u.accounts) v
      λ x h e. previous_id u x h e

-- The account list is sorted and the display is either hidden or shows the selected account.
pub record Ready (u : UiModel) : Type 0 where
  pub sorted : Sorted u.accounts
  pub hidden : u.reveal_active ≡ false → (u.revealed_code ≡ 0) × (u.reveal_deadline_ms ≡ 0)
  pub exclusive : Presence.active u.presence ≡ true → u.reveal_active ≡ false
  pub covered : u.reveal_active ≡ true → has_id u.selected_id u.accounts ≡ true

pub contains_has :
    (id : ℕ) (accounts : List AccountMetadata)
    → contains_id id accounts ≡ true
    → has_id id accounts ≡ true
contains_has id accounts h = ground arith

pub front_has :
    (accounts : List AccountMetadata) (id : ℕ)
    → has_id id accounts ≡ true
    → has_id (front_id accounts) accounts ≡ true
front_has accounts id h = elim (has_front accounts) [
  | inl front ↦ front
  | inr gone ↦ absurd (unfold has_id in ground (arith, h, gone))
]

pub select_valid-Inv :
    (preferred_id : ℕ) (u : UiModel) → Ready u → Inv (select_valid preferred_id u)
unfolding select_valid
select_valid-Inv preferred_id u r = ground (
  arith,
  contains_has u.selected_id u.accounts,
  contains_has preferred_id u.accounts,
  has_front u.accounts,
  front_has u.accounts u.selected_id,
)

pub updated-Ready :
    (accounts : List AccountMetadata) (u : UiModel)
    → Inv u
    → Ready (record ((hide_reveal u).1) { accounts = sort_accounts accounts })
unfolding hide_reveal
updated-Ready accounts u v = ground (arith, sort_accounts-Sorted accounts)

pub update_accounts-Inv :
    (accounts : List AccountMetadata) (preferred_id : ℕ) (u : UiModel)
    → Inv u
    → Inv (update_accounts accounts preferred_id u).1
unfolding update_accounts
update_accounts-Inv accounts preferred_id u v =
    elim (Bool-cases (accounts_equal u.accounts (sort_accounts accounts))) [
      | inl same ↦ rw same (
          select_valid-Inv preferred_id u (record {
            sorted = v.sorted;
            hidden = v.hidden;
            exclusive = v.exclusive;
            covered = v.owned;
          }))
      | inr other ↦ rw other (select_valid-Inv preferred_id _ (updated-Ready accounts u v))
    ]
