-- ===== src/Ui/Accounts.antt =====
-- The account list: its order, and the ids that the selection finds.
use m5authenticator.Prelude.{
  ℕ, ◌≡◌, refl, ◌⊎◌, inl, inr, true, false, some, List, [], ◌∷◌, arith, Bool-cases, ==_iff,
  is_empty,
}
use m5authenticator.Ui.{
  AccountMetadata, has_id, less, insert_account, sort_accounts, front_id, id_after, last_id,
  id_before,
}

-- The first account is not in front of `a`.
abbrev pub Above : AccountMetadata → List AccountMetadata → Type 0
Above a [] = Unit {0}
Above a (b ∷ accounts) = less b a ≡ false

abbrev pub Sorted : List AccountMetadata → Type 0
Sorted [] = Unit {0}
Sorted (a ∷ accounts) = Above a accounts × Sorted accounts

less_asym : (a b : AccountMetadata) → less a b ≡ true → less b a ≡ false
less_asym a b h = ground arith

insert_account-Above :
    (a b : AccountMetadata) (accounts : List AccountMetadata)
    → Above b accounts
    → less a b ≡ false
    → Above b (insert_account a accounts)
unfolding insert_account
insert_account-Above a b [] h k = k
insert_account-Above a b (c ∷ accounts) h k = elim (Bool-cases (less c a)) [
  | inl e ↦ rw e h
  | inr e ↦ rw e k
]

insert_account-Sorted :
    (a : AccountMetadata) (accounts : List AccountMetadata)
    → Sorted accounts
    → Sorted (insert_account a accounts)
unfolding insert_account
insert_account-Sorted a [] h = (tt, tt)
insert_account-Sorted a (b ∷ accounts) h = elim (Bool-cases (less b a)) [
  | inl e ↦ rw e (
    insert_account-Above a b accounts h.0 (less_asym b a e),
    insert_account-Sorted a accounts h.1,
  )
  | inr e ↦ rw e (e, h)
]

pub sort_accounts-Sorted : (accounts : List AccountMetadata) → Sorted (sort_accounts accounts)
unfolding sort_accounts
sort_accounts-Sorted [] = tt
sort_accounts-Sorted (a ∷ accounts) =
    insert_account-Sorted a (sort_accounts accounts) (sort_accounts-Sorted accounts)

pub has_front :
    (accounts : List AccountMetadata)
    → (has_id (front_id accounts) accounts ≡ true) ⊎ ((accounts ≡ []) × (front_id accounts ≡ 0))
unfolding has_id
has_front [] = inr (refl, refl)
has_front (a ∷ accounts) = inl (ground (arith, ==_iff a.id a.id))

pub has_last :
    (id : ℕ) (accounts : List AccountMetadata)
    → is_empty accounts ≡ false
    → has_id (last_id id accounts) accounts ≡ true
unfolding has_id
has_last id [] h = cc
has_last id (a ∷ []) h = ground (arith, ==_iff a.id a.id)
has_last id (a ∷ b ∷ accounts) h = ground (arith, has_last a.id (b ∷ accounts) refl)

pub id_after-cases :
    (first id : ℕ) (accounts : List AccountMetadata) {x : ℕ}
    → id_after first id accounts ≡ some x
    → (x ≡ first) ⊎ (has_id x accounts ≡ true)
unfolding id_after has_id
id_after-cases first id [] e = cc
id_after-cases first id (a ∷ []) e = ground arith
id_after-cases first id (a ∷ b ∷ accounts) {x} e =
    ground (arith, id_after-cases first id (b ∷ accounts) {x = x}, ==_iff b.id b.id)

pub id_before-cases :
    (before id : ℕ) (accounts : List AccountMetadata) {x : ℕ}
    → id_before before id accounts ≡ some x
    → (x ≡ before) ⊎ (has_id x accounts ≡ true)
unfolding id_before has_id
id_before-cases before id [] e = cc
id_before-cases before id (a ∷ accounts) {x} e =
    ground (arith, id_before-cases a.id id accounts {x = x}, ==_iff a.id x)
