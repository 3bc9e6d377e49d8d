-- ===== src/VaultRuntime/Access.antt =====
-- The operations of `Runtime` that need the key in memory: the reads of the plaintext and the
-- commits of a new envelope.
use m5authenticator.Prelude.{
  ℕ, Bool, true, false, not, ◌||◌, Option, none, some, List, [], ◌∷◌, map, leb, if◌then◌else◌,
  Bytes, replicate, bytes_eq,
}
use m5authenticator.VaultRuntime.{
  locked_status, Runtime, Status, Persistence, Opened, validate_envelope_with_key, open_envelope,
  clear_unlock_session_state, wipe_vmk, automatic_lock_due, State, ok, not_found, not_ready, is_ok,
  is_locked, error, invalid_state, unprovisioned, opened, refused,
}
use m5authenticator.VaultRuntime.Operations.Boundaries.{
  usable, fatal_security_error, successor_status, committed, adopt_committed, or_corrupt,
}
use m5authenticator.Vault.{
  VaultEnvelope, CredentialRecord, WifiRecord, VaultPlaintext, empty_envelope,
}
use m5authenticator.Vault.Crypto.{AesGcm}

abbrev pub find_credential : Bytes → List CredentialRecord → Option CredentialRecord
find_credential id [] = none
find_credential id (c ∷ cs) = if bytes_eq c.credential_id id then some c else find_credential id cs

pub record CredentialMetadata : Type 0 where
  pub credential_id : Bytes
  pub issuer : Bytes
  pub account : Bytes
  pub display_name : Bytes
  pub manual_order : ℕ

abbrev pub metadata_of : CredentialRecord → CredentialMetadata
metadata_of c = record {
  credential_id = c.credential_id;
  issuer = c.issuer;
  account = c.account;
  display_name = c.display_name;
  manual_order = c.manual_order;
}

pub record Metadata : Type 0 where
  pub state : State
  pub schema_ready : Bool
  pub has_vault : Bool
  pub recovery_reset_allowed : Bool
  pub storage_schema_version : ℕ
  pub vault_format_version : ℕ
  pub vault_id : Bytes
  pub generation : ℕ
  pub last_used : Option Bytes

-- Nothing where the source returns `kNotReady`.
unfoldable pub metadata : Runtime → Option Metadata
metadata r =
    if not r.initialized
    then none
    else some (record {
      state = r.state;
      schema_ready = r.schema_ready;
      has_vault = r.has_vault;
      recovery_reset_allowed = r.recovery_reset_allowed;
      storage_schema_version = (if r.schema_ready then 2 else 0);
      vault_format_version = (if r.has_vault then r.envelope.vault_format_version else 0);
      vault_id = (if r.has_vault then r.envelope.vault_id else replicate 16 0);
      generation = (if r.has_vault then r.envelope.generation else 0);
      last_used = r.last_used;
    })

-- `std::stable_sort` by `manual_order`: a stable order is unique, so an insertion sort gives it.
unfoldable pub insert_metadata :
    CredentialMetadata → List CredentialMetadata → List CredentialMetadata
insert_metadata m [] = m ∷ []
insert_metadata m (x ∷ xs) =
    let rest = insert_metadata m xs in
    if leb m.manual_order x.manual_order then m ∷ x ∷ xs else x ∷ rest

unfoldable pub sort_metadata : List CredentialMetadata → List CredentialMetadata
unfolding insert_metadata
sort_metadata [] = []
sort_metadata (m ∷ ms) = insert_metadata m (sort_metadata ms)

module _ {Store : Type 0} (persistence : Persistence Store) (gcm : AesGcm) where
  -- What follows the decryption: a failure puts the runtime into the error state.
  abbrev pub use_opened :
      {A : Type 0}
      → A
      → (VaultPlaintext → Status × (A × (Runtime × Store)))
      → Runtime × Store
      → Opened
      → Status × (A × (Runtime × Store))
  use_opened nothing f (r, store) (opened plaintext) = f plaintext
  use_opened nothing f (r, store) (refused status) =
      (status, (nothing, ((fatal_security_error r).1, store)))

  -- Opens the envelope with the resident key.
  unfoldable pub with_plaintext :
      {A : Type 0}
      → A
      → (VaultPlaintext → Status × (A × (Runtime × Store)))
      → Runtime × Store
      → Status × (A × (Runtime × Store))
  with_plaintext nothing f (r, store) =
      if not r.initialized
      then (not_ready, (nothing, (r, store)))
      else if not (usable r)
      then (locked_status, (nothing, (r, store)))
      else use_opened nothing f (r, store) (open_envelope gcm r.envelope r.vmk)

  unfoldable pub list_credentials :
      Runtime × Store → Status × (List CredentialMetadata × (Runtime × Store))
  unfolding with_plaintext
  list_credentials (r, store) =
      with_plaintext []
        (λ plaintext. (ok, (sort_metadata (map metadata_of plaintext.credentials), (r, store))))
        (r, store)

  -- `with_credential`, with what the caller's consumer answers.
  unfoldable pub with_credential :
      Bytes
      → (CredentialRecord → Status)
      → Runtime × Store
      → Status × (Unit {0} × (Runtime × Store))
  unfolding with_plaintext
  with_credential id consumer (r, store) =
      with_plaintext tt (λ plaintext. consume (find_credential id plaintext.credentials)) (r, store)
    where
      consume : Option CredentialRecord → Status × (Unit {0} × (Runtime × Store))
      consume none = (not_found, (tt, (r, store)))
      consume (some credential) =
          let status = consumer credential in
          let (recorded, store') = persistence.set_last_used (some id) store in
          if not (is_ok status)
          then (status, (tt, (r, store)))
          else if not (is_ok recorded)
          then (recorded, (tt, (r, store')))
          else (ok, (tt, (record r { last_used = some id }, store')))

  unfoldable pub with_wifi :
      (WifiRecord → Status) → Runtime × Store → Status × (Unit {0} × (Runtime × Store))
  unfolding with_plaintext
  with_wifi consumer (r, store) = with_plaintext tt (λ plaintext. consume plaintext.wifi) (r, store)
    where
      consume : Option WifiRecord → Status × (Unit {0} × (Runtime × Store))
      consume none = (not_found, (tt, (r, store)))
      consume (some wifi) = (consumer wifi, (tt, (r, store)))

  unfoldable pub set_last_used : Bytes → Runtime × Store → Status × (Unit {0} × (Runtime × Store))
  unfolding with_plaintext
  set_last_used id (r, store) =
      with_plaintext tt (λ plaintext. mark (find_credential id plaintext.credentials)) (r, store)
    where
      mark : Option CredentialRecord → Status × (Unit {0} × (Runtime × Store))
      mark none = (not_found, (tt, (r, store)))
      mark (some _) =
          let (status, store') = persistence.set_last_used (some id) store in
          if not (is_ok status)
          then (status, (tt, (r, store')))
          else (ok, (tt, (record r { last_used = some id }, store')))

  unfoldable pub factory_reset : Runtime × Store → Status × (Runtime × Store)
  factory_reset (r, store) =
      let cleared = clear_unlock_session_state r in
      let (status, store') = persistence.erase_all store in
      if not r.initialized
      then (not_ready, (r, store))
      else if not (is_ok status)
      then (status, (record cleared { state = error; recovery_reset_allowed = false }, store'))
      else (
        ok,
        (
          record cleared {
            schema_ready = false;
            has_vault = false;
            recovery_reset_allowed = false;
            envelope = empty_envelope;
            last_used = none;
            state = unprovisioned;
          },
          store',
        ),
      )

  -- The flag beside the result is `automatic_lock_due_after_commit`.
  unfoldable pub update_encrypted_vault :
      ℕ → VaultEnvelope → ℕ → Runtime × Store → Status × (Bool × (Runtime × Store))
  update_encrypted_vault expected_generation envelope now_ms (r, store) =
      let successor = successor_status expected_generation envelope r.envelope in
      let (valid, policy) = validate_envelope_with_key gcm envelope r.vmk in
      let (replaced, store') = persistence.replace_envelope expected_generation envelope store in
      let (status, snapshot) = persistence.load store' in
      let done = record (adopt_committed snapshot r) { auto_lock_days = policy } in
      if not r.initialized
      then (not_ready, (false, (r, store)))
      else if not (usable r)
      then (locked_status, (false, (r, store)))
      else if not (is_ok successor)
      then (successor, (false, (r, store)))
      else if not (is_ok valid)
      then (valid, (false, (r, store)))
      else if not (is_ok replaced)
      then (replaced, (false, (r, store')))
      else if not (committed status snapshot envelope)
      then (or_corrupt status, (false, ((fatal_security_error r).1, store')))
      else (ok, (automatic_lock_due now_ms done, (done, store')))

  -- Its `now_ms` is not used.
  unfoldable pub rekey_encrypted_vault :
      ℕ → VaultEnvelope → Bytes → Runtime × Store → Status × (Runtime × Store)
  rekey_encrypted_vault expected_generation envelope vmk (r, store) =
      let successor = successor_status expected_generation envelope r.envelope in
      let (valid, policy) = validate_envelope_with_key gcm envelope vmk in
      let (replaced, store') = persistence.replace_envelope expected_generation envelope store in
      let (status, snapshot) = persistence.load store' in
      let done = record (adopt_committed snapshot (wipe_vmk r)) {
        vmk = vmk;
        vmk_present = true;
        auto_lock_days = policy;
      } in
      if not r.initialized
      then (not_ready, (r, store))
      else if not (is_locked r.state)
          || r.vmk_present
          || not r.has_vault
          || not r.unlock_session_active
      then (invalid_state, (r, store))
      else if not (is_ok successor)
      then (successor, (r, store))
      else if not (is_ok valid)
      then (valid, (r, store))
      else if not (is_ok replaced)
      then (replaced, (r, store'))
      else if not (committed status snapshot envelope)
      then (or_corrupt status, (clear_unlock_session_state (record r { state = error }), store'))
      else (ok, (done, store'))
