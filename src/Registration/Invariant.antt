-- ===== src/Registration/Invariant.antt =====
-- What holds of the registration store between any two calls.
use m5authenticator.Prelude.{
  ℕ, ◌≡◌, refl, ◌≢◌, Bool, true, false, List, [], ◌∷◌, arith, Bytes, replicate, all_zero,
}
use m5authenticator.Nvs.{Nvs, readonly}
use m5authenticator.Registration.{
  Status, Snapshot, Store, unregistered, new_store, decode_registration,
}
use m5authenticator.Registration.Operations.{
  RegistrationKey, read_registration, load_registration, initialize_with, initialize,
  persist_registration, install_initial, replace, registration_key, load_or_create_device_id,
  refreshed, generate_device_id_candidate,
}
use m5authenticator.Registration.Operations.Recovery.{
  clear_registration, clear_corrupt_registration_for_recovery, reinitialize_after_partition_reset,
}

-- A registration that is present is whole, one that is absent is blank.
pub record IsWhole (valid_public_key : Bytes → Bool) (s : Snapshot) : Type 0 where
  pub vault : s.registration_present ≡ true → all_zero s.vault_id ≡ false
  pub registration : s.registration_present ≡ true → all_zero s.registration_id ≡ false
  pub counted : s.registration_present ≡ true → s.epoch ≢ 0
  pub key : s.registration_present ≡ true → valid_public_key s.brk_public_key ≡ true
  pub blank : s.registration_present ≡ false → s ≡ unregistered s.device_id

-- `exclusive`: a store that is ready offers no recovery. `offered`: a Device id is rewritten only as
-- part of a recovery.
pub record Inv (valid_public_key : Bytes → Bool) (r : Store) : Type 0 where
  pub whole : IsWhole valid_public_key r.current
  pub exclusive : r.ready ≡ true → r.recovery_reset_available ≡ false
  pub offered : r.device_id_recovery_required ≡ true → r.recovery_reset_available ≡ true
  pub unready : r.ready ≡ false → r.current.registration_present ≡ false

pub data Call : Type 0 where
  initializes reinitializes : List Bytes → List Bytes → Call
  installs : Bytes → Bytes → ℕ → Bytes → Call
  replaces : Bytes → ℕ → Bytes → ℕ → Bytes → Call
  clears recovers : Call

module _ {S : Type 0} (nvs : Nvs RegistrationKey S) (valid_public_key : Bytes → Bool) where
  unfoldable pub step : Call → Store × S → Store × S
  step (initializes draws recovery_draws) x =
      (initialize nvs valid_public_key draws recovery_draws x).1
  step (reinitializes draws recovery_draws) x =
      (reinitialize_after_partition_reset nvs valid_public_key draws recovery_draws x).1
  step (installs vault_id id epoch key) x =
      (install_initial nvs valid_public_key vault_id id epoch key x).1
  step (replaces vault_id expected id epoch key) x =
      (replace nvs valid_public_key vault_id expected id epoch key x).1
  step clears x = (clear_registration nvs valid_public_key x).1
  step recovers x = (clear_corrupt_registration_for_recovery nvs valid_public_key x).1

  unfoldable pub run : List Call → Store × S → Store × S
  unfolding step
  run [] x = x
  run (c ∷ cs) x = run cs (step c x)

  unregistered-IsWhole : (id : Bytes) → IsWhole valid_public_key (unregistered id)
  unfolding unregistered
  unregistered-IsWhole id = ground arith

  unregistered_absent : (id : Bytes) → (unregistered id).registration_present ≡ false
  unfolding unregistered
  unregistered_absent id = refl

  decode_registration-IsWhole :
      (encoded id : Bytes)
      → IsWhole valid_public_key (decode_registration valid_public_key encoded id).1
  unfolding decode_registration
  decode_registration-IsWhole encoded id = ground (arith, unregistered-IsWhole id)

  read_registration-IsWhole :
      (id : Bytes) (s : S)
      → IsWhole valid_public_key (read_registration nvs valid_public_key id s).1
  unfolding read_registration
  read_registration-IsWhole id s = ground (
    arith,
    unregistered-IsWhole id,
    decode_registration-IsWhole (nvs.get_blob registration_key s).1 id,
  )

  load_registration-IsWhole :
      (id : Bytes) (s : S)
      → IsWhole valid_public_key (load_registration nvs valid_public_key id s).0.1
  unfolding load_registration
  load_registration-IsWhole id s = ground (
    arith,
    unregistered-IsWhole id,
    read_registration-IsWhole id (nvs.open_namespace readonly s).1,
  )

  initialize_with-Inv :
      (id : Bytes) (status : Status) (loaded : Snapshot)
      → IsWhole valid_public_key loaded
      → Inv valid_public_key (initialize_with nvs valid_public_key id (status, loaded)).1
  unfolding initialize_with
  initialize_with-Inv id status loaded w = ground (
    arith,
    unregistered-IsWhole id,
    unregistered_absent id,
    unregistered-IsWhole (replicate 16 0),
    unregistered_absent (replicate 16 0),
  )

  new_store-Inv : Inv valid_public_key new_store
  new_store-Inv =
      ground (arith, unregistered-IsWhole (replicate 16 0), unregistered_absent (replicate 16 0))

  initialize-Inv :
      (draws recovery_draws : List Bytes) (r : Store) (s : S)
      → Inv valid_public_key (initialize nvs valid_public_key draws recovery_draws (r, s)).1.0
  unfolding initialize
  initialize-Inv draws recovery_draws r s =
      let s1 = (nvs.init s).1 in
      let made = load_or_create_device_id nvs valid_public_key draws s1 in
      let id = made.0.1 in
      let candidate = generate_device_id_candidate recovery_draws in
      let loaded = (load_registration nvs valid_public_key id made.1).0 in
      ground (
        arith,
        new_store-Inv,
        unregistered-IsWhole candidate,
        unregistered_absent candidate,
        unregistered-IsWhole id,
        unregistered_absent id,
        initialize_with-Inv id loaded.0 loaded.1 (load_registration-IsWhole id made.1),
      )

  persist_registration-Inv :
      (vault_id id : Bytes) (epoch : ℕ) (key : Bytes) (r : Store) (s : S)
      → Inv valid_public_key r
      → r.ready ≡ true
      → Inv valid_public_key
          (persist_registration nvs valid_public_key vault_id id epoch key (r, s)).1.0
  unfolding persist_registration
  persist_registration-Inv vault_id id epoch key r s v e = ground arith

  refreshed-Inv :
      (r : Store) (s : S)
      → Inv valid_public_key r
      → r.ready ≡ true
      → Inv valid_public_key (
          refreshed nvs valid_public_key r
            (load_registration nvs valid_public_key r.current.device_id s).0.1)
  refreshed-Inv r s v e = ground (arith, load_registration-IsWhole r.current.device_id s)

  install_initial-Inv :
      (vault_id id : Bytes) (epoch : ℕ) (key : Bytes) (r : Store) (s : S)
      → Inv valid_public_key r
      → Inv valid_public_key (install_initial nvs valid_public_key vault_id id epoch key (r, s)).1.0
  unfolding install_initial
  install_initial-Inv vault_id id epoch key r s v =
      let loaded = load_registration nvs valid_public_key r.current.device_id s in
      let r' = refreshed nvs valid_public_key r loaded.0.1 in
      ground (
        arith,
        refreshed-Inv r s v,
        λ (e : r.ready ≡ true).
            persist_registration-Inv vault_id id epoch key r' loaded.1 (refreshed-Inv r s v e) e,
      )

  replace-Inv :
      (vault_id : Bytes) (expected : ℕ) (id : Bytes) (epoch : ℕ) (key : Bytes) (r : Store) (s : S)
      → Inv valid_public_key r
      → Inv valid_public_key
          (replace nvs valid_public_key vault_id expected id epoch key (r, s)).1.0
  unfolding replace
  replace-Inv vault_id expected id epoch key r s v =
      let loaded = load_registration nvs valid_public_key r.current.device_id s in
      let r' = refreshed nvs valid_public_key r loaded.0.1 in
      ground (
        arith,
        refreshed-Inv r s v,
        λ (e : r.ready ≡ true).
            persist_registration-Inv vault_id id epoch key r' loaded.1 (refreshed-Inv r s v e) e,
      )

  clear_registration-Inv :
      (r : Store) (s : S)
      → Inv valid_public_key r
      → Inv valid_public_key (clear_registration nvs valid_public_key (r, s)).1.0
  unfolding clear_registration
  clear_registration-Inv r s v =
      ground
        (arith, unregistered-IsWhole r.current.device_id, unregistered_absent r.current.device_id)

  recover-Inv :
      (r : Store) (s : S)
      → Inv valid_public_key r
      → Inv valid_public_key
          (clear_corrupt_registration_for_recovery nvs valid_public_key (r, s)).1.0
  unfolding clear_corrupt_registration_for_recovery
  recover-Inv r s v = ground (
    arith,
    clear_registration-Inv r s v,
    unregistered-IsWhole r.current.device_id,
    unregistered_absent r.current.device_id,
  )

  step-Inv :
      (c : Call) (r : Store) (s : S)
      → Inv valid_public_key r
      → Inv valid_public_key (step c (r, s)).0
  unfolding step reinitialize_after_partition_reset
  step-Inv (initializes draws recovery_draws) r s v = initialize-Inv draws recovery_draws r s
  step-Inv (reinitializes draws recovery_draws) r s v =
      initialize-Inv draws recovery_draws new_store s
  step-Inv (installs vault_id id epoch key) r s v = install_initial-Inv vault_id id epoch key r s v
  step-Inv (replaces vault_id expected id epoch key) r s v =
      replace-Inv vault_id expected id epoch key r s v
  step-Inv clears r s v = clear_registration-Inv r s v
  step-Inv recovers r s v = recover-Inv r s v

  run-Inv :
      (cs : List Call) (r : Store) (s : S)
      → Inv valid_public_key r
      → Inv valid_public_key (run cs (r, s)).0
  unfolding run
  run-Inv [] r s v = v
  run-Inv (c ∷ cs) r s v = run-Inv cs (step c (r, s)).0 (step c (r, s)).1 (step-Inv c r s v)

  -- After any calls of a new store, with any key-value store that answers however it likes: a
  -- registration that is present has a nonzero Vault id, registration id and epoch and a valid public
  -- key, one that is absent is blank; a store that is ready offers no recovery, and one that is not has
  -- no registration.
  pub run-new_store-Inv : (cs : List Call) (s : S) → Inv valid_public_key (run cs (new_store, s)).0
  run-new_store-Inv cs s = run-Inv cs new_store s new_store-Inv
