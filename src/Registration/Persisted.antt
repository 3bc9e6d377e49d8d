-- ===== src/Registration/Persisted.antt =====
-- A registration that was written is the one that is read.
use m5authenticator.Prelude.{
  ℕ, ◌+◌, ◌≡◌, refl, ◌∙◌, Bool, true, false, not, ◌||◌, arith, ◌==◌, length, Bytes, bytes_eq_iff,
  all_zero,
}
use m5authenticator.Nvs.{Nvs, NvsLaws, esp_ok, readonly, readwrite}
use m5authenticator.Registration.{
  ok, not_found, Snapshot, Store, unregistered, decode_registration, encode_registration,
  encoded_registration_bytes,
}
use m5authenticator.Registration.Operations.{
  RegistrationKey, registration_key, read_registration, load_registration, persist_registration,
  install_initial, replace, map_error, refreshed,
}
use m5authenticator.Registration.Framing.{
  IsRegistration, length-encode_registration, decode_registration-encode_held,
}

module _ {S : Type 0} (nvs : Nvs RegistrationKey S) (valid_public_key : Bytes → Bool) where
  -- What the next start reads is what the store holds.
  pub record Stored (device_id vault_id id : Bytes) (epoch : ℕ) (key : Bytes) (x : Store × S)
      : Type 0 where
    pub held : x.0.current ≡ record {
      device_id = device_id;
      registration_present = true;
      vault_id = vault_id;
      registration_id = id;
      epoch = epoch;
      brk_public_key = key;
    }
    pub read : read_registration nvs valid_public_key device_id x.1 ≡ (ok, x.0.current)

  unregistered_device_id : (device_id : Bytes) → (unregistered device_id).device_id ≡ device_id
  unfolding unregistered
  unregistered_device_id device_id = refl

  decode_device_id :
      (bytes device_id : Bytes)
      → (decode_registration valid_public_key bytes device_id).1.device_id ≡ device_id
  unfolding decode_registration unregistered
  decode_device_id bytes device_id = ground arith

  read_device_id :
      (device_id : Bytes) (s : S)
      → (read_registration nvs valid_public_key device_id s).1.device_id ≡ device_id
  unfolding read_registration
  read_device_id device_id s = ground (
    arith,
    decode_device_id (nvs.get_blob registration_key s).1 device_id,
    unregistered_device_id device_id,
  )

  read_blob :
      (bytes device_id : Bytes) (s : S)
      → length bytes ≡ encoded_registration_bytes
      → nvs.get_blob_size registration_key s ≡ (esp_ok, length bytes)
      → nvs.get_blob registration_key s ≡ (esp_ok, bytes)
      → read_registration nvs valid_public_key device_id s
        ≡ decode_registration valid_public_key bytes device_id
  unfolding read_registration
  read_blob bytes device_id s size p q = rw (p, q, size)

  module _ (laws : NvsLaws nvs) where
    written-Stored :
        (vault_id id : Bytes) (epoch : ℕ) (key : Bytes) (r : Store) (s : S)
        → IsRegistration vault_id id epoch key
        → (all_zero vault_id || all_zero id || epoch == 0 || not (valid_public_key key)) ≡ false
        → let bytes = encode_registration vault_id id epoch key in
          let written = nvs.set_blob registration_key bytes s in
          let held : Snapshot = record {
            device_id = r.current.device_id;
            registration_present = true;
            vault_id = vault_id;
            registration_id = id;
            epoch = epoch;
            brk_public_key = key;
          } in
          written.0 ≡ esp_ok
          → Stored r.current.device_id vault_id id epoch key
              (record r { current = held }, (nvs.commit written.1).1)
    written-Stored vault_id id epoch key r s h fine e =
        let bytes = encode_registration vault_id id epoch key in
        let done = laws.set_blob_done registration_key bytes s e in
        let kept = laws.commit_keeps (nvs.set_blob registration_key bytes s).1 registration_key in
        record {
          held = refl;
          read =
              read_blob bytes r.current.device_id _ (length-encode_registration h)
                (kept.size ∙ done.0) (kept.blob ∙ done.1)
              ∙ decode_registration-encode_held h valid_public_key r.current.device_id fine;
        }

    -- A write that is reported done is read back.
    persist_registration-Stored :
        (vault_id id : Bytes) (epoch : ℕ) (key : Bytes) (r : Store) (s : S)
        → IsRegistration vault_id id epoch key
        → (persist_registration nvs valid_public_key vault_id id epoch key (r, s)).0 ≡ ok
        → Stored r.current.device_id vault_id id epoch key
            (persist_registration nvs valid_public_key vault_id id epoch key (r, s)).1
    unfolding persist_registration map_error
    persist_registration-Stored vault_id id epoch key r s h e =
        let s1 = (nvs.open_namespace readwrite s).1 in
        ground (arith, written-Stored vault_id id epoch key r s1 h)

    load_device_id :
        (device_id : Bytes) (s : S)
        → (load_registration nvs valid_public_key device_id s).0.1.device_id ≡ device_id
    unfolding load_registration
    load_device_id device_id s = ground (
      arith,
      read_device_id device_id (nvs.open_namespace readonly s).1,
      unregistered_device_id device_id,
    )

    -- The registration that was read before the change is the one that the caller expects.
    pub record Replaced (vault_id : Bytes) (expected epoch : ℕ) (r : Store) (s : S) : Type 0 where
      pub readable : (load_registration nvs valid_public_key r.current.device_id s).0.0 ≡ ok
      pub same_vault :
          (load_registration nvs valid_public_key r.current.device_id s).0.1.vault_id ≡ vault_id
      pub same_epoch :
          (load_registration nvs valid_public_key r.current.device_id s).0.1.epoch ≡ expected
      pub next_epoch : epoch ≡ expected + 1

    persist_after :
        (vault_id id : Bytes) (epoch : ℕ) (key : Bytes) (r : Store) (s : S)
        → IsRegistration vault_id id epoch key
        → let loaded = load_registration nvs valid_public_key r.current.device_id s in
          let result =
            persist_registration nvs valid_public_key vault_id id epoch key
              (refreshed nvs valid_public_key r loaded.0.1, loaded.1) in
          result.0 ≡ ok → Stored r.current.device_id vault_id id epoch key result.1
    persist_after vault_id id epoch key r s h e =
        let loaded = load_registration nvs valid_public_key r.current.device_id s in
        rw (load_device_id r.current.device_id s) at (
          persist_registration-Stored vault_id id epoch key
            (refreshed nvs valid_public_key r loaded.0.1) loaded.1 h e)

    -- A replacement that is reported done was asked of the registration that is stored: the stored one
    -- could be read, it is of this Vault, its epoch is the expected one and the new epoch is the next.
    -- The new registration is what the store holds and what the next start reads.
    pub replace-Replaced :
        (vault_id : Bytes) (expected : ℕ) (id : Bytes) (epoch : ℕ) (key : Bytes) (r : Store) (s : S)
        → IsRegistration vault_id id epoch key
        → (replace nvs valid_public_key vault_id expected id epoch key (r, s)).0 ≡ ok
        → Replaced vault_id expected epoch r s
          × Stored r.current.device_id vault_id id epoch key
              (replace nvs valid_public_key vault_id expected id epoch key (r, s)).1
    unfolding replace
    replace-Replaced vault_id expected id epoch key r s h e =
        let loaded = load_registration nvs valid_public_key r.current.device_id s in
        ground (
          arith,
          persist_after vault_id id epoch key r s h,
          bytes_eq_iff loaded.0.1.vault_id vault_id,
        )

    -- A first registration is installed with the epoch 1 and only where none was stored, and then it is
    -- what the store holds and what the next start reads.
    pub install_initial-Stored :
        (vault_id id : Bytes) (epoch : ℕ) (key : Bytes) (r : Store) (s : S)
        → IsRegistration vault_id id epoch key
        → (install_initial nvs valid_public_key vault_id id epoch key (r, s)).0 ≡ ok
        → ((load_registration nvs valid_public_key r.current.device_id s).0.0 ≡ not_found)
          × (epoch ≡ 1)
          × Stored r.current.device_id vault_id id epoch key
              (install_initial nvs valid_public_key vault_id id epoch key (r, s)).1
    unfolding install_initial
    install_initial-Stored vault_id id epoch key r s h e =
        ground (arith, persist_after vault_id id epoch key r s h)
