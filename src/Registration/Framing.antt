-- ===== src/Registration/Framing.antt =====
-- The bytes of a registration: what is written is read back.
use m5authenticator.Prelude.{
  ℕ, zero, suc, ◌+◌, ◌≤◌, ◌≡◌, refl, sym, Bool, true, false, not, ◌||◌, [], ◌∷◌, ◌++◌, arith, ◌==◌,
  length, Bytes, length-append, take, drop, take-append, bytes_eq_iff, all_zero, u32_max,
}
use mathlib.Core.List.{append-nil}
use m5authenticator.Registration.{
  ok, Snapshot, decode_registration, encode_registration, registration_magic, write_u32, read_u32,
  slice, encoded_registration_bytes,
}

drop_past : (n k : ℕ) (xs ys : Bytes) → length xs + k ≡ n → drop n (xs ++ ys) ≡ drop k ys
drop_past n k [] ys e = let e' : k ≡ n = omega (arith, e) in rw e'
drop_past zero k (x ∷ xs) ys e = absurd (ground arith)
drop_past (suc n) k (x ∷ xs) ys e = drop_past n k xs ys (omega (arith, e))

take_front : (n : ℕ) (xs ys : Bytes) → length xs ≡ n → take n (xs ++ ys) ≡ xs
take_front n xs ys e = rw (sym e) (take-append xs ys)

read_u32-write_u32 : (n : ℕ) → n ≤ u32_max → read_u32 (write_u32 n) ≡ n
unfolding read_u32 write_u32
read_u32-write_u32 n h = ground arith

-- The sizes of the arrays and of the epoch.
pub record IsRegistration (vault_id id : Bytes) (epoch : ℕ) (key : Bytes) : Type 0 where
  pub vault_id_size : length vault_id ≡ 16
  pub id_size : length id ≡ 16
  pub epoch_fits : epoch ≤ u32_max
  pub key_size : length key ≡ 65

length-registration_magic : length registration_magic ≡ 8
unfolding registration_magic
length-registration_magic = refl

length-write_u32 : (n : ℕ) → length (write_u32 n) ≡ 4
unfolding write_u32
length-write_u32 n = refl

module _ {vault_id id : Bytes} {epoch : ℕ} {key : Bytes}
    (h : IsRegistration vault_id id epoch key) where
  encoded : Bytes
  encoded = encode_registration vault_id id epoch key

  length_encoded : length encoded ≡ encoded_registration_bytes
  unfolding encoded encode_registration
  length_encoded = simp (
    length-append,
    length-registration_magic,
    h.vault_id_size,
    h.id_size,
    length-write_u32 epoch,
    h.key_size,
  )

  slice_magic : slice 0 8 encoded ≡ registration_magic
  unfolding encoded encode_registration
  slice_magic = take_front 8 registration_magic _ length-registration_magic

  slice_vault_id : slice 8 16 encoded ≡ vault_id
  unfolding encoded encode_registration
  slice_vault_id =
      rw
        (drop_past 8 0 registration_magic (vault_id ++ (id ++ (write_u32 epoch ++ key)))
          (ground (arith, length-registration_magic)))
        (take_front 16 vault_id (id ++ (write_u32 epoch ++ key)) h.vault_id_size)

  slice_id : slice 24 16 encoded ≡ id
  unfolding encoded encode_registration
  slice_id =
      rw
        (
          drop_past 24 16 registration_magic (vault_id ++ (id ++ (write_u32 epoch ++ key)))
              (ground (arith, length-registration_magic)),
          drop_past 16 0 vault_id (id ++ (write_u32 epoch ++ key))
              (ground (arith, h.vault_id_size)),
        )
        (take_front 16 id (write_u32 epoch ++ key) h.id_size)

  slice_epoch : slice 40 4 encoded ≡ write_u32 epoch
  unfolding encoded encode_registration
  slice_epoch =
      rw
        (
          drop_past 40 32 registration_magic (vault_id ++ (id ++ (write_u32 epoch ++ key)))
              (ground (arith, length-registration_magic)),
          drop_past 32 16 vault_id (id ++ (write_u32 epoch ++ key))
              (ground (arith, h.vault_id_size)),
          drop_past 16 0 id (write_u32 epoch ++ key) (ground (arith, h.id_size)),
        )
        (take_front 4 (write_u32 epoch) key (length-write_u32 epoch))

  slice_key : slice 44 65 encoded ≡ key
  unfolding encoded encode_registration
  slice_key =
      rw
        (
          drop_past 44 36 registration_magic (vault_id ++ (id ++ (write_u32 epoch ++ key)))
              (ground (arith, length-registration_magic)),
          drop_past 36 20 vault_id (id ++ (write_u32 epoch ++ key))
              (ground (arith, h.vault_id_size)),
          drop_past 20 4 id (write_u32 epoch ++ key) (ground (arith, h.id_size)),
          drop_past 4 0 (write_u32 epoch) key (ground (arith, length-write_u32 epoch)),
        )
        (rw (append-nil key) at (take_front 65 key [] h.key_size))

  registered : Bytes → Snapshot
  registered device_id = record {
    device_id = device_id;
    registration_present = true;
    vault_id = vault_id;
    registration_id = id;
    epoch = epoch;
    brk_public_key = key;
  }

  decode_registration-encode :
      (valid_public_key : Bytes → Bool) (device_id : Bytes)
      → (all_zero vault_id || all_zero id || epoch == 0 || not (valid_public_key key)) ≡ false
      → decode_registration valid_public_key encoded device_id ≡ (ok, registered device_id)
  unfolding decode_registration registered
  decode_registration-encode valid_public_key device_id fine = rw (
    slice_magic,
    (bytes_eq_iff registration_magic registration_magic).1 refl,
    slice_vault_id,
    slice_id,
    slice_epoch,
    read_u32-write_u32 epoch h.epoch_fits,
    slice_key,
    fine,
  )

  pub length-encode_registration :
      length (encode_registration vault_id id epoch key) ≡ encoded_registration_bytes
  unfolding encoded
  length-encode_registration = length_encoded

  pub decode_registration-encode_held :
      (valid_public_key : Bytes → Bool) (device_id : Bytes)
      → (all_zero vault_id || all_zero id || epoch == 0 || not (valid_public_key key)) ≡ false
      → decode_registration valid_public_key (encode_registration vault_id id epoch key) device_id
        ≡ (
          ok,
          record {
            device_id = device_id;
            registration_present = true;
            vault_id = vault_id;
            registration_id = id;
            epoch = epoch;
            brk_public_key = key;
          },
        )
  unfolding encoded registered
  decode_registration-encode_held = decode_registration-encode
