-- ===== src/Registration/Tests.antt =====
-- The registration on a store in memory.
use m5authenticator.Prelude.{
  ℕ, ◌≡◌, refl, Bool, true, false, [], ◌∷◌, arith, ◌==◌, Bytes, replicate, bytes_eq, all_zero,
}
use m5authenticator.Nvs.Memory.{Memory, blank, memory, memory-Laws}
use m5authenticator.Registration.{
  ok, not_found, Store, new_store, unregistered, encode_registration, decode_registration,
  registration_magic, write_u32, read_u32,
}
use m5authenticator.Registration.Operations.{
  RegistrationKey, device_id_key, registration_key, replace, install_initial, persist_registration,
  load_registration, read_registration, map_error,
}
use m5authenticator.Registration.Persisted.{
  replace-Replaced, Replaced, Stored, install_initial-Stored,
}
use m5authenticator.Registration.Invariant.{
  run-new_store-Inv, run, Inv, initializes, installs, replaces, recovers,
}

abbrev pub index : RegistrationKey → ℕ
index device_id_key = 0
index registration_key = 1

index_injective : (k k' : RegistrationKey) → index k ≡ index k' → k ≡ k'
index_injective k k' h = ground arith

-- Stands for the check of a point on the curve.
abbrev pub sec1_framed : Bytes → Bool
sec1_framed [] = false
sec1_framed (b ∷ key) = b == 4

abbrev device_id : Bytes
device_id = replicate 16 9

abbrev pub vault_id : Bytes
vault_id = replicate 16 1

abbrev pub first_id : Bytes
first_id = replicate 16 2

abbrev second_id : Bytes
second_id = replicate 16 3

abbrev pub first_key : Bytes
first_key = 4 ∷ replicate 64 5

abbrev second_key : Bytes
second_key = 4 ∷ replicate 64 6

abbrev pub ready_store : Store
ready_store = record new_store { ready = true; current = unregistered device_id }

-- The browser is replaced after it was installed.
abbrev installed : Store × Memory
installed =
    (install_initial (memory index) sec1_framed vault_id first_id 1 first_key
      (ready_store, λ i. blank)).1

installs_first :
    (install_initial
      (memory index)
      sec1_framed
      vault_id
      first_id
      1
      first_key
      (ready_store, λ i. blank)).0
    ≡ ok
unfolding install_initial load_registration read_registration persist_registration map_error
    all_zero
installs_first = refl

replaces_second :
    (replace (memory index) sec1_framed vault_id 1 second_id 2 second_key installed).0 ≡ ok
unfolding replace install_initial load_registration read_registration persist_registration map_error
    encode_registration decode_registration registration_magic write_u32 read_u32 unregistered
    all_zero bytes_eq
replaces_second = refl

install_initial-Stored_example :
    ((load_registration (memory index) sec1_framed ready_store.current.device_id (λ i. blank)).0.0
      ≡ not_found)
    × (◌≡◌ {A = ℕ} 1 1)
    × Stored
        (memory index)
        sec1_framed
        ready_store.current.device_id
        vault_id
        first_id
        1
        first_key
        (install_initial
          (memory index)
          sec1_framed
          vault_id
          first_id
          1
          first_key
          (ready_store, λ i. blank)).1
install_initial-Stored_example =
    install_initial-Stored (memory index) sec1_framed (memory-Laws index index_injective) vault_id
      first_id 1 first_key ready_store (λ i. blank)
      (record { vault_id_size = refl; id_size = refl; epoch_fits = ground arith; key_size = refl })
      installs_first

replace-Replaced_example :
    Replaced
      (memory index)
      sec1_framed
      (memory-Laws index index_injective)
      vault_id
      1
      2
      installed.0
      installed.1
    × Stored
        (memory index)
        sec1_framed
        installed.0.current.device_id
        vault_id
        second_id
        2
        second_key
        (replace (memory index) sec1_framed vault_id 1 second_id 2 second_key installed).1
replace-Replaced_example =
    replace-Replaced (memory index) sec1_framed (memory-Laws index index_injective) vault_id 1
      second_id 2 second_key installed.0 installed.1
      (record { vault_id_size = refl; id_size = refl; epoch_fits = ground arith; key_size = refl })
      replaces_second

run-new_store-Inv_example :
    Inv sec1_framed
      (run
        (memory index)
        sec1_framed
        (initializes (device_id ∷ []) []
          ∷ installs vault_id first_id 1 first_key
          ∷ replaces vault_id 1 second_id 2 second_key
          ∷ recovers
          ∷ [])
        (new_store, λ i. blank)).0
run-new_store-Inv_example =
    run-new_store-Inv (memory index) sec1_framed
      (initializes (device_id ∷ []) []
        ∷ installs vault_id first_id 1 first_key
        ∷ replaces vault_id 1 second_id 2 second_key
        ∷ recovers
        ∷ [])
      (λ i. blank)
