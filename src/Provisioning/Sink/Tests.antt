-- ===== src/Provisioning/Sink/Tests.antt =====
-- A first Vault on an empty Device.
use m5authenticator.Prelude.{
  ◌≡◌, refl, true, false, List, [], ◌∷◌, replicate, bytes_eq, all_zero, saturating_deadline,
}
use m5authenticator.Nvs.Memory.{Memory, blank, memory}
use m5authenticator.Registration.Operations as Store
use m5authenticator.Registration.Tests.{
  index, sec1_framed, ready_store, first_id, first_key, vault_id,
}
use m5authenticator.Vault.Decode.{
  decode_plaintext, read_bytes, detect_format, read_u16, read_records, read_wifi, read_u8,
  read_auto_lock, read_auto_lock_flag, read_days,
}
use m5authenticator.Session.{initial_provisioning}
use m5authenticator.Session.Attempts.Context.{BeginContext}
use m5authenticator.VaultRuntime.{
  PersistedSnapshot, new_runtime, same_envelope, validate_envelope_with_key, valid_envelope_framing,
  open_envelope,
}
use m5authenticator.VaultRuntime.Invariant.{Inv, new_runtime-Inv}
use m5authenticator.VaultRuntime.Tests
use m5authenticator.VaultRuntime.Tests.{open_gcm, vault_at, key_of, formatted}
use m5authenticator.Provisioning.Sink.History.{
  step, installs_initial, Call, delivers, arms, runs, after, after-Holds, Holds, installs_initial,
}
use m5authenticator.Provisioning.Sink.Closed.{after-Closed, answer}
use m5authenticator.Provisioning.Sink.Delivery.{Completes, after-Completes}
use m5authenticator.VaultRuntime.Steps
use m5authenticator.VaultRuntime.Operations as Runs
use m5authenticator.VaultRuntime.Steps.{initializes}
use m5authenticator.Provisioning.Sink.{
  install_initial_vault, install_vmk, install_operation, commit_vault, store_vault,
}
use m5authenticator.Provisioning.Sink.Pending.{
  Device, held, cancelled, arm_pending_deadline, pending_valid, expire_pending, initial_allowed,
  envelope_matches_pending,
}
use m5authenticator.VaultRuntime.Operations.{
  format_for_schema2, reload_after_persistence, install_encrypted_vault, finish_install, unlock,
}
use m5authenticator.VaultRuntime.Operations.Boundaries.{
  initialize_from, adopt_snapshot, reload_from,
}
use m5authenticator.Vault.Crypto.{decrypt_vault, build_vault_aad}
use m5authenticator.Vault.Decode.{decode_plaintext}
use m5authenticator.Vault.Encode.{plaintext_magic}
use m5authenticator.Provisioning.Sink.Closed.Calls.{Closed}

abbrev context : BeginContext
context = record {
  operation = initial_provisioning;
  device_id = 97 ∷ 98 ∷ [];
  vault_id = vault_id;
  expected_generation = 0;
  registration_id = first_id;
  registration_epoch = 0;
  current_brk_public_key = replicate 65 0;
  proposed_brk_public_key = first_key;
}

-- The newest call first.
abbrev calls : List (Call Memory)
calls = arms 1_000 ∷ delivers context (key_of 5) 900 ∷ runs initializes ∷ []

abbrev device : Device PersistedSnapshot Memory
device =
    after Tests.memory open_gcm (memory index) sec1_framed calls (new_runtime, formatted)
      (ready_store, λ i. blank)

after-Holds_example : Holds calls device.sink
after-Holds_example =
    after-Holds Tests.memory open_gcm (memory index) sec1_framed calls (new_runtime, formatted)
      (ready_store, λ i. blank)

-- Too late: the deadline is at 31,000.
after-Closed_example :
    let d' =
      step Tests.memory open_gcm
        (memory index)
        sec1_framed
        (installs_initial (vault_at 1 5) 31_000)
        device in
    Inv open_gcm d'.runtime.0
    × (answer Tests.memory open_gcm
            (memory index)
            sec1_framed
            (installs_initial (vault_at 1 5) 31_000)
            device
          ≡ false
        → Closed device.runtime.0 d'.runtime.0)
after-Closed_example =
    after-Closed Tests.memory open_gcm (memory index) sec1_framed
      (installs_initial (vault_at 1 5) 31_000) calls (new_runtime, formatted)
      (ready_store, λ i. blank) (new_runtime-Inv open_gcm)

installs :
    (install_initial_vault Tests.memory open_gcm
      (memory index)
      sec1_framed
      (vault_at 1 5)
      30_999
      device).0
    ≡ true
unfolding install_initial_vault after step install_vmk install_operation held cancelled
    arm_pending_deadline saturating_deadline pending_valid expire_pending initial_allowed
    envelope_matches_pending commit_vault store_vault Steps.step Runs.initialize initialize_from
    adopt_snapshot format_for_schema2 reload_after_persistence reload_from install_encrypted_vault
    finish_install same_envelope unlock bytes_eq all_zero Store.install_initial
    Store.load_registration Store.read_registration Store.persist_registration Store.map_error
    validate_envelope_with_key valid_envelope_framing open_envelope decrypt_vault build_vault_aad
    decode_plaintext read_bytes detect_format plaintext_magic read_u16 read_records read_wifi
    read_u8 read_auto_lock read_auto_lock_flag read_days
installs = refl

-- The same key also satisfies the second half, whose call is refused here.
after-Completes_example :
    Completes Tests.memory open_gcm
      (memory index)
      sec1_framed
      initial_provisioning
      1
      (vault_at 1 5)
      30_999
      calls
      device
      (install_initial_vault Tests.memory open_gcm
        (memory index)
        sec1_framed
        (vault_at 1 5)
        30_999
        device).1
after-Completes_example =
    (after-Completes Tests.memory open_gcm (memory index) sec1_framed (vault_at 1 5) 30_999 calls
        (new_runtime, formatted) (ready_store, λ i. blank)).0
      installs
