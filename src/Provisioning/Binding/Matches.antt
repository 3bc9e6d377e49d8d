-- ===== src/Provisioning/Binding/Matches.antt =====
-- What it means that a context matches the Device.
use m5authenticator.Prelude.{
  ◌+◌, ◌≤◌, ◌<◌, ◌≡◌, refl, ◌≢◌, ◌⊎◌, inl, inr, true, false, arith, Bool-cases, bytes_eq_iff,
  all_zero, u32_max, constant_time_equal_iff,
}
use m5authenticator.Session.{
  Operation, trusted_browser_unlock, initial_provisioning, recovery, browser_replacement, vmk_rekey,
}
use m5authenticator.Session.Attempts.Context.{BeginContext}
use m5authenticator.Provisioning.Binding.{
  SessionV2DeviceSnapshot, existing_vault_matches, current_brk_is_device_owned, registered_matches,
  replacement_matches, existing_registration_matches, replacement_registration_is_next,
  clean_device_recovery_matches, operation_matches, session_v2_begin_matches_snapshot,
  clean_unprovisioned_snapshot,
}

-- The operations that name a new browser.
abbrev pub Replaces : Operation → Type 0
Replaces operation = (operation ≡ recovery) ⊎ (operation ≡ browser_replacement)

abbrev pub UsesRegistered : Operation → Type 0
UsesRegistered operation = (operation ≡ trusted_browser_unlock) ⊎ (operation ≡ vmk_rekey)

-- The context is that of the Vault and the registration that the Device has.
pub record OfVault (c : BeginContext) (s : SessionV2DeviceSnapshot) : Type 0 where
  pub same_vault : c.vault_id ≡ s.vault_id
  pub same_generation : c.expected_generation ≡ s.generation
  pub registered : s.registration_present ≡ true
  pub not_initial : c.operation ≢ initial_provisioning
  pub same_browser :
      UsesRegistered c.operation
      → (c.registration_id ≡ s.registration_id)
        × (c.registration_epoch ≡ s.registration_epoch)
        × (c.current_brk_public_key ≡ s.brk_public_key)
  pub next_browser :
      Replaces c.operation
      → (c.registration_id ≢ s.registration_id)
        × (c.registration_epoch ≡ s.registration_epoch + 1)
        × (c.registration_epoch ≤ u32_max)
        × (c.proposed_brk_public_key ≢ s.brk_public_key)

-- The context is for a Device without a Vault.
pub record OfClean (c : BeginContext) (s : SessionV2DeviceSnapshot) : Type 0 where
  pub without_registration : s.registration_present ≡ false
  pub takes_first : (c.operation ≡ initial_provisioning) ⊎ (c.operation ≡ recovery)
  pub no_browser : all_zero c.current_brk_public_key ≡ true
  pub first_vault :
      c.operation ≡ initial_provisioning → (c.expected_generation ≡ 0) × (c.registration_epoch ≡ 0)
  pub recovered_vault :
      c.operation ≡ recovery → (0 < c.expected_generation) × (c.registration_epoch ≡ 1)

existing_vault-Same :
    (c : BeginContext) (s : SessionV2DeviceSnapshot)
    → existing_vault_matches c s ≡ true
    → (s.vault_present ≡ true) × (c.vault_id ≡ s.vault_id) × (c.expected_generation ≡ s.generation)
unfolding existing_vault_matches
existing_vault-Same c s h = ground (arith, constant_time_equal_iff c.vault_id s.vault_id)

brk_owned-Same :
    (c : BeginContext) (s : SessionV2DeviceSnapshot)
    → current_brk_is_device_owned c s false ≡ true
    → c.current_brk_public_key ≡ s.brk_public_key
unfolding current_brk_is_device_owned
brk_owned-Same c s h =
    ground (arith, constant_time_equal_iff c.current_brk_public_key s.brk_public_key)

registered_matches-Same :
    (c : BeginContext) (s : SessionV2DeviceSnapshot)
    → registered_matches c s ≡ true
    → (existing_vault_matches c s ≡ true)
      × (s.registration_present ≡ true)
      × (c.registration_id ≡ s.registration_id)
      × (c.registration_epoch ≡ s.registration_epoch)
      × (c.current_brk_public_key ≡ s.brk_public_key)
unfolding registered_matches existing_registration_matches
registered_matches-Same c s h =
    ground (arith, constant_time_equal_iff c.registration_id s.registration_id, brk_owned-Same c s)

replacement-Next :
    (c : BeginContext) (s : SessionV2DeviceSnapshot)
    → s.registration_epoch ≤ u32_max
    → replacement_matches c s ≡ true
    → (existing_vault_matches c s ≡ true)
      × (s.registration_present ≡ true)
      × (c.registration_id ≢ s.registration_id)
      × (c.registration_epoch ≡ s.registration_epoch + 1)
      × (c.registration_epoch ≤ u32_max)
      × (c.proposed_brk_public_key ≢ s.brk_public_key)
unfolding replacement_matches replacement_registration_is_next
replacement-Next c s b h = ground (
  arith,
  constant_time_equal_iff c.registration_id s.registration_id,
  constant_time_equal_iff c.proposed_brk_public_key s.brk_public_key,
)

registered-OfVault :
    (c : BeginContext) (s : SessionV2DeviceSnapshot)
    → UsesRegistered c.operation
    → registered_matches c s ≡ true
    → (s.vault_present ≡ true) × OfVault c s
registered-OfVault c s o h =
    let (e, present, id, epoch, key) = registered_matches-Same c s h in
    let (vault, same_id, generation) = existing_vault-Same c s e in
    (
      vault,
      record {
        same_vault = same_id;
        same_generation = generation;
        registered = present;
        not_initial = λ k. ground arith;
        same_browser = λ k. (id, epoch, key);
        next_browser = λ k. ground arith;
      },
    )

replacement-OfVault :
    (c : BeginContext) (s : SessionV2DeviceSnapshot)
    → s.registration_epoch ≤ u32_max
    → Replaces c.operation
    → replacement_matches c s ≡ true
    → (s.vault_present ≡ true) × OfVault c s
replacement-OfVault c s b o h =
    let (e, present, id, epoch, bound, key) = replacement-Next c s b h in
    let (vault, same_id, generation) = existing_vault-Same c s e in
    (
      vault,
      record {
        same_vault = same_id;
        same_generation = generation;
        registered = present;
        not_initial = λ k. ground arith;
        same_browser = λ k. ground arith;
        next_browser = λ k. (id, epoch, bound, key);
      },
    )

clean_recovery-OfClean :
    (c : BeginContext) (s : SessionV2DeviceSnapshot)
    → c.operation ≡ recovery
    → clean_device_recovery_matches c s ≡ true
    → (s.vault_present ≡ false) × OfClean c s
unfolding clean_device_recovery_matches clean_unprovisioned_snapshot
clean_recovery-OfClean c s o h = ground arith

initial-OfClean :
    (c : BeginContext) (s : SessionV2DeviceSnapshot)
    → c.operation ≡ initial_provisioning
    → operation_matches initial_provisioning c s ≡ true
    → (s.vault_present ≡ false) × OfClean c s
unfolding operation_matches clean_unprovisioned_snapshot
initial-OfClean c s o h = ground arith

-- A context is of the Vault of the Device, or of a Device without one.
abbrev Fits : BeginContext → SessionV2DeviceSnapshot → Type 0
Fits c s = ((s.vault_present ≡ true) × OfVault c s) ⊎ ((s.vault_present ≡ false) × OfClean c s)

operation_matches-Fits :
    (o : Operation) (c : BeginContext) (s : SessionV2DeviceSnapshot)
    → s.registration_epoch ≤ u32_max
    → c.operation ≡ o
    → operation_matches o c s ≡ true
    → Fits c s
unfolding operation_matches
operation_matches-Fits trusted_browser_unlock c s b e h = inl (registered-OfVault c s (inl e) h)
operation_matches-Fits vmk_rekey c s b e h = inl (registered-OfVault c s (inr e) h)
operation_matches-Fits initial_provisioning c s b e h = inr (initial-OfClean c s e h)
operation_matches-Fits browser_replacement c s b e h = inl (replacement-OfVault c s b (inr e) h)
operation_matches-Fits recovery c s b e h = elim (Bool-cases (clean_device_recovery_matches c s)) [
  | inl clean ↦ inr (clean_recovery-OfClean c s e clean)
  | inr provisioned ↦ inl (replacement-OfVault c s b (inl e) (rw provisioned at h))
]

-- A context that matches a Device whose epoch is a 32-bit number is for this Device. If the Device has a Vault, the
-- context is of this Vault at this generation, is no first provisioning, and is of the registered browser
-- at its epoch for the unlocking and the rekeying, or of another browser with another key at the
-- next epoch, without overflow, for the recovery and the replacement. If it has none, it has no
-- registration either, and the context is a first provisioning from the beginning or a recovery to the epoch 1,
-- without a current browser.
pub session_v2_begin_matches_snapshot-Fits :
    (c : BeginContext) (s : SessionV2DeviceSnapshot)
    → s.registration_epoch ≤ u32_max
    → session_v2_begin_matches_snapshot c s ≡ true
    → (c.device_id ≡ s.device_id)
      × (s.vault_present ≡ true → OfVault c s)
      × (s.vault_present ≡ false → OfClean c s)
unfolding session_v2_begin_matches_snapshot
session_v2_begin_matches_snapshot-Fits c s b h =
    ground
      (arith, bytes_eq_iff c.device_id s.device_id, operation_matches-Fits c.operation c s b refl)
