-- ===== src/Provisioning/Binding.antt =====
-- firmware/components/m5auth_provisioning/session_binding_v2.cpp: whether the context in which a
-- browser begins an attempt is that of this Device, and canonical_v2_state.cpp, how the Device's own
-- side of it (`SessionV2DeviceSnapshot`) is read from the runtime and the registration.
pub mod Matches
use m5authenticator.Prelude.{
  ℕ, ◌+◌, ◌/◌, ◌%◌, Bool, true, false, not, ◌&&◌, ◌||◌, Option, none, some, [], ◌∷◌, ltb, ◌==◌,
  if◌then◌else◌, Bytes, replicate, is_empty, bytes_eq, all_zero,
}
use m5authenticator.Session.{
  Operation, trusted_browser_unlock, initial_provisioning, recovery, browser_replacement, vmk_rekey,
}
use m5authenticator.Session.Attempts.Context.{BeginContext}
use m5authenticator.Registration
use m5authenticator.Registration.Operations
use m5authenticator.VaultRuntime.{Runtime}
use m5authenticator.VaultRuntime.Access.{Metadata, metadata}
use m5authenticator.Prelude.{constant_time_equal, u32_max}

pub record SessionV2DeviceSnapshot : Type 0 where
  pub device_id : Bytes
  pub vault_present : Bool
  pub vault_id : Bytes
  pub generation : ℕ
  pub registration_present : Bool
  pub registration_id : Bytes
  pub registration_epoch : ℕ
  pub brk_public_key : Bytes

-- Both are arrays of one size, so the comparison of the sizes is always passed.
abbrev pub same_bytes : Bytes → Bytes → Bool
same_bytes left right = constant_time_equal left right

unfoldable pub existing_vault_matches : BeginContext → SessionV2DeviceSnapshot → Bool
existing_vault_matches c s =
    s.vault_present && same_bytes c.vault_id s.vault_id && c.expected_generation == s.generation

unfoldable pub existing_registration_matches : BeginContext → SessionV2DeviceSnapshot → Bool
existing_registration_matches c s =
    s.registration_present
    && same_bytes c.registration_id s.registration_id
    && c.registration_epoch == s.registration_epoch

unfoldable pub replacement_registration_is_next : BeginContext → SessionV2DeviceSnapshot → Bool
replacement_registration_is_next c s =
    if not s.registration_present || s.registration_epoch == u32_max
    then false
    else (not (all_zero c.registration_id)
        && not (same_bytes c.registration_id s.registration_id)
        && c.registration_epoch == s.registration_epoch + 1)

unfoldable pub current_brk_is_device_owned : BeginContext → SessionV2DeviceSnapshot → Bool → Bool
current_brk_is_device_owned c s optional =
    if not s.registration_present || all_zero s.brk_public_key
    then false
    else if all_zero c.current_brk_public_key
    then optional
    else same_bytes c.current_brk_public_key s.brk_public_key

unfoldable pub clean_unprovisioned_snapshot : SessionV2DeviceSnapshot → Bool
clean_unprovisioned_snapshot s =
    not s.vault_present
    && s.generation == 0
    && all_zero s.vault_id
    && not s.registration_present
    && s.registration_epoch == 0
    && all_zero s.registration_id
    && all_zero s.brk_public_key

unfoldable pub clean_device_recovery_matches : BeginContext → SessionV2DeviceSnapshot → Bool
clean_device_recovery_matches c s =
    clean_unprovisioned_snapshot s
    && not (all_zero c.vault_id)
    && ltb 0 c.expected_generation
    && c.registration_epoch == 1
    && not (all_zero c.registration_id)
    && all_zero c.current_brk_public_key
    && not (all_zero c.proposed_brk_public_key)

-- The branch of `kRecovery` behind the clean Device, and that of `kBrowserReplacement`.
unfoldable pub replacement_matches : BeginContext → SessionV2DeviceSnapshot → Bool
replacement_matches c s =
    existing_vault_matches c s
    && replacement_registration_is_next c s
    && current_brk_is_device_owned c s true
    && not (all_zero c.proposed_brk_public_key)
    && not (same_bytes c.proposed_brk_public_key s.brk_public_key)

-- The branch of `kTrustedBrowserUnlock` and `kVmkRekey`.
unfoldable pub registered_matches : BeginContext → SessionV2DeviceSnapshot → Bool
registered_matches c s =
    existing_vault_matches c s
    && existing_registration_matches c s
    && current_brk_is_device_owned c s false
    && all_zero c.proposed_brk_public_key

unfoldable pub operation_matches : Operation → BeginContext → SessionV2DeviceSnapshot → Bool
operation_matches initial_provisioning c s =
    clean_unprovisioned_snapshot s
    && c.expected_generation == 0
    && c.registration_epoch == 0
    && not (all_zero c.registration_id)
    && all_zero c.current_brk_public_key
    && not (all_zero c.proposed_brk_public_key)
operation_matches trusted_browser_unlock c s = registered_matches c s
operation_matches vmk_rekey c s = registered_matches c s
operation_matches recovery c s =
    if clean_device_recovery_matches c s then true else replacement_matches c s
operation_matches browser_replacement c s = replacement_matches c s

-- The ids of the Device are strings, of any length.
unfoldable pub session_v2_begin_matches_snapshot : BeginContext → SessionV2DeviceSnapshot → Bool
session_v2_begin_matches_snapshot c s =
    if is_empty s.device_id || not (bytes_eq c.device_id s.device_id)
    then false
    else operation_matches c.operation c s

abbrev pub hex_digit : ℕ → ℕ
hex_digit n = if ltb n 10 then 48 + n else 87 + n

-- `%02x` of each byte.
unfoldable pub device_id_text : Bytes → Bytes
device_id_text [] = []
device_id_text (b ∷ id) = hex_digit (b / 16) ∷ hex_digit (b % 16) ∷ device_id_text id

-- `SessionV2DeviceSnapshot{}` with what `snapshot` sets where its flags are set.
unfoldable pub snapshot_of : Metadata → Registration.Snapshot → SessionV2DeviceSnapshot
snapshot_of m g = record {
  device_id = device_id_text g.device_id;
  vault_present = m.has_vault;
  vault_id = (if m.has_vault then m.vault_id else replicate 16 0);
  generation = (if m.has_vault then m.generation else 0);
  registration_present = g.registration_present;
  registration_id = (if g.registration_present then g.registration_id else replicate 16 0);
  registration_epoch = (if g.registration_present then g.epoch else 0);
  brk_public_key = (if g.registration_present then g.brk_public_key else replicate 65 0);
}

abbrev pub xor : Bool → Bool → Bool
xor true b = not b
xor false b = b

-- `CanonicalBindingSource::snapshot` on what its two sources gave.
unfoldable pub joined_snapshot :
    Option Metadata
    → Registration.Status × Option Registration.Snapshot
    → Option SessionV2DeviceSnapshot
unfolding snapshot_of
joined_snapshot none g = none
joined_snapshot (some m) (status, none) = none
joined_snapshot (some m) (status, some g) =
    if not (Registration.is_ok status)
    then none
    else if xor m.has_vault g.registration_present
    then none
    else if m.has_vault && not (bytes_eq m.vault_id g.vault_id)
    then none
    else if is_empty (device_id_text g.device_id)
    then none
    else some (snapshot_of m g)

unfoldable pub canonical_snapshot : Runtime → Registration.Store → Option SessionV2DeviceSnapshot
unfolding joined_snapshot
canonical_snapshot r g = joined_snapshot (metadata r) (Registration.Operations.snapshot g)
