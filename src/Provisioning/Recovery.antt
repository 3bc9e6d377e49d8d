-- ===== src/Provisioning/Recovery.antt =====
-- recovery_reset.hpp: whether the Device needs a destructive reset.
use m5authenticator.Prelude.{
  ◌≡◌, ◌↔◌, ◌⊎◌, Bool, true, false, not, ◌&&◌, ◌||◌, arith, if◌then◌else◌, bytes_eq, bytes_eq_iff,
}
use m5authenticator.Registration.{Status, ok, io, is_ok, is_io, is_corrupt, Snapshot}
use m5authenticator.VaultRuntime.{is_error, is_reprovision}
use m5authenticator.VaultRuntime.Access.{Metadata}

pub data RecoveryResetDecision : Type 0 where
  not_required required unavailable : RecoveryResetDecision

abbrev pub same_bool : Bool → Bool → Bool
same_bool true b = b
same_bool false b = not b

unfoldable pub classify_recovery_reset : Metadata → Status → Snapshot → Bool → RecoveryResetDecision
classify_recovery_reset runtime registration_status registration
      corrupt_registration_recovery_available =
    if is_error runtime.state || is_reprovision runtime.state
    then (if not runtime.recovery_reset_allowed
        then unavailable
        else if is_io registration_status
        then unavailable
        else if is_corrupt registration_status && not corrupt_registration_recovery_available
        then unavailable
        else required)
    else if is_corrupt registration_status
    then (if corrupt_registration_recovery_available then required else unavailable)
    else if not (is_ok registration_status)
    then unavailable
    else if not (same_bool runtime.has_vault registration.registration_present)
    then required
    else if runtime.has_vault && not (bytes_eq runtime.vault_id registration.vault_id)
    then required
    else not_required

-- No reset is needed exactly when the runtime has neither failed nor to be provisioned again, the
-- registration was read, and the two agree: both have a Vault, the same one, or neither has.
pub classify_recovery_reset_iff :
    (runtime : Metadata) (status : Status) (registration : Snapshot) (available : Bool)
    → (classify_recovery_reset runtime status registration available ≡ not_required) ↔ (
        (is_error runtime.state ≡ false)
        × (is_reprovision runtime.state ≡ false)
        × (status ≡ ok)
        × (runtime.has_vault ≡ registration.registration_present)
        × (runtime.has_vault ≡ true → runtime.vault_id ≡ registration.vault_id))
unfolding classify_recovery_reset
classify_recovery_reset_iff runtime status registration available = (
  λ e. ground (arith, bytes_eq_iff runtime.vault_id registration.vault_id),
  λ e. ground (arith, bytes_eq_iff runtime.vault_id registration.vault_id),
)

-- The destructive reset is never offered after a generic read error, neither of the runtime in an
-- error state that does not allow it nor of the registration.
classify_recovery_reset_io :
    (runtime : Metadata) (status : Status) (registration : Snapshot) (available : Bool)
    → (status ≡ io) ⊎ ((is_error runtime.state ≡ true) × (runtime.recovery_reset_allowed ≡ false))
    → classify_recovery_reset runtime status registration available ≡ unavailable
unfolding classify_recovery_reset
classify_recovery_reset_io runtime status registration available h = ground arith
