-- ===== src/Provisioning/Tests.antt =====
-- The decisions on a reset, on concrete data.
use m5authenticator.Prelude.{
  ◌≡◌, refl, true, false, none, [], ◌∷◌, arith, Bytes, saturating_deadline,
}
use m5authenticator.Registration
use m5authenticator.Registration.{io, Snapshot}
use m5authenticator.Provisioning.Recovery.{
  not_required, classify_recovery_reset, classify_recovery_reset_iff,
}
use m5authenticator.VaultRuntime.{locked}
use m5authenticator.VaultRuntime.Access.{Metadata}
use m5authenticator.Provisioning.{begins, cancels, check, ok, check-Begun, after}

abbrev first_id : Bytes
first_id = 1 ∷ 2 ∷ []

check-Begun_example : check first_id 30_999 (after (begins first_id 1_000 ∷ cancels ∷ [])) ≡ ok
check-Begun_example =
    (check-Begun (begins first_id 1_000 ∷ cancels ∷ []) first_id 30_999).1
      (refl, unfold saturating_deadline in ground arith)

abbrev healthy : Metadata
healthy = record {
  state = locked;
  schema_ready = true;
  has_vault = true;
  recovery_reset_allowed = false;
  storage_schema_version = 2;
  vault_format_version = 2;
  vault_id = first_id;
  generation = 4;
  last_used = none;
}

abbrev registered : Snapshot
registered = record {
  device_id = [];
  registration_present = true;
  vault_id = first_id;
  registration_id = [];
  epoch = 1;
  brk_public_key = [];
}

classify_recovery_reset_iff_example :
    classify_recovery_reset healthy Registration.ok registered false ≡ not_required
classify_recovery_reset_iff_example =
    (classify_recovery_reset_iff healthy Registration.ok registered false).1
      (refl, refl, refl, refl, λ h. refl)
