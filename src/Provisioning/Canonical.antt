-- ===== src/Provisioning/Canonical.antt =====
-- The handler over the sources of the firmware: `CanonicalBindingSource` and `CanonicalVmkSink`
-- (firmware/components/m5auth_provisioning/canonical_v2_state.hpp). The time of a message is also that
-- of the sink's clock.
use m5authenticator.Prelude.{
  ◌≡◌, refl, ◌≢◌, inl, inr, true, false, Option, none, some, arith, Option-cases, bytes_eq_iff,
}
use m5authenticator.Registration
use m5authenticator.Registration.Operations.{RegistrationKey}
use m5authenticator.VaultRuntime.{Runtime}
use m5authenticator.VaultRuntime.Access.{Metadata, metadata}
use m5authenticator.Provisioning.Binding.{
  SessionV2DeviceSnapshot, canonical_snapshot, joined_snapshot, snapshot_of,
}

-- What the snapshot of the firmware says of its two sources.
pub record Consistent (r : Runtime) (g : Registration.Store) (s : SessionV2DeviceSnapshot)
    : Type 0 where
  pub vault : s.vault_present ≡ r.has_vault
  pub registration : s.registration_present ≡ r.has_vault
  pub registered : g.current.registration_present ≡ r.has_vault
  pub vault_id : r.has_vault ≡ true → s.vault_id ≡ r.envelope.vault_id
  pub of_vault : r.has_vault ≡ true → g.current.vault_id ≡ r.envelope.vault_id
  pub generation : r.has_vault ≡ true → s.generation ≡ r.envelope.generation
  pub epoch : r.has_vault ≡ true → s.registration_epoch ≡ g.current.epoch
  pub no_epoch : r.has_vault ≡ false → s.registration_epoch ≡ 0
  pub key : r.has_vault ≡ true → s.brk_public_key ≡ g.current.brk_public_key

joined_snapshot-none :
    (g : Registration.Status × Option Registration.Snapshot) {s : SessionV2DeviceSnapshot}
    → joined_snapshot none g ≢ some s
unfolding joined_snapshot
joined_snapshot-none g e = cc

joined_snapshot-of :
    (m : Metadata) (g : Registration.Status × Option Registration.Snapshot)
    {s : SessionV2DeviceSnapshot}
    → joined_snapshot (some m) g ≡ some s
    → (h : Registration.Snapshot) × (g.1 ≡ some h)
      × (h.registration_present ≡ m.has_vault)
      × (m.has_vault ≡ true → h.vault_id ≡ m.vault_id)
      × (s ≡ snapshot_of m h)
unfolding joined_snapshot
joined_snapshot-of m (status, none) e = cc
joined_snapshot-of m (status, some h) e =
    (h, refl, ground arith, ground (arith, bytes_eq_iff m.vault_id h.vault_id), ground arith)

metadata-of :
    (r : Runtime) (m : Metadata)
    → metadata r ≡ some m
    → (m.has_vault ≡ r.has_vault)
      × (r.has_vault ≡ true → m.vault_id ≡ r.envelope.vault_id)
      × (r.has_vault ≡ true → m.generation ≡ r.envelope.generation)
unfolding metadata
metadata-of r m e = ground arith

registration_snapshot-of :
    (g : Registration.Store) (h : Registration.Snapshot)
    → (Registration.Operations.snapshot g).1 ≡ some h
    → h ≡ g.current
unfolding Registration.Operations.snapshot
registration_snapshot-of g h e = ground arith

snapshot_of-Consistent :
    (r : Runtime) (m : Metadata) (g : Registration.Store)
    → (m.has_vault ≡ r.has_vault)
      × (r.has_vault ≡ true → m.vault_id ≡ r.envelope.vault_id)
      × (r.has_vault ≡ true → m.generation ≡ r.envelope.generation)
    → g.current.registration_present ≡ m.has_vault
    → (m.has_vault ≡ true → g.current.vault_id ≡ m.vault_id)
    → Consistent r g (snapshot_of m g.current)
unfolding snapshot_of
snapshot_of-Consistent r m g of present same = ground arith

-- A snapshot that the firmware gives shows the active Vault and the registration, which agree.
pub canonical_snapshot-Consistent :
    (r : Runtime) (g : Registration.Store) (s : SessionV2DeviceSnapshot)
    → canonical_snapshot r g ≡ some s
    → Consistent r g s
unfolding canonical_snapshot
canonical_snapshot-Consistent r g s e = elim (Option-cases (metadata r)) [
  | inl missing ↦
      absurd (joined_snapshot-none (Registration.Operations.snapshot g) (rw missing at e))
  | inr (m, found) ↦
      let (h, given, present, same, result) =
        joined_snapshot-of m (Registration.Operations.snapshot g) (rw found at e) in
      let current = registration_snapshot-of g h given in
      rw result (
        rw current (
          snapshot_of-Consistent r m g (metadata-of r m found) (rw current at present)
            (rw current at same)))
]
