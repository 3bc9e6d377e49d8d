-- ===== src/Provisioning/Opening.antt =====
-- From a message of the browser to an open Vault, over the sources of the firmware.
mod Tests
use m5authenticator.Prelude.{
  ℕ, ◌≤◌, ◌≡◌, ◌∙◌, inl, inr, Bool, true, false, List, arith, Bytes, u32_max,
}
use m5authenticator.Session.Attempts.Context.{BeginContext, PresenceBinding}
use m5authenticator.Session.Device.{Crypto, Draws}
use m5authenticator.Nvs.{Nvs}
use m5authenticator.Registration
use m5authenticator.Registration.Operations.{RegistrationKey}
use m5authenticator.Vault.Crypto.{AesGcm}
use m5authenticator.VaultRuntime.{Persistence, Runtime, is_unlocked}
use m5authenticator.VaultRuntime.Operations.{unlock}
use m5authenticator.Session.{Operation}
use m5authenticator.Provisioning.Sink.{
  install_vmk, replace_registration, install_operation, unlock_device, recover, cancel_pending,
}
use m5authenticator.Provisioning.Sink.Pending.{Device}
use m5authenticator.Provisioning.Binding.{canonical_snapshot}
use m5authenticator.Provisioning.Binding.Matches.{session_v2_begin_matches_snapshot-Fits}
use m5authenticator.Provisioning.Handler.Responses.{Ports, Handler}
use m5authenticator.Provisioning.Handler.Request.{Cjson}
use m5authenticator.Provisioning.Handler.Effect.{Installs}
use m5authenticator.Provisioning.Handler.Run.{Call, new_handler, run, run-handle_line-Installs}
use m5authenticator.Provisioning.Sink.Closed.Calls.{unlock-initialized, lock-Locks}
use m5authenticator.Provisioning.Canonical.{canonical_snapshot-Consistent}
use m5authenticator.Provisioning.Handler.Lines.{handle_line}

-- The runtime has been opened with the key: it had the Vault before, which is the same.
pub record Opens (vmk : Bytes) (r after : Runtime) : Type 0 where
  pub had_vault : r.has_vault ≡ true
  pub resident : after.vmk ≡ vmk
  pub same_vault : after.envelope ≡ r.envelope

module _ {P S : Type 0} (persistence : Persistence P) (gcm : AesGcm) (nvs : Nvs RegistrationKey S)
    (valid_public_key : Bytes → Bool) where
  -- The two sources; the number is the value of the clock.
  unfoldable pub canonical_ports : Ports (ℕ × Device P S)
  canonical_ports = record {
    snapshot = λ w. canonical_snapshot w.1.runtime.0 w.1.registration.0;
    install_vmk = λ c vmk w.
        let (result, d) = install_vmk persistence gcm nvs valid_public_key c vmk w.0 w.1 in
        (result, (w.0, d));
  }

  unlock-Opens :
      (vmk : Bytes) (now_ms : ℕ) (r : Runtime) (s : P)
      → is_unlocked r.state ≡ false
      → is_unlocked (unlock persistence gcm vmk now_ms (r, s)).1.0.state ≡ true
      → Opens vmk r (unlock persistence gcm vmk now_ms (r, s)).1.0
  unfolding unlock
  unlock-Opens vmk now_ms r s e h = ground arith

  replace_registration-Opens :
      (c : BeginContext) (vmk : Bytes) (now_ms : ℕ) (d : Device P S)
      → is_unlocked d.runtime.0.state ≡ false
      → let d' = (replace_registration persistence gcm nvs valid_public_key c vmk now_ms d).1 in
        is_unlocked d'.runtime.0.state ≡ true → Opens vmk d.runtime.0 d'.runtime.0
  unfolding replace_registration
  replace_registration-Opens c vmk now_ms d e h = ground (
    arith,
    unlock-Opens vmk now_ms d.runtime.0 d.runtime.1 e,
    unlock-initialized persistence gcm nvs valid_public_key vmk now_ms d.runtime.0 d.runtime.1,
    lock-Locks persistence gcm nvs valid_public_key
        (unlock persistence gcm vmk now_ms d.runtime).1.0,
  )

  install_operation-Opens :
      (o : Operation) (c : BeginContext) (vmk : Bytes) (now_ms : ℕ) (d : Device P S)
      → is_unlocked d.runtime.0.state ≡ false
      → let d' = (install_operation persistence gcm nvs valid_public_key o c vmk now_ms d).1 in
        is_unlocked d'.runtime.0.state ≡ true → Opens vmk d.runtime.0 d'.runtime.0
  unfolding install_operation unlock_device recover
  install_operation-Opens o c vmk now_ms d e h = ground (
    arith,
    unlock-Opens vmk now_ms d.runtime.0 d.runtime.1 e,
    replace_registration-Opens c vmk now_ms d e,
  )

  module _ {K U J : Type 0} (crypto : Crypto K) (import_public_key : Bytes → Bool)
      (presence : PresenceBinding U) (json : Cjson J) where
    -- The message has opened the Vault of the runtime.
    pub record Opened (now_ms : ℕ) (s : Handler K U (ℕ × Device P S)) (w : ℕ × Device P S)
        : Type 0 where
      pub key : Installs crypto import_public_key presence canonical_ports json now_ms s w
      pub opens : Opens key.vmk s.world.1.runtime.0 w.1.runtime.0
      pub same_vault : s.coordinator.0.context.vault_id ≡ s.world.1.runtime.0.envelope.vault_id
      pub same_generation :
          s.coordinator.0.context.expected_generation ≡ s.world.1.runtime.0.envelope.generation
      pub registered : s.world.1.registration.0.current.registration_present ≡ true

    installs-Opened :
        (now_ms : ℕ) (s : Handler K U (ℕ × Device P S)) (w : ℕ × Device P S)
        → s.world.1.registration.0.current.epoch ≤ u32_max
        → is_unlocked s.world.1.runtime.0.state ≡ false
        → is_unlocked w.1.runtime.0.state ≡ true
        → Installs crypto import_public_key presence canonical_ports json now_ms s w
        → Opened now_ms s w
    unfolding canonical_ports install_vmk
    installs-Opened now_ms s w b locked open_now v =
        let d = s.world.1 in
        let opens : Opens v.vmk d.runtime.0 w.1.runtime.0 = rw v.installed (
          install_operation-Opens s.coordinator.0.context.operation s.coordinator.0.context v.vmk
            s.world.0 (cancel_pending persistence gcm nvs valid_public_key d) locked
            (rw v.installed at open_now)) in
        let shown =
          canonical_snapshot-Consistent d.runtime.0 d.registration.0 v.snapshot v.current in
        let (device, fits, clean) =
          session_v2_begin_matches_snapshot-Fits s.coordinator.0.context v.snapshot
            (rw (shown.epoch opens.had_vault) b) v.bound in
        let context = fits (shown.vault ∙ opens.had_vault) in
        record {
          key = v;
          opens = opens;
          same_vault = context.same_vault ∙ shown.vault_id opens.had_vault;
          same_generation = context.same_generation ∙ shown.generation opens.had_vault;
          registered = shown.registered ∙ opens.had_vault;
        }

    -- Whatever the browser sent before, and whatever happened at the button, to the clock and to the
    -- Device: where a message turns a runtime that is not unlocked into an unlocked one, and the epoch of the
    -- registration is a 32-bit number, the key in use is one that the attempt has delivered, in time,
    -- with its transcript signed where it has to be and the presence confirmed; the Device had this Vault
    -- and a registration, and the context of the attempt is of this Vault at its current generation.
    pub run-handle_line-Opened :
        (calls : List (Call K U (ℕ × Device P S))) (u : U) (w : ℕ × Device P S) (draws : Draws K)
        (line : Bytes) (now_ms : ℕ)
        → let s =
            run crypto import_public_key presence canonical_ports json calls (new_handler u w) in
          let s' =
            (handle_line crypto import_public_key presence canonical_ports json draws line now_ms
              s).1 in
          s.world.1.registration.0.current.epoch ≤ u32_max
          → is_unlocked s.world.1.runtime.0.state ≡ false
          → is_unlocked s'.world.1.runtime.0.state ≡ true
          → Opened now_ms s s'.world
    run-handle_line-Opened calls u w draws line now_ms b locked open_now =
        let s =
          run crypto import_public_key presence canonical_ports json calls (new_handler u w) in
        elim (run-handle_line-Installs crypto import_public_key presence canonical_ports json calls
          u w draws line now_ms) [
            | inl same ↦ absurd (ground (arith, same, locked, open_now))
            | inr v ↦ installs-Opened now_ms s _ b locked open_now v
          ]
