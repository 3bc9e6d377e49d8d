-- ===== src/Provisioning/Sink/Delivery.antt =====
-- From the delivery of a key to the Vault under it.
use m5authenticator.Prelude.{ℕ, ◌≡◌, Bool, true, List, Bytes}
use m5authenticator.Session.{Operation, initial_provisioning, recovery}
use m5authenticator.Nvs.{Nvs}
use m5authenticator.Registration
use m5authenticator.Registration.Operations.{RegistrationKey}
use m5authenticator.Vault.{VaultEnvelope}
use m5authenticator.Vault.Crypto.{AesGcm}
use m5authenticator.VaultRuntime.{Persistence, Runtime}
use m5authenticator.Provisioning.Sink.History.{Call, Delivered, Armed, after, after-Holds}
use m5authenticator.Provisioning.Sink.Install.{
  Waiting, Installed, install_initial_vault-Installed, install_recovered_vault-Installed,
}
use m5authenticator.Provisioning.Sink.{install_initial_vault, install_recovered_vault}
use m5authenticator.Provisioning.Sink.Pending.{Device}

module _ {P S : Type 0} (persistence : Persistence P) (gcm : AesGcm) (nvs : Nvs RegistrationKey S)
    (valid_public_key : Bytes → Bool) where
  -- The device `d`, which the calls `h` have led to, has installed the Vault `e` for this operation, and is `d'`.
  pub record Completes (operation : Operation) (generation : ℕ) (e : VaultEnvelope) (now_ms : ℕ)
      (h : List (Call S)) (d d' : Device P S) : Type 0 where
    pub delivered : Delivered d.sink.pending_context d.sink.pending_vmk h
    pub armed : Armed d.sink.pending_expires_at_ms h
    pub waiting : Waiting operation now_ms d.sink
    pub first : e.generation ≡ generation
    pub installed : Installed persistence gcm nvs valid_public_key e now_ms d.sink d'

  -- Whatever was called before: where `install_initial_vault` or `install_recovered_vault` succeeds, the
  -- key that was delivered last, for this operation, was still held and the deadline that was armed
  -- since has not come. The given envelope is of the Vault of that delivery, with the generation 1 or the
  -- one that the delivery expected; the runtime is unlocked since now with this envelope and this key; the
  -- registration is the one that the delivery proposed, with the epoch 1; the sink is blank.
  pub after-Completes :
      (e : VaultEnvelope) (now_ms : ℕ) (h : List (Call S)) (x : Runtime × P)
      (y : Registration.Store × S)
      → let d = after persistence gcm nvs valid_public_key h x y in
        let initial = install_initial_vault persistence gcm nvs valid_public_key e now_ms d in
        let recovered = install_recovered_vault persistence gcm nvs valid_public_key e now_ms d in
        (initial.0 ≡ true → Completes initial_provisioning 1 e now_ms h d initial.1)
        × (recovered.0 ≡ true
            → Completes recovery d.sink.pending_context.expected_generation e now_ms h d
                recovered.1)
  after-Completes e now_ms h x y =
      let d = after persistence gcm nvs valid_public_key h x y in
      let v = after-Holds persistence gcm nvs valid_public_key h x y in
      (
        λ k.
            let (w, first, done) =
              install_initial_vault-Installed persistence gcm nvs valid_public_key e now_ms d k in
            record {
              delivered = v.delivered w.waits;
              armed = v.armed w.armed;
              waiting = w;
              first = first;
              installed = done;
            },
        λ k.
            let (w, first, done) =
              install_recovered_vault-Installed persistence gcm nvs valid_public_key e now_ms d k in
            record {
              delivered = v.delivered w.waits;
              armed = v.armed w.armed;
              waiting = w;
              first = first;
              installed = done;
            },
      )
