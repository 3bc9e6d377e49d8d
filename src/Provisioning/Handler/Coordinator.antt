-- ===== src/Provisioning/Handler/Coordinator.antt =====
-- Lemmas on the coordinator behind the message handler.
use m5authenticator.Prelude.{ℕ, ◌≡◌, Bool, true, false, arith, Bytes}
use m5authenticator.Session.Attempts
use m5authenticator.Session.Attempts.{new_coordinator}
use m5authenticator.Session.Attempts.Context.{AttemptCoordinator, PresenceBinding}
use m5authenticator.Session.Attempts.Authorized
use m5authenticator.Session.Device.{Crypto}
use m5authenticator.Provisioning.Handler.Request.{Cjson}
use m5authenticator.Provisioning.Handler.Responses.{Ports}

module _ {K U W J : Type 0} (crypto : Crypto K) (import_public_key : Bytes → Bool)
    (presence : PresenceBinding U) (ports : Ports W) (json : Cjson J) where
  pub authorize-Inv :
      (key signature : Bytes) (now_ms : ℕ) (x : AttemptCoordinator K × U)
      → Authorized.Inv crypto import_public_key presence x.0
      → Authorized.Inv crypto import_public_key presence
          (Attempts.authorize crypto import_public_key presence key signature now_ms x).1.0
  authorize-Inv key signature now_ms x v =
      unfold Authorized.step in
      Authorized.step-Inv crypto import_public_key presence
        (Authorized.authorizes key signature now_ms) x.0 x.1 v

  pub expire-Inv :
      (now_ms : ℕ) (x : AttemptCoordinator K × U)
      → Authorized.Inv crypto import_public_key presence x.0
      → Authorized.Inv crypto import_public_key presence
          (Attempts.expire crypto import_public_key presence now_ms x).1.0
  expire-Inv now_ms x v =
      unfold Authorized.step in
      Authorized.step-Inv crypto import_public_key presence (Authorized.expires now_ms) x.0 x.1 v

  pub complete-Inv :
      (nonce ciphertext tag : Bytes) (now_ms : ℕ) (x : AttemptCoordinator K × U)
      → Authorized.Inv crypto import_public_key presence x.0
      → Authorized.Inv crypto import_public_key presence
          (Attempts.complete crypto import_public_key presence nonce ciphertext tag now_ms x).1.0
  complete-Inv nonce ciphertext tag now_ms x v =
      unfold Authorized.step in
      Authorized.step-Inv crypto import_public_key presence
        (Authorized.completes nonce ciphertext tag now_ms) x.0 x.1 v

  pub authorize-context :
      (key signature : Bytes) (now_ms : ℕ) (x : AttemptCoordinator K × U)
      → (Attempts.authorize crypto import_public_key presence key signature now_ms x).0 ≡ true
      → (Attempts.authorize crypto import_public_key presence key signature now_ms x).1.0.context
        ≡ x.0.context
  unfolding Attempts.authorize Attempts.authorize_transcript
  authorize-context key signature now_ms x e = ground arith

  pub expire-context :
      (now_ms : ℕ) (x : AttemptCoordinator K × U)
      → (Attempts.expire crypto import_public_key presence now_ms x).0 ≡ false
      → (Attempts.expire crypto import_public_key presence now_ms x).1.0.context ≡ x.0.context
  unfolding Attempts.expire
  expire-context now_ms x e = ground arith

  pub expire-active :
      (now_ms : ℕ) (x : AttemptCoordinator K × U)
      → (Attempts.expire crypto import_public_key presence now_ms x).0 ≡ false
      → (Attempts.expire crypto import_public_key presence now_ms x).1.0.active ≡ x.0.active
  unfolding Attempts.expire
  expire-active now_ms x e = ground arith
