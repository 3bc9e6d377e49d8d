-- ===== src/Session/Attempts/Authorized.antt =====
-- What holds of an attempt after any calls.
use m5authenticator.Prelude.{
  ℕ, ◌<◌, ◌≡◌, refl, ◌≢◌, inl, inr, Bool, true, false, not, ◌||◌, Option, none, some, List, [], ◌∷◌,
  arith, Bool-cases, Bytes,
}
use m5authenticator.Session.{encode_transcript, presence_operation}
use m5authenticator.Session.{trusted_browser_unlock, vmk_rekey}
use m5authenticator.Prelude.{◌⊎◌}
use m5authenticator.Session.Device
use m5authenticator.Session.Device.{
  AttemptDescriptor, Crypto, Draws, DeviceSession, reset, descriptor_of, matches_attempt,
  verify_brk_signature, open_vmk, brk_signature_bytes, decrypt, drawn,
}
use m5authenticator.Session.Attempts.{
  context_valid, transcript_input, new_coordinator, wipe_staged, cancel, begin, authenticate,
  authorize_transcript, authorize, complete, expire,
}
use m5authenticator.Session.Attempts.Context.{
  BeginContext, awaiting_presence, confirmed, is_awaiting_presence, is_awaiting_authorization,
  PresenceBinding, AttemptCoordinator, brk_signature_required,
}

pub data Call (K U : Type 0) : Type 0 where
  begins : Draws K → BeginContext → ℕ → Call K U
  authorizes : Bytes → Bytes → ℕ → Call K U
  completes : Bytes → Bytes → Bytes → ℕ → Call K U
  expires : ℕ → Call K U
  cancels : Call K U
  -- What happens at the button in between.
  moves : (U → U) → Call K U

module _ {K U : Type 0} (crypto : Crypto K) (import_public_key : Bytes → Bool)
    (presence : PresenceBinding U) where
  unfoldable pub step : Call K U → AttemptCoordinator K × U → AttemptCoordinator K × U
  step (begins draws context now_ms) x =
      (begin crypto import_public_key presence draws context now_ms x).1
  step (authorizes key signature now_ms) x =
      (authorize crypto import_public_key presence key signature now_ms x).1
  step (completes nonce ciphertext tag now_ms) x =
      (complete crypto import_public_key presence nonce ciphertext tag now_ms x).1
  step (expires now_ms) x = (expire crypto import_public_key presence now_ms x).1
  step cancels x = cancel crypto import_public_key presence x
  step (moves f) (c, u) = (c, f u)

  unfoldable pub run : List (Call K U) → AttemptCoordinator K × U → AttemptCoordinator K × U
  unfolding step
  run [] x = x
  run (a ∷ calls) x = run calls (step a x)

  -- The transcript is that of this attempt, and is signed where it has to be.
  pub record Authorized (c : AttemptCoordinator K) : Type 0 where
    pub encoded :
        encode_transcript import_public_key (transcript_input c c.web_public_key)
        ≡ some c.transcript
    pub signed :
        (c.context.operation ≡ trusted_browser_unlock) ⊎ (c.context.operation ≡ vmk_rekey)
        → (signature : Bytes) × (crypto.verify_brk c.context.current_brk_public_key c.transcript
              signature
            ≡ true)

  pub record Inv (c : AttemptCoordinator K) : Type 0 where
    pub described : c.active ≡ true → c.descriptor ≡ descriptor_of c.crypto
    pub valid : c.active ≡ true → context_valid import_public_key c.context ≡ true
    pub authorized : c.active ≡ true → is_awaiting_presence c.state ≡ true → Authorized c
    pub dynamic : c.state ≢ confirmed

  wipe_staged-Inv : (c : AttemptCoordinator K) → Inv (wipe_staged c)
  unfolding wipe_staged
  wipe_staged-Inv c = ground arith

  pub new_coordinator-Inv : Inv new_coordinator
  unfolding new_coordinator
  new_coordinator-Inv = ground arith

  begin-Inv :
      (draws : Draws K) (context : BeginContext) (now_ms : ℕ) (c : AttemptCoordinator K) (u : U)
      → Inv (begin crypto import_public_key presence draws context now_ms (c, u)).1.0
  unfolding begin cancel wipe_staged
  begin-Inv draws context now_ms c u = ground arith

  authenticate-Signed :
      (transcript signature : Bytes) (now_ms : ℕ) (c : AttemptCoordinator K) (d : DeviceSession K)
      → (authenticate crypto import_public_key presence transcript signature now_ms c d).0 ≡ true
      → ((authenticate crypto import_public_key presence transcript signature now_ms c d).1 ≡ d)
        × ((c.context.operation ≡ trusted_browser_unlock) ⊎ (c.context.operation ≡ vmk_rekey)
            → crypto.verify_brk c.context.current_brk_public_key transcript signature ≡ true)
  unfolding authenticate verify_brk_signature brk_signature_required
  authenticate-Signed transcript signature now_ms c d e = ground arith

  -- What `authorize` leaves where it succeeds.
  granted-Inv :
      (key signature : Bytes) (c : AttemptCoordinator K) (transcript : Bytes)
      → Inv c
      → encode_transcript import_public_key (transcript_input c key) ≡ some transcript
      → ((c.context.operation ≡ trusted_browser_unlock) ⊎ (c.context.operation ≡ vmk_rekey)
          → crypto.verify_brk c.context.current_brk_public_key transcript signature ≡ true)
      → Inv (record c { web_public_key = key; transcript = transcript; state = awaiting_presence })
  unfolding transcript_input
  granted-Inv key signature c transcript v e f = record {
    described = v.described;
    valid = v.valid;
    authorized = λ h k. record { encoded = e; signed = λ r. (signature, f r) };
    dynamic = λ h. cc;
  }

  authorize_transcript-Inv :
      (key signature : Bytes) (now_ms : ℕ) (c : AttemptCoordinator K) (u : U) (m : Option Bytes)
      → Inv c
      → encode_transcript import_public_key (transcript_input c key) ≡ m
      → Inv
          (authorize_transcript crypto import_public_key presence key signature now_ms (c, u) m).1.0
  unfolding authorize_transcript cancel transcript_input
  authorize_transcript-Inv key signature now_ms c u none v e = wipe_staged-Inv _
  authorize_transcript-Inv key signature now_ms c u (some transcript) v e =
      elim (Bool-cases
        (authenticate crypto import_public_key presence transcript signature now_ms c c.crypto).0) [
          | inr bad ↦ rw bad (wipe_staged-Inv _)
          | inl fine ↦
              let signed = authenticate-Signed transcript signature now_ms c c.crypto fine in
              elim (Bool-cases
                (presence.begin_presence (presence_operation c.context.operation)
                  c.descriptor.attempt_id now_ms u).0) [
                    | inr bad ↦ rw (fine, bad) (wipe_staged-Inv _)
                    | inl begun ↦
                        rw (fine, begun, signed.0)
                          (granted-Inv key signature c transcript v e signed.1)
                  ]
        ]

  pub matches_attempt-same :
      (id : Bytes) (now_ms : ℕ) (d : DeviceSession K)
      → (matches_attempt id now_ms d).0 ≡ true
      → ((matches_attempt id now_ms d).1 ≡ d) × (d.active ≡ true) × (now_ms < d.expires_at_ms)
  unfolding matches_attempt
  matches_attempt-same id now_ms d e = ground arith

  cancel-Inv :
      (c : AttemptCoordinator K) (u : U) → Inv (cancel crypto import_public_key presence (c, u)).0
  unfolding cancel
  cancel-Inv c u = wipe_staged-Inv (record c { crypto = reset })

  authorize-Inv :
      (key signature : Bytes) (now_ms : ℕ) (c : AttemptCoordinator K) (u : U)
      → Inv c
      → Inv (authorize crypto import_public_key presence key signature now_ms (c, u)).1.0
  unfolding authorize
  authorize-Inv key signature now_ms c u v =
      elim (Bool-cases (
        not c.active
        || not (is_awaiting_authorization c.state)
        || not (matches_attempt c.descriptor.attempt_id now_ms c.crypto).0)) [
          | inl bad ↦ rw bad (cancel-Inv c u)
          | inr fine ↦
              let same =
                matches_attempt-same c.descriptor.attempt_id now_ms c.crypto
                  (ground (arith, fine)) in
              rw (fine, same.0) (authorize_transcript-Inv key signature now_ms c u _ v refl)
        ]

  complete-Inv :
      (nonce ciphertext tag : Bytes) (now_ms : ℕ) (c : AttemptCoordinator K) (u : U)
      → Inv (complete crypto import_public_key presence nonce ciphertext tag now_ms (c, u)).1.0
  unfolding complete cancel wipe_staged
  complete-Inv nonce ciphertext tag now_ms c u = ground arith

  device_expire-same :
      (now_ms : ℕ) (d : DeviceSession K)
      → (Device.expire now_ms d).0 ≡ false
      → (Device.expire now_ms d).1 ≡ d
  unfolding Device.expire
  device_expire-same now_ms d e = ground arith

  expire-Inv :
      (now_ms : ℕ) (c : AttemptCoordinator K) (u : U)
      → Inv c
      → Inv (expire crypto import_public_key presence now_ms (c, u)).1.0
  unfolding expire
  expire-Inv now_ms c u v = ground (arith, cancel-Inv c u, device_expire-same now_ms c.crypto)

  pub step-Inv : (a : Call K U) (c : AttemptCoordinator K) (u : U) → Inv c → Inv (step a (c, u)).0
  unfolding step
  step-Inv (begins draws context now_ms) c u v = begin-Inv draws context now_ms c u
  step-Inv (authorizes key signature now_ms) c u v = authorize-Inv key signature now_ms c u v
  step-Inv (completes nonce ciphertext tag now_ms) c u v =
      complete-Inv nonce ciphertext tag now_ms c u
  step-Inv (expires now_ms) c u v = expire-Inv now_ms c u v
  step-Inv cancels c u v = cancel-Inv c u
  step-Inv (moves f) c u v = v

  pub run-Inv :
      (calls : List (Call K U)) (c : AttemptCoordinator K) (u : U)
      → Inv c
      → Inv (run calls (c, u)).0
  unfolding run
  run-Inv [] c u v = v
  run-Inv (a ∷ calls) c u v = run-Inv calls (step a (c, u)).0 (step a (c, u)).1 (step-Inv a c u v)
