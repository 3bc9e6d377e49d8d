-- ===== src/Session/Attempts/Honest/Completes.antt =====
-- Two sides that follow the protocol get the key across (attempt_coordinator.cpp).
use m5authenticator.Prelude.{
  ℕ, ◌≤◌, ◌<◌, ◌≡◌, Bool, true, some, ◌++◌, arith, length, length-append, Bytes, get_or,
  saturating_deadline, refl, bind-eq-some, some_eq,
}
use m5authenticator.Presence.{attempt_ttl_ms}
use m5authenticator.Session.{
  transcript_bytes, valid_p256_public_key, valid_optional_p256_identity, presence_operation,
}
use m5authenticator.Session.Transcript.{IsInput}
use m5authenticator.Session.Device.{Crypto, verify_brk_signature, open_vmk, decrypt}
use m5authenticator.Session.Attempts.{
  context_valid, transcript_input, begin, authenticate, authorize_transcript, authorize, complete,
  cancel,
}
use m5authenticator.Session.Attempts.Context.{
  AttemptCoordinator, PresenceBinding, context_fits, brk_signature_required,
}
use m5authenticator.Session.Attempts.Honest.{
  CryptoLaws, length-transcript_bytes, encode_transcript-shared, Exchange, honest_draws,
  begun_descriptor, honest_input, web_seal, Signs, generated, begin-generated, started, authorized,
  matches-generated,
}

module _ {K U : Type 0} {crypto : Crypto K} {import_public_key : Bytes → Bool}
    (presence : PresenceBinding U) (laws : CryptoLaws crypto import_public_key) (x : Exchange K)
    (sizes : IsInput (honest_input laws x))
    (valid : context_valid import_public_key x.context ≡ true) where
  begin-started :
      (c : AttemptCoordinator K) (u : U)
      → begin crypto import_public_key presence (honest_draws laws x) x.context x.begin_ms (c, u)
        ≡ (some (begun_descriptor laws x), (started laws x, presence.cancel_presence u))
  unfolding begin cancel started
  begin-started c u = rw (begin-generated laws x, valid) refl

  id_bound : length x.context.device_id ≤ 64
  unfolding context_valid
  id_bound = ground arith

  -- Where a signature is required, the context has a key to check it with.
  registered_key :
      brk_signature_required x.context.operation ≡ true
      → (length x.context.current_brk_public_key ≡ 65)
        × (get_or x.context.current_brk_public_key 0 0 ≡ 4)
  unfolding context_valid context_fits brk_signature_required valid_optional_p256_identity
      valid_p256_public_key
  registered_key r = ground arith

  authenticate-started :
      (signature : Bytes) (later_ms : ℕ)
      → Signs laws x signature
      → later_ms < saturating_deadline x.begin_ms attempt_ttl_ms
      → authenticate crypto import_public_key presence
          (transcript_bytes (honest_input laws x))
          signature
          later_ms
          (started laws x)
          (generated laws x)
        ≡ (true, generated laws x)
  unfolding authenticate verify_brk_signature started generated
  authenticate-started signature later_ms s h = ground (
    arith,
    s.signed,
    s.unsigned,
    registered_key,
    length-transcript_bytes (honest_input laws x) sizes,
    id_bound,
  )

  authorize-granted :
      (signature : Bytes) (later_ms : ℕ) (u : U)
      → Signs laws x signature
      → later_ms < saturating_deadline x.begin_ms attempt_ttl_ms
      → (presence.begin_presence (presence_operation x.context.operation) x.attempt_id later_ms u).0
        ≡ true
      → authorize crypto import_public_key presence
          (laws.public_key x.web_key)
          signature
          later_ms
          (started laws x, u)
        ≡ (
          true,
          (
            authorized laws x,
            (presence.begin_presence
                (presence_operation x.context.operation)
                x.attempt_id
                later_ms
                u).1,
          ),
        )
  unfolding authorize authorize_transcript transcript_input started authorized
  authorize-granted signature later_ms u s h b =
      rw
        (
          matches-generated laws x later_ms h,
          encode_transcript-shared import_public_key x.context x.attempt_id x.challenge
              (laws.public_key x.device_key) (laws.public_key x.web_key) sizes valid
              (laws.well_formed x.device_key) (laws.well_formed x.web_key),
          authenticate-started signature later_ms s h,
          b,
        )
        refl

  decrypt-web_seal :
      (nonce vmk ciphertext tag : Bytes)
      → web_seal laws x nonce vmk ≡ some (ciphertext, tag)
      → (decrypt crypto
            (some x.device_key)
            (laws.public_key x.web_key)
            (x.attempt_id ++ x.challenge)
            (transcript_bytes (honest_input laws x))
            nonce
            ciphertext
            tag
            (transcript_bytes (honest_input laws x))
          ≡ some vmk)
        × (length ciphertext ≡ length vmk)
        × (length tag ≡ 16)
  unfolding web_seal decrypt
  decrypt-web_seal nonce vmk ciphertext tag e =
      let transcript = transcript_bytes (honest_input laws x) in
      let (shared_secret, agreed, e1) =
        bind-eq-some (crypto.derive_shared x.web_key (laws.public_key x.device_key)) _ e in
      let (session_key, derived, e2) =
        bind-eq-some (crypto.derive_hkdf shared_secret (x.attempt_id ++ x.challenge) transcript) _
          e1 in
      let same : laws.encrypt_vmk_gcm session_key nonce vmk transcript ≡ (ciphertext, tag) =
        some_eq e2 in
      (
        rw (laws.agreement x.device_key x.web_key, agreed, derived)
            (rw same at (laws.opened session_key nonce vmk transcript)),
        rw same at (laws.sealed_sizes session_key nonce vmk transcript).0,
        rw same at (laws.sealed_sizes session_key nonce vmk transcript).1,
      )

  complete-opened :
      (nonce vmk ciphertext tag : Bytes) (later_ms : ℕ) (u : U)
      → web_seal laws x nonce vmk ≡ some (ciphertext, tag)
      → length nonce ≡ 12
      → length vmk ≡ 32
      → later_ms < saturating_deadline x.begin_ms attempt_ttl_ms
      → (presence.consume_presence x.attempt_id later_ms u).0 ≡ true
      → (complete crypto import_public_key presence nonce ciphertext tag later_ms
          (authorized laws x, u)).0
        ≡ some vmk
  unfolding complete open_vmk authorized
  complete-opened nonce vmk ciphertext tag later_ms u e n v h b =
      let (opened, ciphertext_size, tag_size) = decrypt-web_seal nonce vmk ciphertext tag e in
      rw (matches-generated laws x later_ms h, b)
        (unfold generated valid_p256_public_key in
          ground (
            arith,
            opened,
            laws.well_formed x.web_key,
            length-transcript_bytes (honest_input laws x) sizes,
            length-append x.attempt_id x.challenge,
            sizes.attempt_id_size,
            id_bound,
          ))

  -- Two sides that follow the protocol get through, whatever the coordinator did before: with a valid
  -- context the attempt begins; with the browser's key and, where one is required, a signature of the
  -- transcript, in time, it is authorized, if the object with the button accepts the request; and with
  -- the key that the browser has sealed, in time, `complete` gives that key, if the presence is
  -- confirmed by then.
  pub complete-web_seal :
      (signature nonce vmk ciphertext tag : Bytes) (authorize_ms complete_ms : ℕ)
      (c : AttemptCoordinator K) (u u' : U)
      → Signs laws x signature
      → web_seal laws x nonce vmk ≡ some (ciphertext, tag)
      → length nonce ≡ 12
      → length vmk ≡ 32
      → authorize_ms < saturating_deadline x.begin_ms attempt_ttl_ms
      → complete_ms < saturating_deadline x.begin_ms attempt_ttl_ms
      → (presence.begin_presence
          (presence_operation x.context.operation)
          x.attempt_id
          authorize_ms
          (presence.cancel_presence u)).0
        ≡ true
      → (presence.consume_presence x.attempt_id complete_ms u').0 ≡ true
      → let (descriptor, begun) =
          begin crypto import_public_key presence
            (honest_draws laws x)
            x.context
            x.begin_ms
            (c, u) in
        let (granted, y) =
          authorize crypto import_public_key presence
            (laws.public_key x.web_key)
            signature
            authorize_ms
            begun in
        (descriptor ≡ some (begun_descriptor laws x))
        × (granted ≡ true)
        × ((complete crypto import_public_key presence nonce ciphertext tag complete_ms (y.0, u')).0
            ≡ some vmk)
  complete-web_seal signature nonce vmk ciphertext tag authorize_ms complete_ms c u u' s e n v h k b
        d =
      rw
        (
          begin-started c u,
          authorize-granted signature authorize_ms (presence.cancel_presence u) s h b,
        )
        (refl, refl, complete-opened nonce vmk ciphertext tag complete_ms u' e n v k d)

  -- What the authorization leaves of the object with the button.
  pub authorize_presence :
      (signature : Bytes) (authorize_ms : ℕ) (c : AttemptCoordinator K) (u : U)
      → Signs laws x signature
      → authorize_ms < saturating_deadline x.begin_ms attempt_ttl_ms
      → let asked =
          presence.begin_presence
            (presence_operation x.context.operation)
            x.attempt_id
            authorize_ms
            (presence.cancel_presence u) in
        asked.0 ≡ true
        → (authorize crypto import_public_key presence
            (laws.public_key x.web_key)
            signature
            authorize_ms
            (begin crypto import_public_key presence
              (honest_draws laws x)
              x.context
              x.begin_ms
              (c, u)).1).1.1
          ≡ asked.1
  authorize_presence signature authorize_ms c u s h b =
      rw
        (
          begin-started c u,
          authorize-granted signature authorize_ms (presence.cancel_presence u) s h b,
        )
        refl
