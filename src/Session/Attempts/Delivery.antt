-- ===== src/Session/Attempts/Delivery.antt =====
-- When an attempt hands over a key.
use m5authenticator.Prelude.{
  ℕ, ◌<◌, ◌≡◌, ◌≢◌, Bool, true, false, not, ◌||◌, some, ◌++◌, arith, Bytes,
}
use m5authenticator.Session.Device.{
  Crypto, DeviceSession, reset, matches_attempt, open_vmk, decrypt,
}
use m5authenticator.Session.Attempts.{context_valid, wipe_staged, complete}
use m5authenticator.Session.Attempts.Context.{
  AttemptState, confirmed, is_awaiting_presence, is_confirmed, PresenceBinding, AttemptCoordinator,
  hkdf_salt,
}
use m5authenticator.Session.Attempts.Authorized.{Authorized, Inv, matches_attempt-same}

module _ {K U : Type 0} (crypto : Crypto K) (import_public_key : Bytes → Bool)
    (presence : PresenceBinding U) where
  -- The key `vmk` was delivered in the state `c`, with the presence object in `u`, and `x` is left.
  pub record Delivered (c : AttemptCoordinator K) (u : U) (nonce ciphertext tag : Bytes)
      (now_ms : ℕ) (vmk : Bytes) (x : AttemptCoordinator K × U) : Type 0 where
    pub in_time : now_ms < c.descriptor.expires_at_ms
    pub valid : context_valid import_public_key c.context ≡ true
    pub authorized : Authorized crypto import_public_key presence c
    pub running : c.active ≡ true
    pub awaited : is_awaiting_presence c.state ≡ true
    pub present : (presence.consume_presence c.descriptor.attempt_id now_ms u).0 ≡ true
    pub decrypted :
        decrypt crypto c.crypto.key c.web_public_key
          (c.descriptor.attempt_id ++ c.descriptor.challenge)
          c.transcript
          nonce
          ciphertext
          tag
          c.transcript
        ≡ some vmk
    pub over : x.0 ≡ wipe_staged (record c { crypto = reset })

  open_vmk-Opened :
      (key salt info nonce ciphertext tag aad : Bytes) (now_ms : ℕ) (d : DeviceSession K)
      {vmk : Bytes}
      → (open_vmk crypto key salt info nonce ciphertext tag aad now_ms d).0 ≡ some vmk
      → decrypt crypto d.key key salt info nonce ciphertext tag aad ≡ some vmk
  unfolding open_vmk
  open_vmk-Opened key salt info nonce ciphertext tag aad now_ms d e = ground arith

  open_vmk-over :
      (key salt info nonce ciphertext tag aad : Bytes) (now_ms : ℕ) (d : DeviceSession K)
      → (open_vmk crypto key salt info nonce ciphertext tag aad now_ms d).1 ≡ reset
  unfolding open_vmk
  open_vmk-over key salt info nonce ciphertext tag aad now_ms d = ground arith

  -- The conditions under which `complete` comes to the decryption.
  complete-Reached :
      (nonce ciphertext tag : Bytes) (now_ms : ℕ) (c : AttemptCoordinator K) (u : U) {vmk : Bytes}
      → (complete crypto import_public_key presence nonce ciphertext tag now_ms (c, u)).0 ≡ some vmk
      → ((not c.active
            || not (is_awaiting_presence c.state || is_confirmed c.state)
            || not (matches_attempt c.descriptor.attempt_id now_ms c.crypto).0)
          ≡ false)
        × ((presence.consume_presence c.descriptor.attempt_id now_ms u).0 ≡ true)
  unfolding complete
  complete-Reached nonce ciphertext tag now_ms c u e = ground arith

  awaiting :
      (state : AttemptState)
      → state ≢ confirmed
      → (is_awaiting_presence state || is_confirmed state) ≡ true
      → is_awaiting_presence state ≡ true
  awaiting state h e = ground arith

  pub complete-Delivered :
      (nonce ciphertext tag : Bytes) (now_ms : ℕ) (c : AttemptCoordinator K) (u : U) {vmk : Bytes}
      → Inv crypto import_public_key presence c
      → (complete crypto import_public_key presence nonce ciphertext tag now_ms (c, u)).0 ≡ some vmk
      → Delivered c u nonce ciphertext tag now_ms vmk
          (complete crypto import_public_key presence nonce ciphertext tag now_ms (c, u)).1
  complete-Delivered nonce ciphertext tag now_ms c u {vmk} v e =
      let (reached, consumed) = complete-Reached nonce ciphertext tag now_ms c u e in
      let running : c.active ≡ true = ground (arith, reached) in
      let staged : is_awaiting_presence c.state ≡ true =
        awaiting c.state v.dynamic (ground (arith, reached)) in
      let (same, live, in_time) =
        matches_attempt-same crypto import_public_key presence c.descriptor.attempt_id now_ms
          c.crypto (ground (arith, reached)) in
      record {
        in_time = rw (v.described running) in_time;
        valid = v.valid running;
        authorized = v.authorized running staged;
        running = running;
        awaited = staged;
        present = consumed;
        decrypted =
            open_vmk-Opened c.web_public_key (hkdf_salt c.descriptor) c.transcript nonce ciphertext
              tag c.transcript now_ms c.crypto
              (unfold complete in (rw (reached, consumed, same) at e));
        over =
            unfold complete in
            rw (
              reached,
              consumed,
              open_vmk-over c.web_public_key (hkdf_salt c.descriptor) c.transcript nonce ciphertext
                  tag c.transcript now_ms
                  (matches_attempt c.descriptor.attempt_id now_ms c.crypto).1,
            );
      }
