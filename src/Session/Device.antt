-- ===== src/Session/Device.antt =====
-- The class `DeviceSession` (session_crypto.cpp). What the cryptographic library computes is a parameter:
-- the random draws and the key pair are arguments of `begin`, a failed call gives none. The wiping of the
-- secrets that are computed on the way is left out.
use m5authenticator.Prelude.{
  ℕ, Bool, true, false, not, ◌&&◌, ◌||◌, Option, none, some, ltb, leb, ◌==◌, if◌then◌else◌, length,
  Bytes, replicate, is_empty, ◌>>=◌, ◌>>◌, guard, get_or,
}
use m5authenticator.Session.{p256_public_key_bytes}
use m5authenticator.Presence.{attempt_ttl_ms}
use m5authenticator.Prelude.{saturating_deadline, constant_time_equal}

abbrev pub session_key_bytes : ℕ
session_key_bytes = 32

abbrev pub session_nonce_bytes : ℕ
session_nonce_bytes = 12

abbrev pub session_tag_bytes : ℕ
session_tag_bytes = 16

abbrev pub brk_signature_bytes : ℕ
brk_signature_bytes = 64

abbrev pub max_hkdf_context_bytes : ℕ
max_hkdf_context_bytes = 4096

abbrev pub max_transcript_bytes : ℕ
max_transcript_bytes = 16384

pub record AttemptDescriptor : Type 0 where
  pub attempt_id : Bytes
  pub challenge : Bytes
  pub device_public_key : Bytes
  pub expires_at_ms : ℕ

-- `K` is the type of the library's private keys.
pub record Crypto (K : Type 0) : Type 0 where
  pub verify_brk : Bytes → Bytes → Bytes → Bool
  pub derive_shared : K → Bytes → Option Bytes
  pub derive_hkdf : Bytes → Bytes → Bytes → Option Bytes
  pub decrypt_vmk_gcm : Bytes → Bytes → Bytes → Bytes → Bytes → Option Bytes

-- The draws of an attempt id, of a challenge and of a key pair.
pub record Draws (K : Type 0) : Type 0 where
  pub attempt_id : Option Bytes
  pub challenge : Option Bytes
  pub key_pair : Option (K × Bytes)

-- `struct DeviceSession::Impl`.
pub record DeviceSession (K : Type 0) : Type 0 where
  pub attempt_id : Bytes
  pub challenge : Bytes
  pub device_public_key : Bytes
  pub expires_at_ms : ℕ
  pub active : Bool
  pub key : Option K

abbrev pub bounded_nonempty : Bytes → ℕ → Bool
bounded_nonempty value maximum = not (is_empty value) && leb (length value) maximum

module _ {K : Type 0} where
  -- Its initial values, and what `reset` leaves.
  abbrev pub reset : DeviceSession K
  reset = record {
    attempt_id = replicate 16 0;
    challenge = replicate 32 0;
    device_public_key = replicate 65 0;
    expires_at_ms = 0;
    active = false;
    key = none;
  }

  -- The three values, where every call worked and the public key has its form.
  unfoldable pub drawn : Draws K → Option (Bytes × Bytes × K × Bytes)
  drawn draws = draws.attempt_id >>= λ attempt_id. draws.challenge >>= λ challenge.
      draws.key_pair >>= λ (key, public_key).
      guard (length public_key == p256_public_key_bytes && get_or public_key 0 0 == 4)
      >> some (attempt_id, challenge, key, public_key)

  abbrev pub descriptor_of : DeviceSession K → AttemptDescriptor
  descriptor_of d = record {
    attempt_id = d.attempt_id;
    challenge = d.challenge;
    device_public_key = d.device_public_key;
    expires_at_ms = d.expires_at_ms;
  }

  -- The session that `begin` leaves; its result is whether that is active.
  unfoldable pub begin : Draws K → ℕ → DeviceSession K
  begin draws now_ms = elim (drawn draws) [
    | none ↦ reset
    | some (attempt_id, challenge, key, public_key) ↦ record {
      attempt_id = attempt_id;
      challenge = challenge;
      device_public_key = public_key;
      expires_at_ms = saturating_deadline now_ms attempt_ttl_ms;
      active = true;
      key = some key;
    }
  ]

  abbrev pub is_active : ℕ → DeviceSession K → Bool
  is_active now_ms d = d.active && ltb now_ms d.expires_at_ms

  unfoldable pub expire : ℕ → DeviceSession K → Bool × DeviceSession K
  expire now_ms d = if not d.active || ltb now_ms d.expires_at_ms then (false, d) else (true, reset)

  unfoldable pub matches_attempt : Bytes → ℕ → DeviceSession K → Bool × DeviceSession K
  matches_attempt attempt_id now_ms d =
      if not (is_active now_ms d)
      then (false, reset)
      else if not (constant_time_equal attempt_id d.attempt_id)
      then (false, reset)
      else (true, d)

  module _ (crypto : Crypto K) where
    unfoldable pub verify_brk_signature :
        Bytes → Bytes → Bytes → ℕ → DeviceSession K → Bool × DeviceSession K
    verify_brk_signature brk_public_key transcript signature now_ms d =
        if not (is_active now_ms d)
          || not (length brk_public_key == p256_public_key_bytes)
          || not (get_or brk_public_key 0 0 == 4)
          || not (bounded_nonempty transcript max_transcript_bytes)
          || not (length signature == brk_signature_bytes)
          || not (crypto.verify_brk brk_public_key transcript signature)
        then (false, reset)
        else (true, d)

    -- The key agreement, the derivation of the key and the decryption.
    unfoldable pub decrypt :
        Option K → Bytes → Bytes → Bytes → Bytes → Bytes → Bytes → Bytes → Option Bytes
    decrypt key web_public_key salt info nonce ciphertext tag aad = key >>= λ key.
        crypto.derive_shared key web_public_key >>= λ shared_secret.
        crypto.derive_hkdf shared_secret salt info >>= λ session_key.
        crypto.decrypt_vmk_gcm session_key nonce ciphertext tag aad

    -- The session is over, whatever comes out.
    unfoldable pub open_vmk :
        Bytes
        → Bytes
        → Bytes
        → Bytes
        → Bytes
        → Bytes
        → Bytes
        → ℕ
        → DeviceSession K
        → Option Bytes × DeviceSession K
    open_vmk web_public_key salt info nonce ciphertext tag aad now_ms d =
        let opened = decrypt d.key web_public_key salt info nonce ciphertext tag aad in
        if not (is_active now_ms d)
          || not (length web_public_key == p256_public_key_bytes)
          || not (get_or web_public_key 0 0 == 4)
          || not (bounded_nonempty salt max_hkdf_context_bytes)
          || not (bounded_nonempty info max_hkdf_context_bytes)
          || not (length nonce == session_nonce_bytes)
          || not (length ciphertext == session_key_bytes)
          || not (length tag == session_tag_bytes)
          || not (bounded_nonempty aad max_transcript_bytes)
        then (none, reset)
        else (opened, reset)
