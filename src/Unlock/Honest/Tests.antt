-- ===== src/Unlock/Honest/Tests.antt =====
-- An attempt of two sides that follow the protocol, with a toy of the cryptography.
use m5authenticator.Prelude.{
  ℕ, ◌+◌, ◌<◌, ◌≡◌, refl, Bool, true, false, some, none, List, [], ◌∷◌, arith, if◌then◌else◌, Bytes,
  replicate, get_or, bytes_eq, bytes_eq_iff, all_zero, saturating_deadline,
}
use m5authenticator.Presence.Gesture.{Released}
use m5authenticator.Presence.Samples.{PressedNow}
use m5authenticator.Session.{valid_p256_public_key, valid_optional_p256_identity}
use m5authenticator.Session.Transcript.{IsInput}
use m5authenticator.Session.Device.{Crypto}
use m5authenticator.Session.Attempts.{context_valid, begin, authorize, complete, new_coordinator}
use m5authenticator.Session.Attempts.Context.{context_fits, brk_signature_required}
use m5authenticator.Session.Attempts.Honest.{
  CryptoLaws, Exchange, honest_draws, honest_input, web_seal, Signs,
}
use m5authenticator.Session.Tests.{any_key, context}
use m5authenticator.Ui.{new_ui, primary_button_pressed}
use m5authenticator.Unlock.{binding}
use m5authenticator.Unlock.Honest.{watched, complete-pressed}

-- The agreed secret is the sum of the two keys, and a tag repeats it.
abbrev toy : Crypto ℕ
toy = record {
  verify_brk = λ key transcript signature. bytes_eq signature (replicate 64 (get_or key 64 0));
  derive_shared = λ key public_key. some ((key + get_or public_key 1 0) ∷ []);
  derive_hkdf = λ shared salt info. some shared;
  decrypt_vmk_gcm = λ key nonce ciphertext tag aad.
      if bytes_eq tag (replicate 16 (get_or key 0 0)) then some ciphertext else none;
}

toy_well_formed : (a : ℕ) → valid_p256_public_key any_key (4 ∷ replicate 64 a) ≡ true
unfolding valid_p256_public_key
toy_well_formed a = refl

toy_opened :
    (key nonce vmk aad : Bytes)
    → toy.decrypt_vmk_gcm key nonce vmk (replicate 16 (get_or key 0 0)) aad ≡ some vmk
toy_opened key nonce vmk aad =
    let tag : Bytes = replicate 16 (get_or key 0 0) in rw ((bytes_eq_iff tag tag).1 refl) refl

toy_agreement : (a b : ℕ) → some ((a + b) ∷ []) ≡ some ((b + a) ∷ [])
toy_agreement a b = ground arith

abbrev toy-CryptoLaws : CryptoLaws toy any_key
toy-CryptoLaws = record {
  public_key = λ a. 4 ∷ replicate 64 a;
  encrypt_vmk_gcm = λ key nonce vmk aad. (vmk, replicate 16 (get_or key 0 0));
  well_formed = toy_well_formed;
  agreement = toy_agreement;
  sealed_sizes = λ key nonce vmk aad. (refl, refl);
  opened = toy_opened;
}

abbrev exchange : Exchange ℕ
exchange = record {
  context = context;
  attempt_id = replicate 16 7;
  challenge = replicate 32 8;
  device_key = 42;
  web_key = 13;
  begin_ms = 10;
}

exchange-IsInput : IsInput (honest_input toy-CryptoLaws exchange)
exchange-IsInput = record {
  vault_id_size = refl;
  generation_fits = ground arith;
  registration_id_size = refl;
  epoch_fits = ground arith;
  attempt_id_size = refl;
  challenge_size = refl;
  device_key_size = refl;
  web_key_size = refl;
  current_key_size = refl;
  proposed_key_size = refl;
}

exchange_valid : context_valid any_key exchange.context ≡ true
unfolding context_valid context_fits valid_optional_p256_identity valid_p256_public_key all_zero
exchange_valid = refl

abbrev signature : Bytes
signature = replicate 64 3

signature-Signs : Signs toy-CryptoLaws exchange signature
unfolding brk_signature_required bytes_eq
signature-Signs = record { signed = λ e. (refl, refl); unsigned = λ e. cc }

seals :
    web_seal toy-CryptoLaws exchange (replicate 12 0) (replicate 32 4)
    ≡ some (replicate 32 4, replicate 16 55)
unfolding web_seal
seals = refl

abbrev samples : List Bool
samples = true ∷ false ∷ false ∷ []

samples-PressedNow : PressedNow samples
samples-PressedNow = (refl, Released.now [])

before_deadline : (now_ms : ℕ) → now_ms < 30_010 → now_ms < saturating_deadline 10 30_000
unfolding saturating_deadline
before_deadline now_ms h = ground arith

complete-pressed_example :
    let begun =
      (begin toy any_key binding
        (honest_draws toy-CryptoLaws exchange)
        context
        10
        (new_coordinator, new_ui)).1 in
    let y = (authorize toy any_key binding (4 ∷ replicate 64 13) signature 20 begun).1 in
    let pressed = (primary_button_pressed 30 (watched samples y.1)).1 in
    (complete toy any_key binding
      (replicate 12 0)
      (replicate 32 4)
      (replicate 16 55)
      40
      (y.0, pressed)).0
    ≡ some (replicate 32 4)
complete-pressed_example =
    complete-pressed toy-CryptoLaws exchange exchange-IsInput exchange_valid signature
      (replicate 12 0) (replicate 32 4) (replicate 32 4) (replicate 16 55) 20 30 40 samples
      new_coordinator new_ui (omega arith) signature-Signs seals refl refl samples-PressedNow
      (omega arith) (before_deadline 20 (omega arith)) (before_deadline 30 (omega arith))
      (before_deadline 40 (omega arith))
