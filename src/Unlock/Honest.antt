-- ===== src/Unlock/Honest.antt =====
-- An attempt whose two sides follow the protocol, with the display and a user who presses the button.
mod Tests
use m5authenticator.Prelude.{
  ℕ, ◌+◌, ◌≤◌, ◌<◌, ◌≡◌, refl, Bool, true, some, List, [], ◌∷◌, arith, Bytes, length, u64_max,
  saturating_deadline,
}
use m5authenticator.Presence.{
  PresenceOperation, attempt_ttl_ms, confirm_current, consume_confirmation,
}
use m5authenticator.Presence
use m5authenticator.Presence.Samples.{sampled, PressedNow, sampled-consume_confirmation}
use m5authenticator.Session.{presence_operation}
use m5authenticator.Session.Transcript.{IsInput}
use m5authenticator.Session.Device.{Crypto}
use m5authenticator.Session.Attempts.{context_valid, begin, authorize, complete}
use m5authenticator.Session.Attempts.Context.{AttemptCoordinator}
use m5authenticator.Session.Attempts.Honest.{
  CryptoLaws, Exchange, honest_draws, honest_input, web_seal, Signs,
}
use m5authenticator.Session.Attempts.Honest.Completes.{complete-web_seal, authorize_presence}
use m5authenticator.Ui.{
  UiModel, begin_unlock_request, cancel_unlock_request, hide_reveal, observe_primary_button_state,
  primary_button_pressed, consume_unlock_confirmation,
}
use m5authenticator.Unlock.{binding}

-- The display after samples of the button, newest first.
abbrev pub watched : List Bool → UiModel → UiModel
watched [] u = u
watched (pressed ∷ h) u = observe_primary_button_state pressed (watched h u)

watched_presence : (h : List Bool) (u : UiModel) → (watched h u).presence ≡ sampled h u.presence
unfolding observe_primary_button_state
watched_presence [] u = refl
watched_presence (pressed ∷ h) u = rw (watched_presence h u)

watched_generation :
    (h : List Bool) (u : UiModel)
    → (watched h u).button_press_generation ≡ u.button_press_generation
unfolding observe_primary_button_state
watched_generation [] u = refl
watched_generation (pressed ∷ h) u = watched_generation h u

pressed_presence :
    (now_ms : ℕ) (u : UiModel)
    → u.button_press_generation < u64_max
    → (primary_button_pressed now_ms u).1.presence
      ≡ (confirm_current now_ms (u.button_press_generation + 1) u.presence).0
unfolding primary_button_pressed confirm_current
pressed_presence now_ms u h = ground arith

asked :
    (operation : PresenceOperation) (id : Bytes) (now_ms : ℕ) (u : UiModel)
    → let (begun, u') = begin_unlock_request operation id now_ms u in
      (begun ≡ true)
      × (u'.presence ≡ Presence.begin operation id now_ms u.button_press_generation u.presence)
      × (u'.button_press_generation ≡ u.button_press_generation)
unfolding begin_unlock_request hide_reveal Presence.begin
asked operation id now_ms u = ground arith

saturating_deadline_mono :
    (a b : ℕ) → a ≤ b → saturating_deadline a attempt_ttl_ms ≤ saturating_deadline b attempt_ttl_ms
unfolding saturating_deadline
saturating_deadline_mono a b h = ground arith

-- The button is pressed in time and after two released samples in a row: the attempt consumes it.
pressed_consumed :
    (operation : PresenceOperation) (id : Bytes) (start press_ms complete_ms : ℕ) (h : List Bool)
    (u : UiModel)
    → u.button_press_generation < u64_max
    → PressedNow h
    → press_ms < saturating_deadline start attempt_ttl_ms
    → complete_ms < saturating_deadline start attempt_ttl_ms
    → (consume_unlock_confirmation id complete_ms
        (primary_button_pressed press_ms
          (watched h (begin_unlock_request operation id start u).1)).1).0
      ≡ true
unfolding consume_unlock_confirmation
pressed_consumed operation id start press_ms complete_ms h u g p a b =
    let v = (begin_unlock_request operation id start u).1 in
    let (begun, gate, same) = asked operation id start u in
    rw
      (
        pressed_presence press_ms (watched h v) (rw (watched_generation h v, same) g),
        watched_generation h v,
        watched_presence h v,
        gate,
        same,
      )
      (sampled-consume_confirmation operation id start u.button_press_generation u.presence h
        press_ms complete_ms (u.button_press_generation + 1) p a b (omega arith))

module _ {K : Type 0} {crypto : Crypto K} {import_public_key : Bytes → Bool}
    (laws : CryptoLaws crypto import_public_key) (x : Exchange K)
    (sizes : IsInput (honest_input laws x))
    (valid : context_valid import_public_key x.context ≡ true) where
  -- Two sides that follow the protocol get the key across, if the user presses the button. The key
  -- agreement gives both the same secret and the cipher opens what it sealed; the context is valid,
  -- the fields of the transcript have their sizes, and the browser signs the transcript where that
  -- is required. Then, whatever the coordinator and the display did before: the attempt begins, the
  -- browser's key authorizes it, samples of the button end in a press after two released ones in a
  -- row, the press itself follows, and `complete` gives the 32-byte key that the browser has
  -- sealed, if all this comes before the deadline of the attempt and the display has counted fewer
  -- than 2^64 - 1 presses.
  pub complete-pressed :
      (signature nonce vmk ciphertext tag : Bytes) (authorize_ms press_ms complete_ms : ℕ)
      (h : List Bool) (c : AttemptCoordinator K) (u : UiModel)
      → u.button_press_generation < u64_max
      → Signs laws x signature
      → web_seal laws x nonce vmk ≡ some (ciphertext, tag)
      → length nonce ≡ 12
      → length vmk ≡ 32
      → PressedNow h
      → x.begin_ms ≤ authorize_ms
      → authorize_ms < saturating_deadline x.begin_ms attempt_ttl_ms
      → press_ms < saturating_deadline x.begin_ms attempt_ttl_ms
      → complete_ms < saturating_deadline x.begin_ms attempt_ttl_ms
      → let begun =
          (begin crypto import_public_key binding
            (honest_draws laws x)
            x.context
            x.begin_ms
            (c, u)).1 in
        let y =
          (authorize crypto import_public_key binding
            (laws.public_key x.web_key)
            signature
            authorize_ms
            begun).1 in
        let pressed = (primary_button_pressed press_ms (watched h y.1)).1 in
        (complete crypto import_public_key binding nonce ciphertext tag complete_ms
          (y.0, pressed)).0
        ≡ some vmk
  complete-pressed signature nonce vmk ciphertext tag authorize_ms press_ms complete_ms h c u g s e
        n v p order a b d =
      let operation = presence_operation x.context.operation in
      let u0 = cancel_unlock_request u in
      let g0 : u0.button_press_generation < u64_max = unfold cancel_unlock_request in g in
      let mono = saturating_deadline_mono x.begin_ms authorize_ms order in
      let begun = (asked operation x.attempt_id authorize_ms u0).0 in
      let shown =
        authorize_presence binding laws x sizes valid signature authorize_ms c u s a begun in
      let consumed =
        pressed_consumed operation x.attempt_id authorize_ms press_ms complete_ms h u0 g0 p
          (omega arith) (omega arith) in
      (complete-web_seal binding laws x sizes valid signature nonce vmk ciphertext tag authorize_ms
        complete_ms c u _ s e n v a d begun (rw shown consumed)).2
