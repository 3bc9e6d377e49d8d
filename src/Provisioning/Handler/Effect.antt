-- ===== src/Provisioning/Handler/Effect.antt =====
-- What the calls that the messages make of the coordinator leave, for the messages of a browser.
use m5authenticator.Prelude.{
  ℕ, ◌≡◌, refl, ◌⊎◌, inl, inr, Bool, true, false, Option, none, some, arith, Bool-cases,
  Option-cases, Bytes,
}
use m5authenticator.Session.Attempts
use m5authenticator.Session.Attempts.{new_coordinator}
use m5authenticator.Session.Attempts.Context.{BeginContext, AttemptCoordinator, PresenceBinding}
use m5authenticator.Session.Attempts.Authorized
use m5authenticator.Session.Attempts.Delivery.{Delivered}
use m5authenticator.Session.Device.{Crypto, Draws, AttemptDescriptor}
use m5authenticator.Provisioning.Binding.{
  SessionV2DeviceSnapshot, session_v2_begin_matches_snapshot,
}
use m5authenticator.Provisioning.Handler.Request.{Cjson, parse_begin_context}
use m5authenticator.Provisioning.Handler.{
  cancel_attempt, clear_context, with_coordinator, begin_coordinator, begin_bound, begin_parsed,
  handle_begin, fail_closed, current_attempt, for_attempt, current_binding_matches,
}
use m5authenticator.Provisioning.Handler.Responses.{
  Ports, Handler, Response, ErrorCode, invalid_request, stale_attempt, binding_mismatch,
}

module _ {K U W J : Type 0} (crypto : Crypto K) (import_public_key : Bytes → Bool)
    (presence : PresenceBinding U) (ports : Ports W) (json : Cjson J) where
  -- The invariant of the coordinator, whose context is that of the handler.
  pub record Inv (s : Handler K U W) : Type 0 where
    pub attempt : Authorized.Inv crypto import_public_key presence s.coordinator.0
    pub same :
        s.context_active ≡ true
        → s.coordinator.0.active ≡ true
        → s.coordinator.0.context ≡ s.context

  -- The key reached the sink: it was delivered by the coordinator for the context that is handed on
  -- with it, and that context matches the Device.
  pub record Installs (now_ms : ℕ) (s : Handler K U W) (w : W) : Type 0 where
    pub vmk : Bytes
    pub nonce : Bytes
    pub ciphertext : Bytes
    pub tag : Bytes
    pub left : AttemptCoordinator K × U
    pub delivered :
        Delivered crypto import_public_key presence s.coordinator.0 s.coordinator.1 nonce ciphertext
          tag now_ms vmk left
    pub snapshot : SessionV2DeviceSnapshot
    pub current : ports.snapshot s.world ≡ some snapshot
    pub bound : session_v2_begin_matches_snapshot s.coordinator.0.context snapshot ≡ true
    pub installed : w ≡ (ports.install_vmk s.coordinator.0.context vmk s.world).1

  -- The invariant is kept, and the state behind the ports changes only by an installation.
  pub record Effect (now_ms : ℕ) (s s' : Handler K U W) : Type 0 where
    pub kept : Inv s'
    pub behind : (s'.world ≡ s.world) ⊎ Installs now_ms s s'.world

  pub cancel-Inv :
      (x : AttemptCoordinator K × U)
      → Authorized.Inv crypto import_public_key presence x.0
      → Authorized.Inv crypto import_public_key presence
          (Attempts.cancel crypto import_public_key presence x).0
  cancel-Inv x v =
      unfold Authorized.step in
      Authorized.step-Inv crypto import_public_key presence Authorized.cancels x.0 x.1 v

  pub cancel_attempt-Effect :
      (now_ms : ℕ) (s : Handler K U W)
      → Inv s
      → Effect now_ms s (cancel_attempt crypto import_public_key presence ports json s)
  unfolding cancel_attempt clear_context
  cancel_attempt-Effect now_ms s v = record {
    kept = record { attempt = cancel-Inv s.coordinator v.attempt; same = λ h k. cc };
    behind = inl refl;
  }

  pub clear-Effect :
      (now_ms : ℕ) (s : Handler K U W) (x : AttemptCoordinator K × U)
      → Authorized.Inv crypto import_public_key presence x.0
      → Effect now_ms s (clear_context (with_coordinator x s))
  unfolding clear_context
  clear-Effect now_ms s x v = record {
    kept = record { attempt = v; same = λ h k. cc };
    behind = inl refl;
  }

  begin-inactive :
      (draws : Draws K) (c : BeginContext) (now_ms : ℕ) (x : AttemptCoordinator K × U)
      → (Attempts.begin crypto import_public_key presence draws c now_ms x).0 ≡ none
      → (Attempts.begin crypto import_public_key presence draws c now_ms x).1.0.active ≡ false
  unfolding Attempts.begin Attempts.cancel Attempts.wipe_staged
  begin-inactive draws c now_ms x h = ground arith

  begin-context :
      (draws : Draws K) (c : BeginContext) (now_ms : ℕ) (x : AttemptCoordinator K × U)
      (d : AttemptDescriptor)
      → (Attempts.begin crypto import_public_key presence draws c now_ms x).0 ≡ some d
      → (Attempts.begin crypto import_public_key presence draws c now_ms x).1.0.context ≡ c
  unfolding Attempts.begin Attempts.cancel Attempts.wipe_staged
  begin-context draws c now_ms x d h = ground arith

  begin-Inv :
      (draws : Draws K) (c : BeginContext) (now_ms : ℕ) (x : AttemptCoordinator K × U)
      → Authorized.Inv crypto import_public_key presence x.0
      → Authorized.Inv crypto import_public_key presence
          (Attempts.begin crypto import_public_key presence draws c now_ms x).1.0
  begin-Inv draws c now_ms x v =
      unfold Authorized.step in
      Authorized.step-Inv crypto import_public_key presence (Authorized.begins draws c now_ms) x.0
        x.1 v

  pub begin_coordinator-Effect :
      (draws : Draws K) (id now_ms : ℕ) (c : BeginContext) (s : Handler K U W)
      → Inv s
      → Effect now_ms s
          (begin_coordinator crypto import_public_key presence ports json draws id now_ms c s).1
  begin_coordinator-Effect draws id now_ms c s v =
      let x = Attempts.begin crypto import_public_key presence draws c now_ms s.coordinator in
      let w = begin-Inv draws c now_ms s.coordinator v.attempt in
      elim (Option-cases x.0) [
        | inl e ↦ rw e (record {
          kept = record {
            attempt = w;
            same = λ h k. absurd (ground (arith, begin-inactive draws c now_ms s.coordinator e));
          };
          behind = inl refl;
        })
        | inr (d, e) ↦ rw e (record {
          kept = record {
            attempt = w;
            same = λ h k. begin-context draws c now_ms s.coordinator d e;
          };
          behind = inl refl;
        })
      ]

  pub Effect-same : (now_ms : ℕ) (s : Handler K U W) → Inv s → Effect now_ms s s
  Effect-same now_ms s v = record { kept = v; behind = inl refl }

  -- A call on the cancelled attempt changes nothing behind the ports either.
  pub Effect-cancelled :
      (now_ms : ℕ) (s s' : Handler K U W) → s'.world ≡ s.world → Inv s' → Effect now_ms s s'
  Effect-cancelled now_ms s s' e v = record { kept = v; behind = inl e }

  begin_bound-Effect :
      (draws : Draws K) (id now_ms : ℕ) (c : BeginContext) (m : Option SessionV2DeviceSnapshot)
      (s : Handler K U W)
      → Inv s
      → Effect now_ms s
          (begin_bound crypto import_public_key presence ports json draws id now_ms c m s).1
  begin_bound-Effect draws id now_ms c none s v = Effect-same now_ms s v
  begin_bound-Effect draws id now_ms c (some snapshot) s v =
      elim (Bool-cases (session_v2_begin_matches_snapshot c snapshot)) [
        | inl e ↦ rw e (begin_coordinator-Effect draws id now_ms c s v)
        | inr e ↦ rw e (Effect-same now_ms s v)
      ]

  begin_parsed-Effect :
      (draws : Draws K) (id now_ms : ℕ) (m : Option BeginContext) (s : Handler K U W)
      → Inv s
      → Effect now_ms s
          (begin_parsed crypto import_public_key presence ports json draws id now_ms m s).1
  begin_parsed-Effect draws id now_ms none s v = Effect-same now_ms s v
  begin_parsed-Effect draws id now_ms (some c) s v =
      begin_bound-Effect draws id now_ms c (ports.snapshot s.world) s v

  begin-world :
      (draws : Draws K) (id : ℕ) (params : J) (now_ms : ℕ) (s : Handler K U W)
      → (handle_begin crypto import_public_key presence ports json draws id params now_ms s).1.world
        ≡ s.world
  unfolding handle_begin cancel_attempt clear_context
  begin-world draws id params now_ms s = ground arith

  pub handle_begin-Effect :
      (draws : Draws K) (id : ℕ) (params : J) (now_ms : ℕ) (s : Handler K U W)
      → Inv s
      → Effect now_ms s
          (handle_begin crypto import_public_key presence ports json draws id params now_ms s).1
  handle_begin-Effect draws id params now_ms s v =
      Effect-cancelled now_ms s _ (begin-world draws id params now_ms s) (
        unfold handle_begin in
        (begin_parsed-Effect draws id now_ms (parse_begin_context json params)
          (cancel_attempt crypto import_public_key presence ports json s)
          (cancel_attempt-Effect now_ms s v).kept).kept)

  pub fail_closed-Effect :
      (id : ℕ) (code : ErrorCode) (now_ms : ℕ) (s : Handler K U W)
      → Inv s
      → Effect now_ms s (fail_closed crypto import_public_key presence ports json id code s).1
  unfolding fail_closed
  fail_closed-Effect id code now_ms s v = cancel_attempt-Effect now_ms s v

  current_attempt-active :
      (attempt : Bytes) (s : Handler K U W)
      → current_attempt attempt s ≡ true
      → (s.context_active ≡ true) × (s.coordinator.0.active ≡ true)
  unfolding current_attempt
  current_attempt-active attempt s e = ground arith

  -- What follows the checks of the attempt is called in a state where the binding matches.
  pub for_attempt-Effect :
      (id now_ms : ℕ) (m : Option Bytes) (f : Handler K U W → Response × Handler K U W)
      (s : Handler K U W)
      → Inv s
      → (s.context_active ≡ true → s.coordinator.0.active ≡ true → Effect now_ms s (f s).1)
      → Effect now_ms s (for_attempt crypto import_public_key presence ports json id m f s).1
  for_attempt-Effect id now_ms none f s v k = fail_closed-Effect id invalid_request now_ms s v
  for_attempt-Effect id now_ms (some attempt) f s v k =
      elim (Bool-cases (current_attempt attempt s)) [
        | inr e ↦ rw e (fail_closed-Effect id stale_attempt now_ms s v)
        | inl e ↦
            elim (Bool-cases
              (current_binding_matches crypto import_public_key presence ports json s)) [
                | inr bad ↦ rw (e, bad) (fail_closed-Effect id binding_mismatch now_ms s v)
                | inl fine ↦
                    let (active, live) = current_attempt-active attempt s e in
                    rw (e, fine) (k active live)
              ]
      ]
