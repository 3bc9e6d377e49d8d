-- ===== src/Provisioning/Handler/Run.antt =====
-- Any messages and calls from a new handler on.
use m5authenticator.Prelude.{
  ℕ, ◌≡◌, sym, ◌∙◌, ◌⊎◌, inl, inr, Bool, false, List, [], ◌∷◌, Bool-cases, Bytes,
}
use m5authenticator.Session.Attempts
use m5authenticator.Session.Attempts.{new_coordinator}
use m5authenticator.Session.Attempts.Context.{PresenceBinding, blank_context}
use m5authenticator.Session.{trusted_browser_unlock}
use m5authenticator.Session.Attempts.Authorized
use m5authenticator.Session.Device.{Crypto, Draws}
use m5authenticator.Provisioning.Handler
use m5authenticator.Provisioning.Handler.Request.{Cjson}
use m5authenticator.Provisioning.Handler.Effect.{Inv, Installs, cancel_attempt-Effect, clear-Effect}
use m5authenticator.Provisioning.Handler.Coordinator.{expire-Inv, expire-context, expire-active}
use m5authenticator.Provisioning.Handler.Installs.{handle_line-Effect}
use m5authenticator.Provisioning.Handler.{cancel_attempt}
use m5authenticator.Provisioning.Handler.Responses.{Handler, Ports}
use m5authenticator.Provisioning.Handler.Lines.{handle_line}

pub data Call (K U W : Type 0) : Type 0 where
  lines : Draws K → Bytes → ℕ → Call K U W
  expires : ℕ → Call K U W
  disconnects : Call K U W
  -- What happens at the button and behind the ports in between.
  moves : (U → U) → Call K U W
  changes : (W → W) → Call K U W

unfoldable pub new_handler : {K U W : Type 0} → U → W → Handler K U W
new_handler u w = record {
  coordinator = (new_coordinator, u);
  context = blank_context trusted_browser_unlock;
  context_active = false;
  world = w;
}

module _ {K U W J : Type 0} (crypto : Crypto K) (import_public_key : Bytes → Bool)
    (presence : PresenceBinding U) (ports : Ports W) (json : Cjson J) where
  unfoldable pub step : Call K U W → Handler K U W → Handler K U W
  step (lines draws line now_ms) s =
      (handle_line crypto import_public_key presence ports json draws line now_ms s).1
  step (expires now_ms) s = (Handler.expire crypto import_public_key presence ports json now_ms s).1
  step disconnects s = cancel_attempt crypto import_public_key presence ports json s
  step (moves f) s = record s { coordinator = (s.coordinator.0, f s.coordinator.1) }
  step (changes f) s = record s { world = f s.world }

  unfoldable pub run : List (Call K U W) → Handler K U W → Handler K U W
  unfolding step
  run [] s = s
  run (a ∷ calls) s = run calls (step a s)

  new_handler-Inv :
      (u : U) (w : W) → Inv crypto import_public_key presence ports json (new_handler u w)
  unfolding new_handler
  new_handler-Inv u w = record {
    attempt = Authorized.new_coordinator-Inv crypto import_public_key presence;
    same = λ h k. cc;
  }

  handler_expire-Inv :
      (now_ms : ℕ) (s : Handler K U W)
      → Inv crypto import_public_key presence ports json s
      → Inv crypto import_public_key presence ports json
          (Handler.expire crypto import_public_key presence ports json now_ms s).1
  unfolding Handler.expire
  handler_expire-Inv now_ms s v =
      let x = Attempts.expire crypto import_public_key presence now_ms s.coordinator in
      let w =
        expire-Inv crypto import_public_key presence ports json now_ms s.coordinator v.attempt in
      elim (Bool-cases x.0) [
        | inl e ↦
            rw e (clear-Effect crypto import_public_key presence ports json now_ms s x.1 w).kept
        | inr e ↦ rw e (record {
          attempt = w;
          same = λ h k.
              expire-context crypto import_public_key presence ports json now_ms s.coordinator e
              ∙ v.same h (
                  sym (
                    expire-active crypto import_public_key presence ports json now_ms s.coordinator
                      e)
                  ∙ k);
        })
      ]

  step-Inv :
      (a : Call K U W) (s : Handler K U W)
      → Inv crypto import_public_key presence ports json s
      → Inv crypto import_public_key presence ports json (step a s)
  unfolding step
  step-Inv (lines draws line now_ms) s v =
      (handle_line-Effect crypto import_public_key presence ports json draws line now_ms s v).kept
  step-Inv (expires now_ms) s v = handler_expire-Inv now_ms s v
  step-Inv disconnects s v =
      (cancel_attempt-Effect crypto import_public_key presence ports json 0 s v).kept
  step-Inv (moves f) s v = record { attempt = v.attempt; same = v.same }
  step-Inv (changes f) s v = record { attempt = v.attempt; same = v.same }

  run-Inv :
      (calls : List (Call K U W)) (s : Handler K U W)
      → Inv crypto import_public_key presence ports json s
      → Inv crypto import_public_key presence ports json (run calls s)
  unfolding run
  run-Inv [] s v = v
  run-Inv (a ∷ calls) s v = run-Inv calls (step a s) (step-Inv a s v)

  -- Whatever the browser sent before, and whatever happened at the button and behind the ports: a
  -- message leaves the state behind the ports as it is, or the sink is given one key with one context.
  -- Then the attempt has delivered this key, in time, for the transcript of this context, signed
  -- where it has to be and with the presence confirmed, and this context matches the snapshot that the
  -- Device gives at that moment.
  pub run-handle_line-Installs :
      (calls : List (Call K U W)) (u : U) (w : W) (draws : Draws K) (line : Bytes) (now_ms : ℕ)
      → let s = run calls (new_handler u w) in
        let s' = (handle_line crypto import_public_key presence ports json draws line now_ms s).1 in
        (s'.world ≡ s.world)
        ⊎ Installs crypto import_public_key presence ports json now_ms s s'.world
  run-handle_line-Installs calls u w draws line now_ms =
      let s = run calls (new_handler u w) in
      (handle_line-Effect crypto import_public_key presence ports json draws line now_ms s
        (run-Inv calls (new_handler u w) (new_handler-Inv u w))).behind
