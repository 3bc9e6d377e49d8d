-- ===== src/Provisioning/Handler/Messages.antt =====
-- What each message of an attempt does behind the ports.
use m5authenticator.Prelude.{
  ℕ, ◌≡◌, refl, sym, ap, ◌∙◌, ◌⊎◌, inl, inr, Bool, true, false, Option, none, some, arith,
  Bool-cases, Bytes,
}
use m5authenticator.Session.Attempts
use m5authenticator.Session.Attempts.{new_coordinator}
use m5authenticator.Session.Attempts.Context.{BeginContext, PresenceBinding}
use m5authenticator.Session.Attempts.Delivery.{complete-Delivered}
use m5authenticator.Session.Device.{Crypto}
use m5authenticator.Provisioning.Binding.{
  SessionV2DeviceSnapshot, session_v2_begin_matches_snapshot,
}
use m5authenticator.Provisioning.Handler.Request.{Cjson}
use m5authenticator.Provisioning.Handler.Effect.{
  Inv, Effect, clear-Effect, fail_closed-Effect, for_attempt-Effect, cancel_attempt-Effect,
}
use m5authenticator.Provisioning.Handler.Coordinator.{
  authorize-Inv, expire-Inv, authorize-context, expire-context, complete-Inv,
}
use m5authenticator.Provisioning.Handler.{
  matches, current_binding_matches, deliver, authorize_with, report_status, clear_context,
  complete_with, with_coordinator, complete_parsed, authorize_parsed, cancel_parsed,
}
use m5authenticator.Provisioning.Handler.Responses.{Ports, Handler, invalid_request, stale_attempt}

module _ {K U W J : Type 0} (crypto : Crypto K) (import_public_key : Bytes → Bool)
    (presence : PresenceBinding U) (ports : Ports W) (json : Cjson J) where
  pub authorize_with-Effect :
      (id now_ms : ℕ) (key signature : Bytes) (s : Handler K U W)
      → Inv crypto import_public_key presence ports json s
      → s.context_active ≡ true
      → s.coordinator.0.active ≡ true
      → Effect crypto import_public_key presence ports json now_ms s
          (authorize_with crypto import_public_key presence ports json id now_ms key signature s).1
  authorize_with-Effect id now_ms key signature s v active live =
      let x =
        Attempts.authorize crypto import_public_key presence key signature now_ms s.coordinator in
      let w =
        authorize-Inv crypto import_public_key presence ports json key signature now_ms
          s.coordinator v.attempt in
      elim (Bool-cases x.0) [
        | inr e ↦ rw e (clear-Effect crypto import_public_key presence ports json now_ms s x.1 w)
        | inl e ↦ rw e (record {
          kept = record {
            attempt = w;
            same = λ h k.
                authorize-context crypto import_public_key presence ports json key signature now_ms
                  s.coordinator e
                ∙ v.same active live;
          };
          behind = inl refl;
        })
      ]

  pub report_status-Effect :
      (id now_ms : ℕ) (s : Handler K U W)
      → Inv crypto import_public_key presence ports json s
      → s.context_active ≡ true
      → s.coordinator.0.active ≡ true
      → Effect crypto import_public_key presence ports json now_ms s
          (report_status crypto import_public_key presence ports json id now_ms s).1
  report_status-Effect id now_ms s v active live =
      let x = Attempts.expire crypto import_public_key presence now_ms s.coordinator in
      let w =
        expire-Inv crypto import_public_key presence ports json now_ms s.coordinator v.attempt in
      elim (Bool-cases x.0) [
        | inl e ↦ rw e (clear-Effect crypto import_public_key presence ports json now_ms s x.1 w)
        | inr e ↦ rw e (record {
          kept = record {
            attempt = w;
            same = λ h k.
                expire-context crypto import_public_key presence ports json now_ms s.coordinator e
                ∙ v.same active live;
          };
          behind = inl refl;
        })
      ]

  pub matches-snapshot :
      (c : BeginContext) (m : Option SessionV2DeviceSnapshot)
      → matches crypto import_public_key presence ports json c m ≡ true
      → (snapshot : SessionV2DeviceSnapshot) × (m ≡ some snapshot)
        × (session_v2_begin_matches_snapshot c snapshot ≡ true)
  matches-snapshot c none h = cc
  matches-snapshot c (some snapshot) h = (snapshot, refl, h)

  pub current_binding-snapshot :
      (s : Handler K U W)
      → current_binding_matches crypto import_public_key presence ports json s ≡ true
      → (snapshot : SessionV2DeviceSnapshot) × (ports.snapshot s.world ≡ some snapshot)
        × (session_v2_begin_matches_snapshot s.context snapshot ≡ true)
  unfolding current_binding_matches
  current_binding-snapshot s h = matches-snapshot s.context (ports.snapshot s.world) (ground arith)

  pub deliver-behind :
      (id : ℕ) (m : Option Bytes) (s : Handler K U W)
      → let s' = (deliver crypto import_public_key presence ports json id m s).1 in
        (s'.context_active ≡ false)
        × (s'.coordinator ≡ s.coordinator)
        × ((s'.world ≡ s.world)
            ⊎ ((vmk : Bytes) × (m ≡ some vmk)
                × (current_binding_matches crypto import_public_key presence ports json s ≡ true)
                × (s'.world ≡ (ports.install_vmk s.context vmk s.world).1)))
  unfolding deliver clear_context
  deliver-behind id none s = (refl, refl, inl refl)
  deliver-behind id (some vmk) s =
      elim (Bool-cases (current_binding_matches crypto import_public_key presence ports json s)) [
        | inr e ↦ rw e (refl, refl, inl refl)
        | inl e ↦ elim (Bool-cases (ports.install_vmk s.context vmk s.world).0) [
          | inl done ↦ rw (e, done) (refl, refl, inr (vmk, refl, refl, refl))
          | inr refused ↦ rw (e, refused) (refl, refl, inr (vmk, refl, refl, refl))
        ]
      ]

  pub complete_with-Effect :
      (id now_ms : ℕ) (nonce ciphertext tag : Bytes) (s : Handler K U W)
      → Inv crypto import_public_key presence ports json s
      → s.context_active ≡ true
      → s.coordinator.0.active ≡ true
      → Effect crypto import_public_key presence ports json now_ms s
          (complete_with crypto import_public_key presence ports json id now_ms nonce ciphertext tag
            s).1
  complete_with-Effect id now_ms nonce ciphertext tag s v active live =
      let x =
        Attempts.complete crypto import_public_key presence nonce ciphertext tag now_ms
          s.coordinator in
      let (over, same, behind) = deliver-behind id x.0 (with_coordinator x.1 s) in
      record {
        kept = record {
          attempt = rw same (
              complete-Inv crypto import_public_key presence ports json nonce ciphertext tag now_ms
                s.coordinator v.attempt);
          same = λ h k. absurd (ground (arith, over, h));
        };
        behind = elim behind [
          | inl e ↦ inl e
          | inr (vmk, opened, fits, installed) ↦
              let (snapshot, current, bound) =
                current_binding-snapshot (with_coordinator x.1 s) fits in
              let context = v.same active live in
              inr (record {
                vmk = vmk;
                nonce = nonce;
                ciphertext = ciphertext;
                tag = tag;
                left = x.1;
                delivered =
                    complete-Delivered crypto import_public_key presence nonce ciphertext tag now_ms
                      s.coordinator.0 s.coordinator.1 v.attempt opened;
                snapshot = snapshot;
                current = current;
                bound = ap (λ c. session_v2_begin_matches_snapshot c snapshot) context ∙ bound;
                installed = installed ∙ ap (λ c. (ports.install_vmk c vmk s.world).1) (sym context);
              })
        ];
      }

  pub complete_parsed-Effect :
      (id now_ms : ℕ) (m : Option (Bytes × Bytes × Bytes × Bytes)) (s : Handler K U W)
      → Inv crypto import_public_key presence ports json s
      → Effect crypto import_public_key presence ports json now_ms s
          (complete_parsed crypto import_public_key presence ports json id now_ms m s).1
  complete_parsed-Effect id now_ms none s v =
      fail_closed-Effect crypto import_public_key presence ports json id invalid_request now_ms s v
  complete_parsed-Effect id now_ms (some (attempt, nonce, ciphertext, tag)) s v =
      for_attempt-Effect crypto import_public_key presence ports json id now_ms (some attempt)
        (complete_with crypto import_public_key presence ports json id now_ms nonce ciphertext tag)
        s v (complete_with-Effect id now_ms nonce ciphertext tag s v)

  pub authorize_parsed-Effect :
      (id now_ms : ℕ) (m : Option (Bytes × Bytes × Bytes)) (s : Handler K U W)
      → Inv crypto import_public_key presence ports json s
      → Effect crypto import_public_key presence ports json now_ms s
          (authorize_parsed crypto import_public_key presence ports json id now_ms m s).1
  authorize_parsed-Effect id now_ms none s v =
      fail_closed-Effect crypto import_public_key presence ports json id invalid_request now_ms s v
  authorize_parsed-Effect id now_ms (some (attempt, web_public, signature)) s v =
      for_attempt-Effect crypto import_public_key presence ports json id now_ms (some attempt)
        (authorize_with crypto import_public_key presence ports json id now_ms web_public signature)
        s v (authorize_with-Effect id now_ms web_public signature s v)

  pub cancel_parsed-Effect :
      (id now_ms : ℕ) (m : Option Bytes) (s : Handler K U W)
      → Inv crypto import_public_key presence ports json s
      → Effect crypto import_public_key presence ports json now_ms s
          (cancel_parsed crypto import_public_key presence ports json id m s).1
  cancel_parsed-Effect id now_ms none s v =
      fail_closed-Effect crypto import_public_key presence ports json id invalid_request now_ms s v
  cancel_parsed-Effect id now_ms (some attempt) s v = ground (
    arith,
    clear-Effect crypto import_public_key presence ports json now_ms s s.coordinator v.attempt,
    fail_closed-Effect crypto import_public_key presence ports json id stale_attempt now_ms s v,
    cancel_attempt-Effect crypto import_public_key presence ports json now_ms s v,
  )
