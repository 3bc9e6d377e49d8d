-- ===== src/Provisioning.antt =====
-- firmware/components/m5auth_provisioning: the decisions on a destructive reset.
pub mod Recovery
pub mod Binding
pub mod Sink
pub mod Handler
pub mod Canonical
pub mod Opening
mod Tests
-- factory_reset_authorization.hpp: the one attempt of a factory reset that may be committed.
use m5authenticator.Prelude.{
  ℕ, ◌<◌, ◌≡◌, ◌↔◌, Bool, true, false, not, List, [], ◌∷◌, arith, leb, if◌then◌else◌, Bytes,
  replicate,
}
use m5authenticator.Presence.{attempt_ttl_ms}
use m5authenticator.Prelude.{constant_time_equal_iff, constant_time_equal, saturating_deadline}

pub data Check : Type 0 where
  ok inactive mismatch expired : Check

pub record FactoryResetAuthorization : Type 0 where
  pub attempt_id : Bytes
  pub deadline_ms : ℕ
  pub active : Bool

unfoldable pub begin : Bytes → ℕ → FactoryResetAuthorization → FactoryResetAuthorization
begin attempt_id now_ms a = record {
  attempt_id = attempt_id;
  deadline_ms = saturating_deadline now_ms attempt_ttl_ms;
  active = true;
}

unfoldable pub check : Bytes → ℕ → FactoryResetAuthorization → Check
check attempt_id now_ms a =
    if not a.active
    then inactive
    else if not (constant_time_equal attempt_id a.attempt_id)
    then mismatch
    else if leb a.deadline_ms now_ms
    then expired
    else ok

-- `cancel`, which `consume` calls.
abbrev pub cancel : FactoryResetAuthorization → FactoryResetAuthorization
cancel a = record { attempt_id = replicate 16 0; deadline_ms = 0; active = false }

pub data Call : Type 0 where
  begins : Bytes → ℕ → Call
  cancels : Call

unfoldable pub apply : Call → FactoryResetAuthorization → FactoryResetAuthorization
apply (begins id now_ms) a = begin id now_ms a
apply cancels a = cancel a

-- The calls newest first, from a new authorization.
unfoldable pub after : List Call → FactoryResetAuthorization
after [] = record { attempt_id = replicate 16 0; deadline_ms = 0; active = false }
after (c ∷ h) = apply c (after h)

-- The last call began that attempt, and its deadline has not come.
abbrev pub Begun : Bytes → ℕ → List Call → Type 0
Begun id now_ms [] = ⊥
Begun id now_ms (cancels ∷ h) = ⊥
Begun id now_ms (begins attempt_id start ∷ h) =
    (id ≡ attempt_id) × (now_ms < saturating_deadline start attempt_ttl_ms)

-- After any calls of a new authorization, the check of an attempt id is passed exactly when the last
-- call began the attempt of that id and its deadline has not come.
pub check-Begun :
    (h : List Call) (id : Bytes) (now_ms : ℕ) → (check id now_ms (after h) ≡ ok) ↔ Begun id now_ms h
unfolding check after apply begin
check-Begun [] id now_ms = (λ e. ground arith, λ e. absurd e)
check-Begun (cancels ∷ h) id now_ms = (λ e. ground arith, λ e. absurd e)
check-Begun (begins attempt_id start ∷ h) id now_ms = (
  λ e. ground (arith, constant_time_equal_iff id attempt_id),
  λ e. ground (arith, constant_time_equal_iff id attempt_id),
)
