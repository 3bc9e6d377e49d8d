-- ===== src/VaultStore/Untouched.antt =====
-- The keys that a replacement leaves alone, and the branches of a replacement.
use m5authenticator.Prelude.{
  ℕ, ◌≡◌, refl, ap, ◌∙◌, ◌≢◌, inl, inr, Option, none, some, arith, ◌==◌, Bool-cases, Bytes,
}
use m5authenticator.Nvs.{Nvs, NvsLaws, SameAt}
use m5authenticator.Vault.{VaultEnvelope}
use m5authenticator.VaultRuntime.{Status, ok, is_ok}
use m5authenticator.VaultStore.{encode_envelope}
use m5authenticator.VaultStore.Atomic.{read_active-ne}
use m5authenticator.VaultStore.Pointer.{SameAt-trans, is_ok-eq}
use m5authenticator.VaultStore.Slots.{
  read_active, flip_active, stage, stage_next, replace_opened, write_status, refuse_failed,
}
use m5authenticator.VaultStore.Slots.Answers.{
  schema_key, last_used_key, active_slot_key, active, no_active, failed, VaultKey, slot_key, Active,
  next_slot,
}

-- The keys that a replacement does not write.
pub data Untouched : VaultKey → Type 0 where
  the_schema : Untouched schema_key
  the_last_used : Untouched last_used_key

pub Untouched-active_slot_key : {k : VaultKey} → Untouched k → k ≢ active_slot_key
Untouched-active_slot_key the_schema h = cc
Untouched-active_slot_key the_last_used h = cc

pub Untouched-slot_key : {k : VaultKey} (slot : ℕ) → Untouched k → k ≢ slot_key slot
Untouched-slot_key slot the_schema = elim (Bool-cases (slot == 0)) [
  | inl e ↦ rw e (λ h. cc)
  | inr e ↦ rw e (λ h. cc)
]
Untouched-slot_key slot the_last_used = elim (Bool-cases (slot == 0)) [
  | inl e ↦ rw e (λ h. cc)
  | inr e ↦ rw e (λ h. cc)
]

module _ {S : Type 0} (nvs : Nvs VaultKey S) (laws : NvsLaws nvs) where
  pub SameAt-refl : {s : S} (k : VaultKey) → SameAt nvs s s k
  SameAt-refl k = record { u8 = refl; u32 = refl; size = refl; blob = refl }

  flip_active-SameAt :
      (slot : ℕ) (s : S) (k : VaultKey)
      → k ≢ active_slot_key
      → SameAt nvs s (flip_active nvs slot s).1 k
  unfolding flip_active
  flip_active-SameAt slot s k ne =
      let s1 = (nvs.set_u8 active_slot_key slot s).1 in
      let a = laws.set_u8_keeps active_slot_key k slot s ne in
      ground (arith, a, SameAt-trans nvs k a (laws.commit_keeps s1 k))

  pub stage-SameAt :
      (slot : ℕ) (e : VaultEnvelope) (encoded : Bytes) (s : S) (k : VaultKey)
      → k ≢ active_slot_key
      → k ≢ slot_key slot
      → SameAt nvs s (stage nvs slot e encoded s).1 k
  unfolding stage
  stage-SameAt slot e encoded s k p q =
      let s1 = (nvs.set_blob (slot_key slot) encoded s).1 in
      let s2 = (nvs.commit s1).1 in
      let a = laws.set_blob_keeps (slot_key slot) k encoded s q in
      let b = SameAt-trans nvs k a (laws.commit_keeps s1 k) in
      ground (arith, a, b, SameAt-trans nvs k b (flip_active-SameAt slot s2 k p))

  stage_next-SameAt :
      (e : VaultEnvelope) (m : Option ℕ) (encoded : Option Bytes) (s : S) {k : VaultKey}
      → Untouched k
      → SameAt nvs s (stage_next nvs e m encoded s).1 k
  unfolding stage_next
  stage_next-SameAt e none encoded s {k} u = SameAt-refl k
  stage_next-SameAt e (some slot) none s {k} u = SameAt-refl k
  stage_next-SameAt e (some slot) (some encoded) s {k} u =
      stage-SameAt slot e encoded s k (Untouched-active_slot_key u) (Untouched-slot_key slot u)

  refuse_failed-cases :
      (P : Status × S → Type 0) (a : Active) (s : S) (written : Status × S)
      → ((status : Status) → a ≡ failed status → P (status, s))
      → P written
      → P (refuse_failed nvs a s written)
  refuse_failed-cases P (failed status) s written f w = f status refl
  refuse_failed-cases P no_active s written f w = w
  refuse_failed-cases P (active slot e) s written f w = w

  pub replace_opened-cases :
      (P : Status × S → Type 0) (generation : ℕ) (e : VaultEnvelope) (s : S)
      → ((status : Status) → status ≢ ok → P (status, s))
      → (write_status nvs s ≡ ok
          → P (stage_next nvs e (next_slot generation e (read_active nvs s)) (encode_envelope e) s))
      → P (replace_opened nvs generation e s)
  unfolding replace_opened
  replace_opened-cases P generation e s same staged =
      elim (Bool-cases (is_ok (write_status nvs s))) [
        | inl fine ↦ rw fine (
            refuse_failed-cases P (read_active nvs s) s _
              (λ status failed_eq.
                same status
                  λ status_ok. read_active-ne nvs laws s (failed_eq ∙ ap failed status_ok))
              (staged (is_ok-eq nvs laws (write_status nvs s) fine)))
        | inr bad ↦ rw bad (same (write_status nvs s) λ h. ground arith)
      ]

  replace_opened-SameAt :
      (generation : ℕ) (e : VaultEnvelope) (s : S) {k : VaultKey}
      → Untouched k
      → SameAt nvs s (replace_opened nvs generation e s).1 k
  replace_opened-SameAt generation e s {k} u =
      replace_opened-cases (λ r. SameAt nvs s r.1 k) generation e s (λ status ne. SameAt-refl k)
        (λ fine.
          stage_next-SameAt e (next_slot generation e (read_active nvs s)) (encode_envelope e) s u)
