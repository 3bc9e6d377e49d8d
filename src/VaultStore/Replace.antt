-- ===== src/VaultStore/Replace.antt =====
-- What a replacement does to what the next start loads.
use m5authenticator.Prelude.{
  ℕ, ◌+◌, ◌≡◌, refl, sym, ◌∙◌, ◌≢◌, ◌⊎◌, inl, inr, false, Option, none, some, arith, Bool-cases,
  Bytes, bytes_eq_iff,
}
use m5authenticator.Nvs.{Nvs, NvsLaws, SameAt, readwrite, EspErr, is_esp_ok}
use m5authenticator.Vault.{VaultEnvelope}
use m5authenticator.VaultRuntime.{Status, ok, PersistedSnapshot}
use m5authenticator.VaultStore.{encode_envelope, valid_envelope}
use m5authenticator.VaultStore.Atomic.{stage-cases, stage_done, next_slot-Free}
use m5authenticator.VaultStore.Pointer.{SameAt-trans, read_active-SameAt}
use m5authenticator.VaultStore.Slots.{
  read_active, stage, stage_next, replace_opened, replace_envelope, load_opened, load_vault,
  read_last_used, write_status,
}
use m5authenticator.VaultStore.Slots.Answers.{
  schema_key, last_used_key, active_slot_key, active, no_active, failed, VaultKey, slot_key, Active,
  next_slot, schema_status, load_schema, map_error,
}
use m5authenticator.VaultStore.Untouched.{
  Untouched-active_slot_key, Untouched-slot_key, the_schema, the_last_used, SameAt-refl,
  stage-SameAt, replace_opened-cases,
}

module _ {S : Type 0} (nvs : Nvs VaultKey S) (laws : NvsLaws nvs) where
  load_opened-SameAt :
      {s t : S} {a : Active}
      → SameAt nvs s t schema_key
      → SameAt nvs s t last_used_key
      → read_active nvs t ≡ a
      → load_opened nvs t
        ≡ load_schema (nvs.get_u32 schema_key s) (load_vault nvs a (read_last_used nvs s))
  unfolding load_opened read_last_used
  load_opened-SameAt p q a = rw (p.u32, q.size, q.blob, a)

  writable :
      (s : S) (rest : Status × PersistedSnapshot)
      → write_status nvs s ≡ ok
      → load_schema (nvs.get_u32 schema_key s) rest ≡ rest
  unfolding write_status load_schema schema_status map_error
  writable s rest h = ground arith

  -- What the next start finds once the envelope has been replaced.
  abbrev pub replaced_view : VaultEnvelope → S → Status × PersistedSnapshot
  replaced_view e s = load_vault nvs (active 0 e) (read_last_used nvs s)

  load_vault_slot :
      (slot : ℕ) (e : VaultEnvelope) (last : Status × Option Bytes)
      → load_vault nvs (active slot e) last ≡ load_vault nvs (active 0 e) last
  unfolding load_vault
  load_vault_slot slot e last = refl

  -- `generation` is that of the Vault in use and `e` comes next, or there is none and it is 0.
  abbrev pub Succeeds : ℕ → VaultEnvelope → Active → Type 0
  Succeeds generation e (active slot current) =
      (current.generation ≡ generation)
      × (e.generation ≡ generation + 1)
      × (e.vault_id ≡ current.vault_id)
  Succeeds generation e no_active = generation ≡ 0
  Succeeds generation e (failed status) = ⊥

  next_slot-Succeeds :
      (generation : ℕ) (e : VaultEnvelope) (a : Active) {slot : ℕ}
      → next_slot generation e a ≡ some slot
      → Succeeds generation e a
  unfolding next_slot
  next_slot-Succeeds generation e (failed status) h = ground arith
  next_slot-Succeeds generation e no_active h = ground arith
  next_slot-Succeeds generation e (active slot current) h =
      ground (arith, bytes_eq_iff e.vault_id current.vault_id)

  -- The effect of a replacement on the store and its status.
  pub record Replaces (generation : ℕ) (e : VaultEnvelope) (s : S) (r : Status × S) : Type 0 where
    pub atomic :
        (load_opened nvs r.1 ≡ load_opened nvs s) ⊎ (load_opened nvs r.1 ≡ replaced_view e s)
    pub done : r.0 ≡ ok → load_opened nvs r.1 ≡ replaced_view e s
    pub succeeds : r.0 ≡ ok → Succeeds generation e (read_active nvs s)

  refused-Replaces :
      (generation : ℕ) (e : VaultEnvelope) (s : S) (status : Status)
      → status ≢ ok
      → Replaces generation e s (status, s)
  refused-Replaces generation e s status ne = record {
    atomic = inl refl;
    done = λ h. absurd (ne h);
    succeeds = λ h. absurd (ne h);
  }

  stage-Replaces :
      (generation : ℕ) (e : VaultEnvelope) (slot : ℕ) (encoded : Bytes) (s : S)
      → write_status nvs s ≡ ok
      → next_slot generation e (read_active nvs s) ≡ some slot
      → Replaces generation e s (stage nvs slot e encoded s)
  stage-Replaces generation e slot encoded s fine next =
      let (bound, free) = next_slot-Free nvs laws generation e s next in
      let p =
        stage-SameAt nvs laws slot e encoded s schema_key (Untouched-active_slot_key the_schema)
          (Untouched-slot_key slot the_schema) in
      let q =
        stage-SameAt nvs laws slot e encoded s last_used_key
          (Untouched-active_slot_key the_last_used) (Untouched-slot_key slot the_last_used) in
      let new : read_active nvs (stage nvs slot e encoded s).1 ≡ active slot e
          → load_opened nvs (stage nvs slot e encoded s).1 ≡ replaced_view e s =
        λ a.
          load_opened-SameAt p q a
          ∙ (writable s _ fine ∙ load_vault_slot slot e (read_last_used nvs s)) in
      record {
        atomic = elim (stage-cases nvs laws slot e encoded s bound free) [
          | inl same ↦ inl (
              load_opened-SameAt p q same
              ∙ sym (
                  load_opened-SameAt (SameAt-refl nvs laws schema_key)
                    (SameAt-refl nvs laws last_used_key) refl))
          | inr a ↦ inr (new a)
        ];
        done = λ h. new (stage_done nvs laws slot e encoded s bound h);
        succeeds = λ h. next_slot-Succeeds generation e (read_active nvs s) next;
      }

  stage_next-Replaces :
      (generation : ℕ) (e : VaultEnvelope) (m : Option ℕ) (encoded : Option Bytes) (s : S)
      → write_status nvs s ≡ ok
      → next_slot generation e (read_active nvs s) ≡ m
      → Replaces generation e s (stage_next nvs e m encoded s)
  unfolding stage_next
  stage_next-Replaces generation e none encoded s fine next =
      refused-Replaces generation e s _ λ h. ground arith
  stage_next-Replaces generation e (some slot) none s fine next =
      refused-Replaces generation e s _ λ h. ground arith
  stage_next-Replaces generation e (some slot) (some encoded) s fine next =
      stage-Replaces generation e slot encoded s fine next

  replace_opened-Replaces :
      (generation : ℕ) (e : VaultEnvelope) (s : S)
      → Replaces generation e s (replace_opened nvs generation e s)
  replace_opened-Replaces generation e s =
      replace_opened-cases nvs laws (Replaces generation e s) generation e s
        (refused-Replaces generation e s)
        λ fine.
          stage_next-Replaces generation e (next_slot generation e (read_active nvs s))
            (encode_envelope e) s fine refl

  module _ {s t : S} (same : (k : VaultKey) → SameAt nvs s t k) where
    same_active : read_active nvs t ≡ read_active nvs s
    same_active = read_active-SameAt nvs (same active_slot_key) λ slot _. same (slot_key slot)

    same_loaded : load_opened nvs t ≡ load_opened nvs s
    same_loaded =
        load_opened-SameAt (same schema_key) (same last_used_key) same_active
        ∙ sym (
            load_opened-SameAt (SameAt-refl nvs laws schema_key)
              (SameAt-refl nvs laws last_used_key) refl)

    same_view : (e : VaultEnvelope) → replaced_view e t ≡ replaced_view e s
    unfolding read_last_used
    same_view e = rw ((same last_used_key).size, (same last_used_key).blob)

    Replaces-same :
        (generation : ℕ) (e : VaultEnvelope) (r : Status × S)
        → Replaces generation e t r
        → Replaces generation e s r
    Replaces-same generation e r w = record {
      atomic = rw (same_loaded, same_view e) at w.atomic;
      done = λ h. w.done h ∙ same_view e;
      succeeds = λ h. rw same_active at (w.succeeds h);
    }

    failed-Replaces :
        (generation : ℕ) (e : VaultEnvelope) (status : Status)
        → status ≢ ok
        → Replaces generation e s (status, t)
    failed-Replaces generation e status ne =
        Replaces-same generation e (status, t) (refused-Replaces generation e t status ne)

  failed_status : (c : EspErr) → is_esp_ok c ≡ false → map_error c ≢ ok
  unfolding map_error
  failed_status c h e = ground arith

  -- With any key-value store that satisfies its laws, wherever a write fails: after
  -- `replace_envelope` the next start loads what it loaded before, or the new envelope with the same
  -- last-used credential. Where `ok` is returned it is the new one, and that was the first one, or the
  -- next generation of the Vault in use.
  pub replace_envelope-Replaces :
      (generation : ℕ) (e : VaultEnvelope) (s : S)
      → Replaces generation e s (replace_envelope nvs generation e s)
  unfolding replace_envelope
  replace_envelope-Replaces generation e s = elim (Bool-cases (valid_envelope e)) [
    | inr bad ↦ rw bad (refused-Replaces generation e s _ λ h. ground arith)
    | inl fine ↦ elim (Bool-cases (is_esp_ok (nvs.init s).0)) [
      | inr bad ↦
          rw (fine, bad) (failed-Replaces same1 generation e _ (failed_status (nvs.init s).0 bad))
      | inl up ↦ elim (Bool-cases (is_esp_ok (nvs.open_namespace readwrite (nvs.init s).1).0)) [
        | inr bad ↦
            rw (fine, up, bad)
              (failed-Replaces same2 generation e _
                (failed_status (nvs.open_namespace readwrite (nvs.init s).1).0 bad))
        | inl opened ↦
            rw (fine, up, opened)
              (Replaces-same same2 generation e _ (
                replace_opened-Replaces generation e
                  (nvs.open_namespace readwrite (nvs.init s).1).1))
      ]
    ]
  ]
    where
      same1 : (k : VaultKey) → SameAt nvs s (nvs.init s).1 k
      same1 k = laws.init_keeps s k

      same2 : (k : VaultKey) → SameAt nvs s (nvs.open_namespace readwrite (nvs.init s).1).1 k
      same2 k = SameAt-trans nvs k (same1 k) (laws.open_keeps readwrite (nvs.init s).1 k)
