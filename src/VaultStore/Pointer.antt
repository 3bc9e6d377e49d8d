-- ===== src/VaultStore/Pointer.antt =====
-- The pointer to the active slot, on a key-value store that satisfies its laws.
use m5authenticator.Prelude.{
  ℕ, ◌-◌, ◌≤◌, ◌≡◌, refl, ◌∙◌, ◌≢◌, ◌⊎◌, inl, inr, true, arith, ◌==◌, Bool-cases,
}
use m5authenticator.Nvs.{Nvs, NvsLaws, SameAt, esp_ok, EspErr, is_esp_ok}
use m5authenticator.Vault.{VaultEnvelope}
use m5authenticator.VaultRuntime.{Status, ok, is_ok}
use m5authenticator.Nvs.{
  esp_not_found, invalid_arg, no_free_pages, new_version_found, other_error, nvs_not_found,
}
use m5authenticator.VaultStore.Slots.{read_blob, read_slot, read_active, flip_active}
use m5authenticator.VaultStore.Slots.Answers.{
  active_slot_key, active, VaultKey, slot_key, Active, pointed, map_error,
}

pointed-ext :
    (p : EspErr × ℕ) (f g : ℕ → Active)
    → ((slot : ℕ) → p ≡ (esp_ok, slot) → f slot ≡ g slot)
    → pointed p f ≡ pointed p g
unfolding pointed
pointed-ext (esp_ok, slot) f g h = ground (arith, h slot refl)
pointed-ext (nvs_not_found, slot) f g h = refl
pointed-ext (esp_not_found, slot) f g h = refl
pointed-ext (invalid_arg, slot) f g h = refl
pointed-ext (no_free_pages, slot) f g h = refl
pointed-ext (new_version_found, slot) f g h = refl
pointed-ext (other_error, slot) f g h = refl

module _ {S : Type 0} (nvs : Nvs VaultKey S) where
  pub SameAt-trans :
      {s t u : S} (k : VaultKey) → SameAt nvs s t k → SameAt nvs t u k → SameAt nvs s u k
  SameAt-trans k a b = record {
    u8 = b.u8 ∙ a.u8;
    u32 = b.u32 ∙ a.u32;
    size = b.size ∙ a.size;
    blob = b.blob ∙ a.blob;
  }

  read_slot-SameAt :
      (slot : ℕ) {s t : S}
      → SameAt nvs s t (slot_key slot)
      → read_slot nvs slot t ≡ read_slot nvs slot s
  unfolding read_slot read_blob
  read_slot-SameAt slot h = rw (h.size, h.blob)

  -- The pointer and the slot that it points to decide.
  pub read_active-SameAt :
      {s t : S}
      → SameAt nvs s t active_slot_key
      → ((slot : ℕ)
          → nvs.get_u8 active_slot_key s ≡ (esp_ok, slot)
          → SameAt nvs s t (slot_key slot))
      → read_active nvs t ≡ read_active nvs s
  unfolding read_active
  read_active-SameAt {s} {t} p h =
      rw p.u8
        (pointed-ext (nvs.get_u8 active_slot_key s) _ _ λ slot e. read_slot-SameAt slot (h slot e))

  pub slot_key-ne : (slot : ℕ) → slot_key slot ≢ active_slot_key
  slot_key-ne slot = elim (Bool-cases (slot == 0)) [
    | inl e ↦ rw e (λ h. cc)
    | inr e ↦ rw e (λ h. cc)
  ]

  slot_cases : (slot : ℕ) → slot ≤ 1 → (slot ≡ 0) ⊎ (slot ≡ 1)
  slot_cases slot b = omega arith

  pub slot_key-other : (slot : ℕ) → slot ≤ 1 → slot_key slot ≢ slot_key (1 - slot)
  slot_key-other slot b = elim (slot_cases slot b) [
    | inl e ↦ rw e (λ h. cc)
    | inr e ↦ rw e (λ h. cc)
  ]

  points :
      (slot : ℕ) (e : VaultEnvelope) (t : S)
      → slot ≤ 1
      → nvs.get_u8 active_slot_key t ≡ (esp_ok, slot)
      → read_slot nvs slot t ≡ active slot e
      → read_active nvs t ≡ active slot e
  unfolding read_active pointed
  points slot e t b p r = rw p (ground (arith, r))

  module _ (laws : NvsLaws nvs) where
    pub read_active-commit : (s : S) → read_active nvs (nvs.commit s).1 ≡ read_active nvs s
    read_active-commit s =
        read_active-SameAt (laws.commit_keeps s active_slot_key)
          λ slot _. laws.commit_keeps s (slot_key slot)

    pointer_done :
        (slot : ℕ) (e : VaultEnvelope) (s : S)
        → slot ≤ 1
        → read_slot nvs slot s ≡ active slot e
        → nvs.get_u8 active_slot_key (nvs.set_u8 active_slot_key slot s).1 ≡ (esp_ok, slot)
        → read_active nvs (nvs.set_u8 active_slot_key slot s).1 ≡ active slot e
    pointer_done slot e s b r p = points slot e _ b p (
        read_slot-SameAt slot
          (laws.set_u8_keeps active_slot_key (slot_key slot) slot s (slot_key-ne slot))
        ∙ r)

    pointer_cases :
        (slot : ℕ) (e : VaultEnvelope) (s : S)
        → slot ≤ 1
        → read_slot nvs slot s ≡ active slot e
        → (read_active nvs (nvs.set_u8 active_slot_key slot s).1 ≡ read_active nvs s)
          ⊎ (read_active nvs (nvs.set_u8 active_slot_key slot s).1 ≡ active slot e)
    pointer_cases slot e s b r = elim (laws.set_u8_atomic active_slot_key slot s) [
      | inl same ↦ inl (
          read_active-SameAt same
            λ k _. laws.set_u8_keeps active_slot_key (slot_key k) slot s (slot_key-ne k))
      | inr p ↦ inr (pointer_done slot e s b r p)
    ]

    -- Setting the pointer: as before, or the slot's envelope.
    pub flip_active-cases :
        (slot : ℕ) (e : VaultEnvelope) (s : S)
        → slot ≤ 1
        → read_slot nvs slot s ≡ active slot e
        → (read_active nvs (flip_active nvs slot s).1 ≡ read_active nvs s)
          ⊎ (read_active nvs (flip_active nvs slot s).1 ≡ active slot e)
    unfolding flip_active
    flip_active-cases slot e s b r = ground (
      arith,
      pointer_cases slot e s b r,
      read_active-commit (nvs.set_u8 active_slot_key slot s).1,
    )

    is_esp_ok-eq : (c : EspErr) → is_esp_ok c ≡ true → c ≡ esp_ok
    is_esp_ok-eq c h = ground arith

    pub is_esp_ok-map_error : (c : EspErr) → map_error c ≡ ok → c ≡ esp_ok
    unfolding map_error
    is_esp_ok-map_error c h = ground arith

    pub flip_active_done :
        (slot : ℕ) (e : VaultEnvelope) (s : S)
        → slot ≤ 1
        → read_slot nvs slot s ≡ active slot e
        → (flip_active nvs slot s).0 ≡ ok
        → read_active nvs (flip_active nvs slot s).1 ≡ active slot e
    unfolding flip_active
    flip_active_done slot e s b r h =
        let result = (nvs.set_u8 active_slot_key slot s).0 in
        ground (
          arith,
          is_esp_ok-eq result,
          is_esp_ok-map_error result,
          λ (p : result ≡ esp_ok).
              pointer_done slot e s b r (laws.set_u8_done active_slot_key slot s p),
          read_active-commit (nvs.set_u8 active_slot_key slot s).1,
        )

    pub is_ok-eq : (status : Status) → is_ok status ≡ true → status ≡ ok
    is_ok-eq status h = ground arith

    -- What is staged in a slot that the pointer does not name.
    abbrev pub Free : ℕ → S → Type 0
    Free slot s = (k : ℕ) → nvs.get_u8 active_slot_key s ≡ (esp_ok, k) → slot_key k ≢ slot_key slot
