-- ===== src/VaultStore/Atomic.antt =====
-- The replacement of the active envelope is atomic, wherever a write fails.
use m5authenticator.Prelude.{
  ℕ, ◌-◌, ◌≤◌, ◌≡◌, refl, sym, ap, ◌≢◌, ◌⊎◌, inl, inr, Option, none, some, arith, ltb, Bool-cases,
  Bytes,
}
use m5authenticator.Nvs.{Nvs, NvsLaws, esp_ok, EspErr}
use m5authenticator.Vault.{VaultEnvelope}
use m5authenticator.VaultRuntime.{ok}
use m5authenticator.VaultRuntime.Invariant.{same_envelope-eq}
use m5authenticator.VaultStore.{
  decode_envelope, Decoded, decoded, undecoded, with_ciphertext, with_header, read_header,
}
use m5authenticator.Nvs.{
  esp_not_found, invalid_arg, no_free_pages, new_version_found, other_error, nvs_not_found,
}
use m5authenticator.VaultStore.Slots.{
  read_blob, read_slot, read_active, stage, staged_status, decoded_slot,
}
use m5authenticator.VaultStore.Slots.Answers.{
  active_slot_key, active, no_active, failed, VaultKey, slot_key, Active, next_slot, pointed,
  map_error,
}
use m5authenticator.Vault.Decode.{read_bytes}
use m5authenticator.VaultStore.Pointer.{
  read_active-SameAt, slot_key-ne, slot_key-other, read_active-commit, flip_active-cases,
  is_esp_ok-map_error, flip_active_done, Free, is_ok-eq,
}

module _ {S : Type 0} (nvs : Nvs VaultKey S) where
  module _ (laws : NvsLaws nvs) where
    read_active-set_blob :
        (slot : ℕ) (encoded : Bytes) (s : S)
        → Free nvs laws slot s
        → read_active nvs (nvs.set_blob (slot_key slot) encoded s).1 ≡ read_active nvs s
    read_active-set_blob slot encoded s f =
        read_active-SameAt nvs
          (laws.set_blob_keeps (slot_key slot) active_slot_key encoded s
            λ h. slot_key-ne nvs slot (sym h))
          λ k e. laws.set_blob_keeps (slot_key slot) (slot_key k) encoded s (f k e)

    with_ciphertext-ne :
        (e : VaultEnvelope) (m : Option (Bytes × Bytes)) → with_ciphertext e m ≢ undecoded ok
    unfolding with_ciphertext
    with_ciphertext-ne e none h = ground arith
    with_ciphertext-ne e (some (c, rest)) h = ground arith

    with_header-ne : (m : Option (VaultEnvelope × ℕ × Bytes)) → with_header m ≢ undecoded ok
    unfolding with_header
    with_header-ne none h = ground arith
    with_header-ne (some (e, size, input)) h =
        ground (arith, with_ciphertext-ne e (read_bytes size input))

    -- A staged copy that compares equal is the envelope.
    decoded_slot_own :
        (slot : ℕ) (encoded : Bytes) (e : VaultEnvelope)
        → staged_status nvs e (decoded_slot nvs slot (decode_envelope encoded)) ≡ ok
        → decoded_slot nvs slot (decode_envelope encoded) ≡ active slot e
    unfolding staged_status decode_envelope
    decoded_slot_own slot encoded e h =
        go (with_header (read_header encoded)) (with_header-ne (read_header encoded)) h
      where
        go :
            (d : Decoded)
            → d ≢ undecoded ok
            → staged_status nvs e (decoded_slot nvs slot d) ≡ ok
            → decoded_slot nvs slot d ≡ active slot e
        go (decoded x) ne h = ground (arith, same_envelope-eq x e)
        go (undecoded status) ne h = absurd (ne (ap undecoded h))

    read_slot_own :
        (slot : ℕ) (e : VaultEnvelope) (s : S)
        → staged_status nvs e (read_slot nvs slot s) ≡ ok
        → read_slot nvs slot s ≡ active slot e
    unfolding read_slot staged_status
    read_slot_own slot e s h =
        ground (arith, decoded_slot_own slot (read_blob nvs (slot_key slot) s).1 e)

    pub stage-cases :
        (slot : ℕ) (e : VaultEnvelope) (encoded : Bytes) (s : S)
        → slot ≤ 1
        → Free nvs laws slot s
        → (read_active nvs (stage nvs slot e encoded s).1 ≡ read_active nvs s)
          ⊎ (read_active nvs (stage nvs slot e encoded s).1 ≡ active slot e)
    unfolding stage
    stage-cases slot e encoded s b f =
        let s1 = (nvs.set_blob (slot_key slot) encoded s).1 in
        let s2 = (nvs.commit s1).1 in
        ground (
          arith,
          read_active-set_blob slot encoded s f,
          read_active-commit nvs laws s1,
          is_ok-eq nvs laws (staged_status nvs e (read_slot nvs slot s2)),
          read_slot_own slot e s2,
          flip_active-cases nvs laws slot e s2 b,
        )

    pub stage_done :
        (slot : ℕ) (e : VaultEnvelope) (encoded : Bytes) (s : S)
        → slot ≤ 1
        → (stage nvs slot e encoded s).0 ≡ ok
        → read_active nvs (stage nvs slot e encoded s).1 ≡ active slot e
    unfolding stage
    stage_done slot e encoded s b h =
        let s1 = (nvs.set_blob (slot_key slot) encoded s).1 in
        let s2 = (nvs.commit s1).1 in
        ground (
          arith,
          is_esp_ok-map_error nvs laws (nvs.set_blob (slot_key slot) encoded s).0,
          is_esp_ok-map_error nvs laws (nvs.commit s1).0,
          is_ok-eq nvs laws (staged_status nvs e (read_slot nvs slot s2)),
          read_slot_own slot e s2,
          flip_active_done nvs laws slot e s2 b,
        )

    decoded_slot_names :
        (slot : ℕ) (d : Decoded) {k : ℕ} {e : VaultEnvelope}
        → decoded_slot nvs slot d ≡ active k e
        → k ≡ slot
    decoded_slot_names slot (decoded x) h = ground arith
    decoded_slot_names slot (undecoded status) h = ground arith

    read_slot_names :
        (slot : ℕ) (s : S) {k : ℕ} {e : VaultEnvelope}
        → read_slot nvs slot s ≡ active k e
        → k ≡ slot
    unfolding read_slot
    read_slot_names slot s h =
        ground
          (arith, decoded_slot_names slot (decode_envelope (read_blob nvs (slot_key slot) s).1))

    decoded_slot-ne : (slot : ℕ) (d : Decoded) → decoded_slot nvs slot d ≢ no_active
    decoded_slot-ne slot (decoded x) h = ground arith
    decoded_slot-ne slot (undecoded status) h = ground arith

    read_slot-ne : (slot : ℕ) (s : S) → read_slot nvs slot s ≢ no_active
    unfolding read_slot
    read_slot-ne slot s h =
        ground (arith, decoded_slot-ne slot (decode_envelope (read_blob nvs (slot_key slot) s).1))

    -- What the slot to write next is.
    pub next_slot_of :
        (generation : ℕ) (e : VaultEnvelope) (a : Active) (slot : ℕ)
        → next_slot generation e a ≡ some slot
        → (a ≡ no_active) ⊎ ((k : ℕ) × (x : VaultEnvelope) × (a ≡ active k x) × (slot ≡ 1 - k))
    unfolding next_slot
    next_slot_of generation e (failed status) slot h = absurd (ground arith)
    next_slot_of generation e no_active slot h = inl refl
    next_slot_of generation e (active k x) slot h = inr (k, x, refl, ground arith)

    pub next_slot_first :
        (generation : ℕ) (e : VaultEnvelope) (slot : ℕ)
        → next_slot generation e no_active ≡ some slot
        → slot ≡ 0
    unfolding next_slot
    next_slot_first generation e slot h = ground arith

    pair-eq :
        {p : EspErr × ℕ} {c d : EspErr} {i j : ℕ} → p ≡ (c, i) → p ≡ (d, j) → (c ≡ d) × (i ≡ j)
    pair-eq a b = (ground arith, ground arith)

    -- The slot that is written next is not the one that the pointer names.
    pub next_slot-Free :
        (generation : ℕ) (e : VaultEnvelope) (s : S) {slot : ℕ}
        → next_slot generation e (read_active nvs s) ≡ some slot
        → (slot ≤ 1) × Free nvs laws slot s
    unfolding next_slot read_active pointed
    next_slot-Free generation e s {slot} h = go (nvs.get_u8 active_slot_key s) refl h
      where
        named :
            (k : ℕ)
            → nvs.get_u8 active_slot_key s ≡ (esp_ok, k)
            → k ≤ 1
            → (read_slot nvs k s ≡ no_active)
              ⊎ ((j : ℕ) × (x : VaultEnvelope) × (read_slot nvs k s ≡ active j x) × (slot ≡ 1 - j))
            → (slot ≤ 1) × Free nvs laws slot s
        named k p b (inl none_there) = absurd (read_slot-ne k s none_there)
        named k p b (inr (j, x, there, slot_eq)) =
            let same : slot ≡ 1 - k = rw (sym (read_slot_names k s there)) slot_eq in
            (omega (arith, same), λ i i_eq. rw (same, (pair-eq i_eq p).1) (slot_key-other nvs k b))

        absent :
            (k : ℕ)
            → nvs.get_u8 active_slot_key s ≡ (nvs_not_found, k)
            → next_slot generation e no_active ≡ some slot
            → (slot ≤ 1) × Free nvs laws slot s
        absent k p h = (
          omega (arith, next_slot_first generation e slot h),
          λ i i_eq _. ground (arith, (pair-eq i_eq p).0),
        )

        go :
            (p : EspErr × ℕ)
            → nvs.get_u8 active_slot_key s ≡ p
            → next_slot generation e (pointed p (λ k. read_slot nvs k s)) ≡ some slot
            → (slot ≤ 1) × Free nvs laws slot s
        go (esp_ok, k) p h = elim (Bool-cases (ltb 1 k)) [
          | inl big ↦ absurd (ground arith)
          | inr small ↦
              named k p (ground arith)
                (next_slot_of generation e (read_slot nvs k s) slot (rw small at h))
        ]
        go (nvs_not_found, k) p h = absent k p h
        go (esp_not_found, k) p h = absurd (ground arith)
        go (invalid_arg, k) p h = absurd (ground arith)
        go (no_free_pages, k) p h = absurd (ground arith)
        go (new_version_found, k) p h = absurd (ground arith)
        go (other_error, k) p h = absurd (ground arith)

    -- A failed reading has a status that is not ok.
    slot_status : (slot : ℕ) (d : Decoded) → d ≢ undecoded ok → decoded_slot nvs slot d ≢ failed ok
    slot_status slot (decoded x) ne h = ground arith
    slot_status slot (undecoded status) ne h = ne (ap undecoded (ground arith))

    read_slot_status : (slot : ℕ) (s : S) → read_slot nvs slot s ≢ failed ok
    unfolding read_slot decode_envelope
    read_slot_status slot s h =
        let encoded = (read_blob nvs (slot_key slot) s).1 in
        ground (
          arith,
          slot_status slot (with_header (read_header encoded))
              (with_header-ne (read_header encoded)),
        )

    pointed_status : (p : EspErr × ℕ) (s : S) → pointed p (λ k. read_slot nvs k s) ≢ failed ok
    unfolding pointed map_error
    pointed_status (esp_ok, slot) s h = ground (arith, read_slot_status slot s)
    pointed_status (nvs_not_found, slot) s h = ground arith
    pointed_status (esp_not_found, slot) s h = ground arith
    pointed_status (invalid_arg, slot) s h = ground arith
    pointed_status (no_free_pages, slot) s h = ground arith
    pointed_status (new_version_found, slot) s h = ground arith
    pointed_status (other_error, slot) s h = ground arith

    pub read_active-ne : (s : S) → read_active nvs s ≢ failed ok
    unfolding read_active
    read_active-ne s h = pointed_status (nvs.get_u8 active_slot_key s) s h
