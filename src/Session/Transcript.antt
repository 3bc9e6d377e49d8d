-- ===== src/Session/Transcript.antt =====
-- The transcript determines everything that it is made of.
use m5authenticator.Prelude.{
  ℕ, zero, suc, ◌%◌, ◌^◌, ◌≤◌, ◌≡◌, refl, sym, ◌∙◌, Bool, some, [], ◌∷◌, ◌++◌, arith, length, Bytes,
  bytes_eq,
}
use m5authenticator.Session.{
  TranscriptInput, Operation, operation_code, append_be, transcript_bytes, encode_transcript,
  max_device_id_bytes, parse_operation, operation_name,
}
use m5authenticator.Prelude.{u64_max, u32_max}
use m5authenticator.Session.{
  trusted_browser_unlock, initial_provisioning, recovery, browser_replacement, vmk_rekey,
}

-- The sizes of the arrays and the ranges of the numbers.
pub record IsInput (input : TranscriptInput) : Type 0 where
  pub vault_id_size : length input.vault_id ≡ 16
  pub generation_fits : input.expected_generation ≤ u64_max
  pub registration_id_size : length input.registration_id ≡ 16
  pub epoch_fits : input.registration_epoch ≤ u32_max
  pub attempt_id_size : length input.attempt_id ≡ 16
  pub challenge_size : length input.challenge ≡ 32
  pub device_key_size : length input.device_ephemeral_public_key ≡ 65
  pub web_key_size : length input.web_ephemeral_public_key ≡ 65
  pub current_key_size : length input.current_brk_public_key ≡ 65
  pub proposed_key_size : length input.proposed_brk_public_key ≡ 65

append-split :
    (xs xs' ys ys' : Bytes)
    → length xs ≡ length xs'
    → xs ++ ys ≡ xs' ++ ys'
    → (xs ≡ xs') × (ys ≡ ys')
append-split [] [] ys ys' l e = (refl, e)
append-split [] (x' ∷ xs') ys ys' l e = absurd (omega arith)
append-split (x ∷ xs) [] ys ys' l e = absurd (omega arith)
append-split (x ∷ xs) (x' ∷ xs') ys ys' l e =
    let split : (x ≡ x') × (xs ++ ys ≡ xs' ++ ys') = (cc, cc) in
    let rest = append-split xs xs' ys ys' (omega arith) split.1 in (cc, rest.1)

operation_code-injective : (o o' : Operation) → operation_code o ≡ operation_code o' → o ≡ o'
operation_code-injective o o' h = ground arith

append_be8-injective : (n m : ℕ) → n ≤ u64_max → m ≤ u64_max → append_be 8 n ≡ append_be 8 m → n ≡ m
unfolding append_be
append_be8-injective n m h k e = ground arith

append_be4-injective : (n m : ℕ) → n ≤ u32_max → m ≤ u32_max → append_be 4 n ≡ append_be 4 m → n ≡ m
unfolding append_be
append_be4-injective n m h k e = ground arith

pub length-append_be : (n value : ℕ) → length (append_be n value) ≡ n
unfolding append_be
length-append_be zero value = refl
length-append_be (suc n) value = rw (length-append_be n value)

-- Every name is read back.
parse_operation-operation_name : (o : Operation) → parse_operation (operation_name o) ≡ some o
unfolding parse_operation operation_name bytes_eq
parse_operation-operation_name trusted_browser_unlock = refl
parse_operation-operation_name initial_provisioning = refl
parse_operation-operation_name recovery = refl
parse_operation-operation_name browser_replacement = refl
parse_operation-operation_name vmk_rekey = refl

-- The fixed-size part behind the Device id.
abbrev behind_id : TranscriptInput → Bytes
behind_id input =
    input.vault_id
    ++ (append_be 8 input.expected_generation
        ++ (input.registration_id
            ++ (append_be 4 input.registration_epoch
                ++ (input.attempt_id
                    ++ (input.challenge
                        ++ (input.device_ephemeral_public_key
                            ++ (input.web_ephemeral_public_key
                                ++ (input.current_brk_public_key
                                    ++ input.proposed_brk_public_key))))))))

-- The heads, in front of the Device id.
head-split :
    (a b : TranscriptInput)
    → length a.device_id ≤ max_device_id_bytes
    → length b.device_id ≤ max_device_id_bytes
    → transcript_bytes a ≡ transcript_bytes b
    → (a.operation ≡ b.operation)
      × (length a.device_id ≡ length b.device_id)
      × (a.device_id ++ behind_id a ≡ b.device_id ++ behind_id b)
unfolding transcript_bytes
head-split a b h k e =
    let code : operation_code a.operation ≡ operation_code b.operation = cc in
    let size : length a.device_id % 2 ^ 8 ≡ length b.device_id % 2 ^ 8 = cc in
    (operation_code-injective a.operation b.operation code, omega arith, cc)

record SameFields (a b : TranscriptInput) : Type 0 where
  vault_id : a.vault_id ≡ b.vault_id
  generation : a.expected_generation ≡ b.expected_generation
  registration_id : a.registration_id ≡ b.registration_id
  epoch : a.registration_epoch ≡ b.registration_epoch
  attempt_id : a.attempt_id ≡ b.attempt_id
  challenge : a.challenge ≡ b.challenge
  device_key : a.device_ephemeral_public_key ≡ b.device_ephemeral_public_key
  web_key : a.web_ephemeral_public_key ≡ b.web_ephemeral_public_key
  current_key : a.current_brk_public_key ≡ b.current_brk_public_key
  proposed_key : a.proposed_brk_public_key ≡ b.proposed_brk_public_key

behind_id-injective :
    (a b : TranscriptInput) → IsInput a → IsInput b → behind_id a ≡ behind_id b → SameFields a b
behind_id-injective a b h k e =
    let vault = append-split a.vault_id b.vault_id _ _ (h.vault_id_size ∙ sym k.vault_id_size) e in
    let generation =
      append-split (append_be 8 a.expected_generation) (append_be 8 b.expected_generation) _ _
        (length-append_be 8 a.expected_generation ∙ sym (length-append_be 8 b.expected_generation))
        vault.1 in
    let registration =
      append-split a.registration_id b.registration_id _ _
        (h.registration_id_size ∙ sym k.registration_id_size) generation.1 in
    let epoch =
      append-split (append_be 4 a.registration_epoch) (append_be 4 b.registration_epoch) _ _
        (length-append_be 4 a.registration_epoch ∙ sym (length-append_be 4 b.registration_epoch))
        registration.1 in
    let attempt =
      append-split a.attempt_id b.attempt_id _ _ (h.attempt_id_size ∙ sym k.attempt_id_size)
        epoch.1 in
    let challenge =
      append-split a.challenge b.challenge _ _ (h.challenge_size ∙ sym k.challenge_size)
        attempt.1 in
    let device =
      append-split a.device_ephemeral_public_key b.device_ephemeral_public_key _ _
        (h.device_key_size ∙ sym k.device_key_size) challenge.1 in
    let web =
      append-split a.web_ephemeral_public_key b.web_ephemeral_public_key _ _
        (h.web_key_size ∙ sym k.web_key_size) device.1 in
    let current =
      append-split a.current_brk_public_key b.current_brk_public_key _ _
        (h.current_key_size ∙ sym k.current_key_size) web.1 in
    record {
      vault_id = vault.0;
      generation =
          append_be8-injective a.expected_generation b.expected_generation h.generation_fits
            k.generation_fits generation.0;
      registration_id = registration.0;
      epoch =
          append_be4-injective a.registration_epoch b.registration_epoch h.epoch_fits k.epoch_fits
            epoch.0;
      attempt_id = attempt.0;
      challenge = challenge.0;
      device_key = device.0;
      web_key = web.0;
      current_key = current.0;
      proposed_key = current.1;
    }

transcript_bytes-injective :
    (a b : TranscriptInput)
    → IsInput a
    → IsInput b
    → length a.device_id ≤ max_device_id_bytes
    → length b.device_id ≤ max_device_id_bytes
    → transcript_bytes a ≡ transcript_bytes b
    → a ≡ b
transcript_bytes-injective a b h k p q e =
    let (operation, size, rest) = head-split a b p q e in
    let (device_id, behind) =
      append-split a.device_id b.device_id (behind_id a) (behind_id b) size rest in
    let same = behind_id-injective a b h k behind in ground (arith, operation, device_id, same)

module _ (import_public_key : Bytes → Bool) where
  encode_transcript-bytes :
      (input : TranscriptInput) {t : Bytes}
      → encode_transcript import_public_key input ≡ some t
      → (length input.device_id ≤ max_device_id_bytes) × (transcript_bytes input ≡ t)
  unfolding encode_transcript
  encode_transcript-bytes input e = ground arith

  -- Two attempts that differ in any field have different transcripts: a signature or a key that is made
  -- for one transcript is of use for no other operation, Device, Vault, generation, registration,
  -- attempt, challenge or key.
  pub encode_transcript-injective :
      (a b : TranscriptInput) {t : Bytes}
      → IsInput a
      → IsInput b
      → encode_transcript import_public_key a ≡ some t
      → encode_transcript import_public_key b ≡ some t
      → a ≡ b
  encode_transcript-injective a b h k e f =
      let (p, t_eq) = encode_transcript-bytes a e in
      let (q, u_eq) = encode_transcript-bytes b f in
      transcript_bytes-injective a b h k p q (t_eq ∙ sym u_eq)
