-- ===== src/Totp/Base32/Alphabet.antt =====
-- The alphabet of RFC 4648, section 6, against `base32_value` of totp_core.cpp.
use m5authenticator.Prelude.{
  ℕ, zero, suc, ◌<◌, ◌≡◌, refl, ◌↔◌, ◌⊎◌, inl, inr, Bool, true, false, ◌&&◌, ◌||◌, Option, none,
  some, arith, ltb, ltb→lt, some_eq, ◌==◌, ==_iff, Bytes, codes, get_or,
}
use m5authenticator.Totp.Base32.{base32_value}

abbrev pub upper_case : Bytes
upper_case = codes "ABCDEFGHIJKLMNOPQRSTUVWXYZ234567"

abbrev pub lower_case : Bytes
lower_case = codes "abcdefghijklmnopqrstuvwxyz234567"

-- The character stands at place v of the alphabet, in one of its two spellings.
abbrev pub Stands : ℕ → ℕ → Type 0
Stands ch v = (v < 32) × ((get_or upper_case v 0 ≡ ch) ⊎ (get_or lower_case v 0 ≡ ch))

both_true : (a b : Bool) → (a && b) ≡ true → (a ≡ true) × (b ≡ true)
both_true true b h = (refl, h)
both_true false b h = cc

either_true : (a b : Bool) → (a || b) ≡ true → (a ≡ true) ⊎ (b ≡ true)
either_true true b h = inl refl
either_true false b h = inr h

is_value : ℕ → Option ℕ → Bool
is_value v none = false
is_value v (some w) = w == v

is_value-eq : (v : ℕ) (m : Option ℕ) → is_value v m ≡ true → m ≡ some v
unfolding is_value
is_value-eq v none h = cc
is_value-eq v (some w) h = ground (arith, ==_iff w v)

all_below : ℕ → (ℕ → Bool) → Bool
all_below zero test = true
all_below (suc n) test = test n && all_below n test

all_below_at : (n : ℕ) (test : ℕ → Bool) (i : ℕ) → all_below n test ≡ true → i < n → test i ≡ true
unfolding all_below
all_below_at zero test i h k = absurd (omega (arith, k))
all_below_at (suc n) test i h k = ground (arith, all_below_at n test i)

-- Both spellings of the place have its value.
spelled : ℕ → Bool
unfolding is_value
spelled v =
    is_value v (base32_value (get_or upper_case v 0))
    && is_value v (base32_value (get_or lower_case v 0))

all_spelled : all_below 32 spelled ≡ true
unfolding all_below spelled base32_value
all_spelled = refl

-- The value, if the character has one, is a place where it stands.
placed : ℕ → Option ℕ → Bool
placed ch none = true
placed ch (some v) = ltb v 32 && (get_or upper_case v 0 == ch || get_or lower_case v 0 == ch)

all_placed : all_below 128 (λ ch. placed ch (base32_value ch)) ≡ true
unfolding all_below placed base32_value
all_placed = refl

placed-Stands : (ch v : ℕ) (m : Option ℕ) → m ≡ some v → placed ch m ≡ true → Stands ch v
unfolding placed
placed-Stands ch v none e h = cc
placed-Stands ch v (some w) e h =
    let same = some_eq e in
    let (small, place) = both_true (ltb w 32) _ h in
    rw (← same) (
      ltb→lt w 32 small,
      elim (either_true (get_or upper_case w 0 == ch) _ place) [
        | inl u ↦ inl ((==_iff _ ch).0 u)
        | inr l ↦ inr ((==_iff _ ch).0 l)
      ],
    )

base32_value_ascii : (ch v : ℕ) → base32_value ch ≡ some v → ch < 128
unfolding base32_value
base32_value_ascii ch v e = ground arith

pub base32_value_iff : (ch v : ℕ) → (base32_value ch ≡ some v) ↔ Stands ch v
unfolding spelled
base32_value_iff ch v = (
  λ e. placed-Stands ch v (base32_value ch) e (
      all_below_at 128 (λ ch. placed ch (base32_value ch)) ch all_placed
        (base32_value_ascii ch v e)),
  λ (small, place).
      let (u, l) =
        both_true (is_value v (base32_value (get_or upper_case v 0))) _
          (all_below_at 32 spelled v all_spelled small) in
      let upper = is_value-eq v (base32_value (get_or upper_case v 0)) in
      let lower = is_value-eq v (base32_value (get_or lower_case v 0)) in
      elim place [ inl e ↦ rw (← e) (upper u) | inr e ↦ rw (← e) (lower l) ],
)
