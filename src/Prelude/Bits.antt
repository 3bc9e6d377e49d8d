-- ===== src/Prelude/Bits.antt =====
-- When `^` and `|` give zero, and the comparison of byte strings that the firmware makes with
-- them: `constant_time_equal` of user_presence.cpp and session_crypto.cpp.
use Prim.Native.Nat.{
  ℕ, zero, suc, ◌/◌, ◌%◌, ◌≤◌, max, digits, differ, bit_or, bit_xor, bit_or-bitwise,
  bit_xor-bitwise,
}
use mathlib.Core.Path.{◌≡◌, refl, sym, ◌∙◌}
use mathlib.Core.Logic.{◌↔◌}
use mathlib.Core.Bool.{Bool, true, false}
use mathlib.Core.List.{[], ◌∷◌}
use native.Mathlib.Omega.{arith}
use m5authenticator.Prelude.Tests.{◌==◌, if◌then◌else◌}
use m5authenticator.Prelude.Lists.{Bytes, length}

differ-eq : (x y : ℕ) → differ x y ≡ 0 → x ≡ y
differ-eq zero y e = omega arith
differ-eq (suc x) zero e = e
differ-eq (suc x) (suc y) e = omega (arith, differ-eq x y e)

differ_same : (x : ℕ) → differ x x ≡ 0
differ_same zero = refl
differ_same (suc x) = differ_same x

xor_zero : (n a b : ℕ) → a ≤ n → digits (λ y. y) differ n a b ≡ 0 → a ≡ b
xor_zero zero zero b h e = omega arith
xor_zero zero (suc a) b h e = absurd (omega arith)
xor_zero (suc n) zero b h e = omega arith
xor_zero (suc n) (suc a) b h e = omega (
  arith,
  xor_zero n (suc a / 2) (b / 2) (omega arith) (omega arith),
  differ-eq (suc a % 2) (b % 2) (omega arith),
)

xor_self : (n a : ℕ) → a ≤ n → digits (λ y. y) differ n a a ≡ 0
xor_self zero zero h = refl
xor_self zero (suc a) h = absurd (omega arith)
xor_self (suc n) zero h = refl
xor_self (suc n) (suc a) h =
    omega (arith, xor_self n (suc a / 2) (omega arith), differ_same (suc a % 2))

max_zero : (n a b : ℕ) → a ≤ n → digits (λ y. y) max n a b ≡ 0 → (a ≡ 0) × (b ≡ 0)
max_zero zero zero b h e = (refl, omega arith)
max_zero zero (suc a) b h e = absurd (omega arith)
max_zero (suc n) zero b h e = (refl, omega arith)
max_zero (suc n) (suc a) b h e =
    let rest = max_zero n (suc a / 2) (b / 2) (omega arith) (omega arith) in absurd (omega arith)

pub bit_xor-eq-zero : (a b : ℕ) → (bit_xor a b ≡ 0) ↔ (a ≡ b)
bit_xor-eq-zero a b = (
  λ e. xor_zero a a b (omega arith) (sym (bit_xor-bitwise a b) ∙ e),
  λ e. rw e (bit_xor-bitwise b b ∙ xor_self b b (omega arith)),
)

pub bit_or-eq-zero : (a b : ℕ) → (bit_or a b ≡ 0) ↔ ((a ≡ 0) × (b ≡ 0))
bit_or-eq-zero a b =
    (λ e. max_zero a a b (omega arith) (sym (bit_or-bitwise a b) ∙ e), λ e. rw (e.0, e.1))

-- The loop: `difference |= left[index] ^ right[index]`. The cast to a byte changes nothing, since
-- the exclusive or of two bytes is one.
unfoldable pub difference : ℕ → Bytes → Bytes → ℕ
difference d [] right = d
difference d (x ∷ left) [] = d
difference d (x ∷ left) (y ∷ right) = difference (bit_or d (bit_xor x y)) left right

unfoldable pub constant_time_equal : Bytes → Bytes → Bool
unfolding difference
constant_time_equal left right =
    if length left == length right then difference 0 left right == 0 else false

difference-eq-zero :
    (d : ℕ) (a b : Bytes) → length a ≡ length b → (difference d a b ≡ 0) ↔ ((d ≡ 0) × (a ≡ b))
unfolding difference
difference-eq-zero d [] [] l = (λ e. (e, refl), λ e. e.0)
difference-eq-zero d [] (y ∷ b) l = absurd (omega arith)
difference-eq-zero d (x ∷ a) [] l = absurd (omega arith)
difference-eq-zero d (x ∷ a) (y ∷ b) l =
    let rest = difference-eq-zero (bit_or d (bit_xor x y)) a b (omega arith) in
    let now = bit_or-eq-zero d (bit_xor x y) in
    let same = bit_xor-eq-zero x y in (λ e. ground arith, λ e. ground arith)

-- The comparison without an early exit is equality: it returns true exactly when the two byte
-- strings are the same.
pub constant_time_equal_iff : (a b : Bytes) → (constant_time_equal a b ≡ true) ↔ (a ≡ b)
unfolding constant_time_equal
constant_time_equal_iff a b = (
  λ e. ((difference-eq-zero 0 a b (ground arith)).0 (ground arith)).1,
  λ e. rw e (ground (arith, (difference-eq-zero 0 b b refl).1 (refl, refl))),
)
