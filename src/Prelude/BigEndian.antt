-- ===== src/Prelude/BigEndian.antt =====
-- Byte strings as numbers, most significant byte first.
use Prim.Native.Nat.{ℕ, ◌+◌, ◌*◌, ◌<◌}
use mathlib.Core.Path.{◌≡◌, refl}
use mathlib.Core.List.{List, [], ◌∷◌, ◌++◌}
use native.Mathlib.Omega.{arith}
use m5authenticator.Prelude.Lists.{Bytes, length}

-- The digits `xs` in base `b`, behind the number `n`.
unfoldable pub of_digits : ℕ → ℕ → List ℕ → ℕ
of_digits b n [] = n
of_digits b n (x ∷ xs) = of_digits b (n * b + x) xs

abbrev pub IsBytes : Bytes → Type 0
IsBytes [] = Unit {0}
IsBytes (x ∷ xs) = (x < 256) × IsBytes xs

pub of_digits-concat :
    (b n : ℕ) (xs : List ℕ) (y : ℕ) → of_digits b n (xs ++ (y ∷ [])) ≡ of_digits b n xs * b + y
unfolding of_digits
of_digits-concat b n [] y = refl
of_digits-concat b n (x ∷ xs) y = of_digits-concat b (n * b + x) xs y

pub IsBytes-append : (xs ys : Bytes) → IsBytes xs → IsBytes ys → IsBytes (xs ++ ys)
IsBytes-append [] ys h k = k
IsBytes-append (x ∷ xs) ys h k = (h.0, IsBytes-append xs ys h.1 k)

-- Bytes are determined by their number and their count.
pub of_digits_injective :
    (xs ys : Bytes) (n m : ℕ)
    → IsBytes xs
    → IsBytes ys
    → length xs ≡ length ys
    → of_digits 256 n xs ≡ of_digits 256 m ys
    → (n ≡ m) × (xs ≡ ys)
unfolding of_digits
of_digits_injective [] [] n m h k l e = (e, refl)
of_digits_injective [] (y ∷ ys) n m h k l e = absurd (omega arith)
of_digits_injective (x ∷ xs) [] n m h k l e = absurd (omega arith)
of_digits_injective (x ∷ xs) (y ∷ ys) n m h k l e =
    let rest = of_digits_injective xs ys (n * 256 + x) (m * 256 + y) h.1 k.1 (omega arith) e in
    let first : x ≡ y = omega arith in (omega arith, rw (first, rest.1))

pub IsBytes-split : (xs ys : Bytes) → IsBytes (xs ++ ys) → IsBytes xs × IsBytes ys
IsBytes-split [] ys h = (tt, h)
IsBytes-split (x ∷ xs) ys h = let rest = IsBytes-split xs ys h.1 in ((h.0, rest.0), rest.1)
