-- ===== src/Vault/Utf8.antt =====
-- `is_valid_utf8` of vault_format.cpp.
pub mod Scalars
use m5authenticator.Prelude.{
  ℕ, zero, suc, ◌/◌, Bool, true, false, not, ◌&&◌, ◌||◌, Option, none, some, [], ◌∷◌, leb, ◌==◌,
  if◌then◌else◌, length, Bytes,
}

unfoldable pub within : ℕ → ℕ → ℕ → Bool
within lo hi byte = leb lo byte && leb byte hi

-- `(byte & 0xc0) == 0x80`: the top two bits are 10.
unfoldable pub is_continuation : ℕ → Bool
is_continuation byte = byte / 64 == 2

-- The check of the second byte, which depends on the first.
second_fits : ℕ → ℕ → ℕ → ℕ → ℕ → ℕ → Bool
unfolding within is_continuation
second_fits first low low_from high high_to second =
    if first == low
    then within low_from 0xbf second
    else if first == high
    then within 0x80 high_to second
    else is_continuation second

two : Bytes → Option Bytes
unfolding is_continuation
two [] = none
two (second ∷ rest) = if is_continuation second then some rest else none

three : ℕ → Bytes → Option Bytes
unfolding second_fits
three first (second ∷ third ∷ rest) =
    if not (is_continuation third)
    then none
    else if second_fits first 0xe0 0xa0 0xed 0x9f second
    then some rest
    else none
three first _ = none

four : ℕ → Bytes → Option Bytes
unfolding second_fits
four first (second ∷ third ∷ fourth ∷ rest) =
    if not (is_continuation third) || not (is_continuation fourth)
    then none
    else if second_fits first 0xf0 0x90 0xf4 0x8f second
    then some rest
    else none
four first _ = none

-- One round of the loop: what is left behind one encoded character, or nothing where the loop
-- returns false.
unfoldable pub next_char : ℕ → Bytes → Option Bytes
unfolding two three four
next_char first rest =
    if leb first 0x7f
    then some rest
    else if within 0xc2 0xdf first
    then two rest
    else if within 0xe0 0xef first
    then three first rest
    else if within 0xf0 0xf4 first
    then four first rest
    else none

-- The loop, on fuel: each round takes at least one byte.
unfoldable pub valid_from : ℕ → Bytes → Bool
valid_from fuel [] = true
valid_from zero (first ∷ rest) = false
valid_from (suc fuel) (first ∷ rest) = elim (next_char first rest) [
  | none ↦ false
  | some left ↦ valid_from fuel left
]

unfoldable pub is_valid_utf8 : Bytes → Bool
unfolding valid_from next_char
is_valid_utf8 text = valid_from (length text) text
