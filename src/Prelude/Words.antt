-- ===== src/Prelude/Words.antt =====
-- The limits of the machine integers, and the saturating deadline that several parts share.
use Prim.Native.Nat.{ℕ, ◌+◌, ◌-◌, ◌^◌}
use m5authenticator.Prelude.Tests.{ltb, if◌then◌else◌}

abbrev pub u64_max : ℕ
u64_max = 2 ^ 64 - 1

abbrev pub u32_max : ℕ
u32_max = 2 ^ 32 - 1

-- `now > max - ttl ? max : now + ttl`.
unfoldable pub saturating_deadline : ℕ → ℕ → ℕ
saturating_deadline now ttl = if ltb (u64_max - ttl) now then u64_max else now + ttl
