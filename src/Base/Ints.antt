-- ===== src/Base/Ints.antt =====
-- `uint32_t` and `int`: an `int` that a C function returns or is given, and the conversions.
use Prim.Native.Nat.{ℕ, ◌-◌, ◌%◌, ◌^◌}
use sciascid_libpaxos_d255f.Base.Bools.{ltb, if◌then◌else◌}

-- `negsuc n` is -(n + 1).
pub data ℤ : Type 0 where
  pos : ℕ → ℤ
  negsuc : ℕ → ℤ

abbrev pub u32_mod : ℕ
u32_mod = 2 ^ 32

-- The conversion of an `int` to `uint32_t`.
abbrev pub u32_of_int : ℤ → ℕ
u32_of_int (pos n) = n % 2 ^ 32
u32_of_int (negsuc n) = 2 ^ 32 - 1 - n % 2 ^ 32

-- The conversion of a `uint32_t` to `int` in two's complement.
abbrev pub int_of_u32 : ℕ → ℤ
int_of_u32 n = if ltb n (2 ^ 31) then pos n else negsuc (2 ^ 32 - 1 - n)
