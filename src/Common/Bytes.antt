-- ===== src/Common/Bytes.antt =====
-- Machine words, and the memory that the kernel addresses by them.
use Prim.Native.Nat.{ℕ, ◌+◌, ◌-◌, ◌%◌, ◌^◌, ◌<◌}
use the_one_os.Common.Lists.{update}

abbrev pub word_size : ℕ
word_size = 2 ^ 32

-- The value of a uint32_t expression.
abbrev pub wrap32 : ℕ → ℕ
wrap32 n = n % 2 ^ 32

abbrev pub add32 : ℕ → ℕ → ℕ
add32 a b = (a + b) % 2 ^ 32

-- `-` on ℕ stops at 0, so the modulus is added first. Both arguments are words.
abbrev pub sub32 : ℕ → ℕ → ℕ
sub32 a b = (a + 2 ^ 32 - b) % 2 ^ 32

-- The bit pattern of the int32_t value -1.
abbrev pub minus_one : ℕ
minus_one = 2 ^ 32 - 1

-- The byte at each address.
abbrev pub Memory : Type 0
Memory = ℕ → ℕ

abbrev pub store : Memory → ℕ → ℕ → Memory
store m a v = update m a v

-- Every cell holds a byte.
abbrev pub IsBytes : Memory → Type 0
IsBytes m = (a : ℕ) → m a < 256
