-- ===== src/Prelude/Words.antt =====
-- `unsigned int` and `uint16_t`: numbers with the wrap-around written out.
use Prim.Native.Nat.{ℕ, ◌+◌, ◌-◌, ◌%◌, ◌^◌}

abbrev pub add32 : ℕ → ℕ → ℕ
add32 a b = (a + b) % 2 ^ 32

abbrev pub sub32 : ℕ → ℕ → ℕ
sub32 a b = (a + 2 ^ 32 - b) % 2 ^ 32

abbrev pub u16 : ℕ → ℕ
u16 a = a % 2 ^ 16
