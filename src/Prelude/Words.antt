-- ===== src/Prelude/Words.antt =====
-- Machine words as native numbers: each wrap is written out. `unsigned long` is 32 bits wide on
-- the ESP32, so `millis()` and every stored time is a 32-bit word.
use Prim.Native.Nat.{ℕ, ◌+◌, ◌-◌, ◌%◌}

abbrev pub u8 : ℕ → ℕ
u8 n = n % 256

abbrev pub u16 : ℕ → ℕ
u16 n = n % 65536

abbrev pub u32 : ℕ → ℕ
u32 n = n % 4294967296

-- Unsigned 32-bit subtraction of words.
abbrev pub sub32 : ℕ → ℕ → ℕ
sub32 a b = (a + 4294967296 - b) % 4294967296
