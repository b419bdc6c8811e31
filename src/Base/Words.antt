-- ===== src/Base/Words.antt =====
-- Words of `w` bits as bit patterns below `2 ^ w`, and what the C operators do to them.
use Prim.Native.Nat.{ℕ, ◌+◌, ◌-◌, ◌%◌, ◌^◌}
use mathlib.Core.Bool.{Bool, ◌&&◌}
use libult.Base.Tests.{ltb, leb}

-- `a + b` and `a - b` in `w` bits, with wrap-around.
abbrev pub add_word : ℕ → ℕ → ℕ → ℕ
add_word w a b = (a + b) % 2 ^ w

abbrev pub sub_word : ℕ → ℕ → ℕ → ℕ
sub_word w a b = (a + 2 ^ w - b) % 2 ^ w

-- `-a` in `w` bits.
abbrev pub neg_word : ℕ → ℕ → ℕ
neg_word w a = (2 ^ w - a) % 2 ^ w

-- `a > 0` where the pattern is read as an `int32_t`.
abbrev pub is_pos32 : ℕ → Bool
is_pos32 a = ltb 0 a && ltb a (2 ^ 31)

-- `a <= b` where both patterns are read as an `int32_t`.
abbrev pub leb_int32 : ℕ → ℕ → Bool
leb_int32 a b = leb (add_word 32 a (2 ^ 31)) (add_word 32 b (2 ^ 31))
