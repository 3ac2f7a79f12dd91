-- ===== src/Base/Int64.antt =====
-- Go's int64, with its wrap-around. The integer v is represented by the number v + 2 ^ 63, so that
-- the order of the integers is the order of the numbers; representations are below 2 ^ 64.
use Prim.Native.Nat.{ℕ, ◌+◌, ◌-◌, ◌%◌, ◌^◌, ◌<◌}
use mathlib.Core.Path.{◌≡◌}
use mathlib.Core.Bool.{Bool}
use native.Mathlib.Omega.{arith}
use local_first_architecture.Base.Tests.{ltb}

abbrev pub Int64 : Type 0
Int64 = ℕ

abbrev pub int_mod : ℕ
int_mod = 2 ^ 64

-- The integer 0.
abbrev pub int_zero : Int64
int_zero = 2 ^ 63

-- math.MinInt64
abbrev pub min_int : Int64
min_int = 0

-- math.MaxInt64
abbrev pub max_int : Int64
max_int = 2 ^ 64 - 1

-- The integers n and -n.
abbrev pub plus : ℕ → Int64
plus n = 2 ^ 63 + n

abbrev pub minus : ℕ → Int64
minus n = 2 ^ 63 - n

unfoldable pub add_int : Int64 → Int64 → Int64
add_int a b = (a + b + 2 ^ 63) % 2 ^ 64

unfoldable pub sub_int : Int64 → Int64 → Int64
sub_int a b = (a + (2 ^ 64 - b % 2 ^ 64) + 2 ^ 63) % 2 ^ 64

-- The negative of math.MinInt64 is math.MinInt64.
unfoldable pub neg_int : Int64 → Int64
neg_int a = (2 ^ 64 - a % 2 ^ 64) % 2 ^ 64

abbrev pub is_negative : Int64 → Bool
is_negative a = ltb a (2 ^ 63)

abbrev pub InInt : Int64 → Type 0
InInt a = a < 2 ^ 64

pub add_int_comm : (a b : Int64) → add_int a b ≡ add_int b a
unfolding add_int
add_int_comm a b = omega arith

pub add_int_assoc : (a b c : Int64) → add_int (add_int a b) c ≡ add_int a (add_int b c)
unfolding add_int
add_int_assoc a b c = omega arith

pub add_int_right_comm : (a b c : Int64) → add_int (add_int a b) c ≡ add_int (add_int a c) b
unfolding add_int
add_int_right_comm a b c = omega arith

pub add_int-zero : (a : Int64) → InInt a → add_int a (2 ^ 63) ≡ a
unfolding add_int
add_int-zero a h = omega arith

pub add_int-InInt : (a b : Int64) → InInt (add_int a b)
unfolding add_int
add_int-InInt a b = omega arith

pub sub_int-InInt : (a b : Int64) → InInt (sub_int a b)
unfolding sub_int
sub_int-InInt a b = omega arith

pub sub_int-eq-add-neg : (a b : Int64) → sub_int a b ≡ add_int a (neg_int b)
unfolding sub_int add_int neg_int
sub_int-eq-add-neg a b = omega arith

pub sub-add_int : (a b : Int64) → InInt a → add_int (sub_int a b) b ≡ a
unfolding sub_int add_int
sub-add_int a b h = omega arith

pub neg-neg_int : (a : Int64) → InInt a → neg_int (neg_int a) ≡ a
unfolding neg_int
neg-neg_int a h = omega arith
