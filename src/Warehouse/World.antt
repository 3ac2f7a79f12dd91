-- ===== src/Warehouse/World.antt =====
-- What the warehouse takes from outside its own code: the float64 arithmetic of its quantities, the
-- calendar of package time, and the bytes of encoding/json.
use local_first_architecture.Base.{ℕ, ◌+◌, ◌-◌, ◌^◌, ◌≤◌, ◌≡◌, Bool, true, false, leb, ltb}
use local_first_architecture.Base.Int64.{Int64}

pub record World : Type 1 where
  -- float64: `lt`, `le` and `same` are the comparisons <, <= and ==, which are false of a NaN.
  pub Qty : Type 0
  pub zero : Qty
  pub one : Qty
  pub add : Qty → Qty → Qty
  pub sub : Qty → Qty → Qty
  pub mul : Qty → Qty → Qty
  pub neg : Qty → Qty
  pub lt : Qty → Qty → Bool
  pub le : Qty → Qty → Bool
  pub same : Qty → Qty → Bool
  pub is_nan : Qty → Bool
  pub is_inf : Qty → Bool
  -- time.Time and time.Duration
  pub Time : Type 0
  pub no_time : Time
  pub is_zero : Time → Bool
  pub utc : Time → Time
  pub before : Time → Time → Bool
  pub elapsed : Time → Time → Int64  -- now.Sub(t)
  pub unix_milli : Time → Int64
  pub add_days : Time → Int64 → Time  -- t.AddDate(0, 0, days)
  pub day_after : Time → Time  -- time.Date(y, m, d+1, 0, 0, 0, 0, time.UTC) of y, m, d := t.Date()
  -- json.RawMessage
  pub Raw : Type 0

-- What the guards on stock rely on, and IEEE 754 gives: a difference that is not negative before
-- rounding is not negative after it, and so for a sum and a product. A NaN is less than nothing.
pub record RoundsWell (w : World) : Type 0 where
  pub sub_neg : (a b : w.Qty) → w.sub a b ≡ w.add a (w.neg b)
  pub take_away : (a b : w.Qty) → w.lt a b ≡ false → w.lt (w.add a (w.neg b)) w.zero ≡ false
  pub put_in :
      (a b : w.Qty)
      → w.lt a w.zero ≡ false
      → w.lt b w.zero ≡ false
      → w.lt (w.add a b) w.zero ≡ false
  pub zero_same : (a : w.Qty) → w.same a w.zero ≡ true → w.lt a w.zero ≡ false
  pub zero_least : w.lt w.zero w.zero ≡ false
  pub positive : (a : w.Qty) → w.is_nan a ≡ false → w.le a w.zero ≡ false → w.lt a w.zero ≡ false
  pub scale :
      (a b : w.Qty)
      → w.lt a w.zero ≡ false
      → w.lt b w.zero ≡ false
      → w.lt (w.mul a b) w.zero ≡ false

-- Counts in whole units, which float64 holds exactly up to 2 ^ 53, with their sums, their differences
-- and their order. Nothing is said of other quantities, nor of larger ones.
pub record CountsExactly (w : World) : Type 0 where
  pub units : ℕ → w.Qty
  pub no_units : units 0 ≡ w.zero
  pub add_units : (a b : ℕ) → a + b ≤ 2 ^ 53 → w.add (units a) (units b) ≡ units (a + b)
  pub sub_units : (a b : ℕ) → b ≤ a → a ≤ 2 ^ 53 → w.sub (units a) (units b) ≡ units (a - b)
  pub sub_more : (a b : ℕ) → a ≤ b → b ≤ 2 ^ 53 → w.le (w.sub (units a) (units b)) w.zero ≡ true
  pub le_units : (a b : ℕ) → a ≤ 2 ^ 53 → b ≤ 2 ^ 53 → w.le (units a) (units b) ≡ leb a b
  pub lt_units : (a b : ℕ) → a ≤ 2 ^ 53 → b ≤ 2 ^ 53 → w.lt (units a) (units b) ≡ ltb a b
