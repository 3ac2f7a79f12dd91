-- ===== src/Warehouse/Samples.antt =====
-- A world for tests: whole quantities, and instants in days.
use local_first_architecture.Base.{
  ℕ, ◌+◌, ◌-◌, ◌*◌, ◌^◌, ◌≤◌, String, ◌≡◌, refl, Bool, true, false, not, nat_beq, ltb, leb, arith,
  if◌then◌else◌,
}
use local_first_architecture.Base.Int64.{plus, sub_int}
use local_first_architecture.Warehouse.World.{World, RoundsWell, CountsExactly}

pub data ℤ : Type 0 where
  pos : ℕ → ℤ
  negsuc : ℕ → ℤ

-- a - b
abbrev pub diff : ℕ → ℕ → ℤ
diff a b = if leb b a then pos (a - b) else negsuc (b - a - 1)

infixl 60 ◌+ℤ◌
abbrev pub ◌+ℤ◌ : ℤ → ℤ → ℤ
pos a +ℤ pos b = pos (a + b)
pos a +ℤ negsuc b = diff a (b + 1)
negsuc a +ℤ pos b = diff b (a + 1)
negsuc a +ℤ negsuc b = negsuc (a + b + 1)

abbrev pub neg : ℤ → ℤ
neg (pos a) = diff 0 a
neg (negsuc a) = pos (a + 1)

abbrev pub mul : ℤ → ℤ → ℤ
mul (pos a) (pos b) = pos (a * b)
mul (pos a) (negsuc b) = diff 0 (a * (b + 1))
mul (negsuc a) (pos b) = diff 0 ((a + 1) * b)
mul (negsuc a) (negsuc b) = pos ((a + 1) * (b + 1))

abbrev pub is_below : ℤ → ℤ → Bool
is_below (pos a) (pos b) = ltb a b
is_below (pos a) (negsuc b) = false
is_below (negsuc a) (pos b) = true
is_below (negsuc a) (negsuc b) = ltb b a

abbrev pub same_int : ℤ → ℤ → Bool
same_int (pos a) (pos b) = nat_beq a b
same_int (pos a) (negsuc b) = false
same_int (negsuc a) (pos b) = false
same_int (negsuc a) (negsuc b) = nat_beq a b

abbrev pub whole : World
whole = record {
  Qty = ℤ;
  zero = pos 0;
  one = pos 1;
  add = ◌+ℤ◌;
  sub = λ a b. a +ℤ neg b;
  mul = mul;
  neg = neg;
  lt = is_below;
  le = λ a b. not (is_below b a);
  same = same_int;
  is_nan = λ a. false;
  is_inf = λ a. false;
  Time = ℕ;
  no_time = 0;
  is_zero = λ t. nat_beq t 0;
  utc = λ t. t;
  before = ltb;
  elapsed = λ t u. sub_int (plus t) (plus u);
  unix_milli = λ t. plus (t * 86400000);
  add_days = λ t days. t + (days - 2 ^ 63);
  day_after = λ t. t + 1;
  Raw = String;
}

take_away_lem : (a b : ℤ) → is_below a b ≡ false → is_below (a +ℤ neg b) (pos 0) ≡ false
take_away_lem (pos a) (pos b) h = ground arith
take_away_lem (pos a) (negsuc b) h = ground arith
take_away_lem (negsuc a) (pos b) h = ground arith
take_away_lem (negsuc a) (negsuc b) h = ground arith

put_in_lem :
    (a b : ℤ)
    → is_below a (pos 0) ≡ false
    → is_below b (pos 0) ≡ false
    → is_below (a +ℤ b) (pos 0) ≡ false
put_in_lem (pos a) (pos b) h k = ground arith
put_in_lem (pos a) (negsuc b) h k = ground arith
put_in_lem (negsuc a) b h k = ground arith

scale_lem :
    (a b : ℤ)
    → is_below a (pos 0) ≡ false
    → is_below b (pos 0) ≡ false
    → is_below (mul a b) (pos 0) ≡ false
scale_lem (pos a) (pos b) h k = ltb-zero (a * b)
  where
    ltb-zero : (n : ℕ) → ltb n 0 ≡ false
    ltb-zero n = ground arith
scale_lem (pos a) (negsuc b) h k = ground arith
scale_lem (negsuc a) b h k = ground arith

not_below : (a : ℤ) → not (is_below (pos 0) a) ≡ false → is_below a (pos 0) ≡ false
not_below (pos a) h = ground arith
not_below (negsuc a) h = ground arith

same_not_below : (a : ℤ) → same_int a (pos 0) ≡ true → is_below a (pos 0) ≡ false
same_not_below (pos a) h = ground arith
same_not_below (negsuc a) h = ground arith

pub whole-RoundsWell : RoundsWell whole
whole-RoundsWell = record {
  sub_neg = λ a b. refl;
  take_away = take_away_lem;
  put_in = put_in_lem;
  zero_same = same_not_below;
  zero_least = refl;
  positive = λ a h k. not_below a k;
  scale = scale_lem;
}

pub take_units : (a b : ℕ) → b ≤ a → pos a +ℤ neg (pos b) ≡ pos (a - b)
take_units a b h = ground arith

pub take_more : (a b : ℕ) → a ≤ b → not (is_below (pos 0) (pos a +ℤ neg (pos b))) ≡ true
take_more a b h = ground arith

pub compare_units : (a b : ℕ) → not (is_below (pos b) (pos a)) ≡ leb a b
compare_units a b = ground arith

abbrev pub whole-CountsExactly : CountsExactly whole
whole-CountsExactly = record {
  units = pos;
  no_units = refl;
  add_units = λ a b h. refl;
  sub_units = λ a b h k. take_units a b h;
  sub_more = λ a b h k. take_more a b h;
  le_units = λ a b h k. compare_units a b;
  lt_units = λ a b h k. refl;
}
