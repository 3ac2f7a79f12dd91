-- ===== src/Lab/Sync/Delay.antt =====
-- The delays between the attempts of SyncWithBackoff.
use Prim.Native.Nat.{min}
use native.Mathlib.Omega.{pow_step}
use local_first_architecture.Base.{
  ℕ, zero, suc, ◌+◌, ◌*◌, ◌^◌, ◌≤◌, ◌<◌, ◌≡◌, refl, inl, inr, true, false, leb, arith, Bool-cases,
}
use local_first_architecture.Base.Int64.{int_zero, plus, minus, add_int}
use local_first_architecture.Lab.Sync.{double, backoff_for}

twice : (b k : ℕ) → b * 2 ^ suc k ≡ (b + b) * 2 ^ k
twice b k = rw (pow_step 2 k) (omega arith)

at_least : (b k : ℕ) → b ≤ b * 2 ^ k
at_least b zero = omega arith
at_least b (suc k) = omega (arith, twice b k, at_least (b + b) k)

add_plus : (b : ℕ) → b < 15 * 10 ^ 9 → add_int (plus b) (plus b) ≡ plus (b + b)
unfolding add_int
add_plus b h = omega arith

double_lem : (b k : ℕ) → b < 2 ^ 63 → double (plus b) k ≡ plus (min (b * 2 ^ k) (30 * 10 ^ 9))
unfolding double
double_lem b zero h = ground arith
double_lem b (suc k) h = elim (Bool-cases (leb (plus (15 * 10 ^ 9)) (plus b))) [
  | inl far ↦ rw (far, double) (ground (arith, twice b k, at_least (b + b) k))
  | inr near ↦
      let small : b < 15 * 10 ^ 9 = ground arith in
      rw (near, double)
        (rw (add_plus b small) (rw (twice b k) (double_lem (b + b) k (omega arith))))
]

-- A delay never overflows and never exceeds thirty seconds: it is the base doubled once an attempt,
-- and thirty seconds where that is more; a base that is not positive gives no delay.
pub backoff_for_bounded :
    (b k : ℕ)
    → b < 2 ^ 63
    → (backoff_for (plus b) k ≡ plus (min (b * 2 ^ k) (30 * 10 ^ 9)))
      × (backoff_for (minus b) k ≡ int_zero)
unfolding backoff_for
backoff_for_bounded zero k h = (omega arith, omega arith)
backoff_for_bounded (suc b) k h = (
  let positive : leb (plus (suc b)) int_zero ≡ false = ground arith in
      rw positive (double_lem (suc b) k h),
  let negative : leb (minus (suc b)) int_zero ≡ true = ground arith in rw negative refl,
)
