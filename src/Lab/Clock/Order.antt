-- ===== src/Lab/Clock/Order.antt =====
-- Timestamps are totally ordered.
use local_first_architecture.Base.{ℕ, String, arith}
use local_first_architecture.Base.Order.{IsTotal, lex-IsTotal, nat-IsTotal, text-IsTotal}
use local_first_architecture.Lab.Clock.{Hlc, compare}

-- `Compare` is a strict total order: it says 0 of equal timestamps alone, changing the sides changes the sign,
-- and "before" is transitive.
pub compare-IsTotal : IsTotal compare
unfolding compare
compare-IsTotal =
    lex-IsTotal {X = Hlc} {B = ℕ × String} nat-IsTotal
      (lex-IsTotal nat-IsTotal text-IsTotal (λ p. p.0) (λ p. p.1) (λ x y h k. ground arith))
      (λ h. h.wall) (λ h. (h.logical, h.node)) (λ x y h k. ground arith)
