-- ===== src/Lab/Item/Register.antt =====
-- Writes to a last-writer-wins register commute.
use local_first_architecture.Base.{◌≡◌, arith}
use local_first_architecture.Lab.Clock.{Hlc, before}
use local_first_architecture.Lab.Clock.Order.{compare-IsTotal}
use local_first_architecture.Lab.Item.{Lww, set_register}
open compare-IsTotal use {cmp_self, cmp_eq, cmp_flip, cmp_trans}

module _ {ℓ} {A : Type ℓ} where
  -- Two writes under different stamps, or of one value, may come in either order.
  pub set_comm :
      (r : Lww A) (v w : A) (a b : Hlc)
      → (a ≡ b → v ≡ w)
      → (set_register (set_register r v a).0 w b).0 ≡ (set_register (set_register r w b).0 v a).0
  unfolding set_register before
  set_comm r v w a b same = ground (
    arith,
    cmp_flip a b,
    cmp_eq a b,
    cmp_self a,
    cmp_trans r.at a b,
    cmp_trans r.at b a,
    cmp_eq r.at a,
    cmp_eq r.at b,
    cmp_flip r.at a,
    cmp_flip r.at b,
    cmp_trans a r.at b,
    cmp_trans b r.at a,
    same,
  )
