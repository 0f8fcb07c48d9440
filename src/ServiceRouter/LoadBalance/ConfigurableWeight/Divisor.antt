-- ===== src/ServiceRouter/LoadBalance/ConfigurableWeight/Divisor.antt =====
-- `Gcd`: for a positive second argument it returns, and returns the greatest common divisor.
use Prim.Native.Nat.{◌∣◌}
use mathlib.Core.Logic.{dif_pos, dif_neg}
use mathlib.Core.WellFounded.{Acc}
use native.Mathlib.Nat.{ℕ_set, mod_self, dvd-mod_iff, dvd_iff_mod-eq-zero, dvd_refl}
use native.Mathlib.Bridge.{le_prop}
use native.Mathlib.Decide.{dec_lt, ℕ_discrete}
use laser_db.Base.{ℕ, ◌%◌, ◌<◌, ◌≡◌, refl, arith, returned, panicked}
use laser_db.Base.Order.{lt_wf}
use laser_db.ServiceRouter.LoadBalance.ConfigurableWeight.{gcd, gcd_acc}

pub record IsGcd (a b d : ℕ) : Type 0 where
  pub positive : 0 < d
  pub left : d ∣ a
  pub right : d ∣ b
  pub greatest : (c : ℕ) → c ∣ a → c ∣ b → c ∣ d

gcd_acc-IsGcd :
    (a b : ℕ) (w : Acc ◌<◌ b) → 0 < b → (d : ℕ) × (gcd_acc a b w ≡ returned d) × IsGcd a b d
unfolding gcd_acc
gcd_acc-IsGcd a b (Acc.intro _ smaller) h = elim (ℕ_discrete (a % b) 0) [
  | yes p ↦ (
    b,
    rw (dif_pos (dec_lt 0 b) le_prop h) (rw (dif_pos (ℕ_discrete (a % b) 0) (ℕ_set _ _) p)),
    record {
      positive = h;
      left = (dvd_iff_mod-eq-zero b).1 p;
      right = dvd_refl b;
      greatest = λ c l r. r;
    },
  )
  | no p ↦
      let (d, e, g) = gcd_acc-IsGcd b (a % b) (smaller (a % b) (omega arith)) (omega arith) in
      (
        d,
        rw (dif_pos (dec_lt 0 b) le_prop h) (rw (dif_neg (ℕ_discrete (a % b) 0) p) e),
        record {
          positive = g.positive;
          left = (dvd-mod_iff d g.left).0 g.right;
          right = g.left;
          greatest = λ c l r. g.greatest c r ((dvd-mod_iff c r).1 l);
        },
      )
]

gcd_acc_self : (a : ℕ) (w : Acc ◌<◌ a) → 0 < a → gcd_acc a a w ≡ returned a
unfolding gcd_acc
gcd_acc_self a (Acc.intro _ smaller) h =
    rw (dif_pos (dec_lt 0 a) le_prop h)
      (rw (dif_pos (ℕ_discrete (a % a) 0) (ℕ_set _ _) (mod_self a)))

-- The result of `Gcd(a, b)` for b above 0 divides both, and every common divisor divides it.
pub gcd-IsGcd : (a b : ℕ) → 0 < b → (d : ℕ) × (gcd a b ≡ returned d) × IsGcd a b d
unfolding gcd
gcd-IsGcd a b h = gcd_acc-IsGcd a b (lt_wf.apply b) h

-- `Gcd(a, 0)` panics: a division by zero.
pub gcd_zero : (a : ℕ) → gcd a 0 ≡ panicked
unfolding gcd gcd_acc
gcd_zero a = refl

pub gcd_self : (a : ℕ) → 0 < a → gcd a a ≡ returned a
unfolding gcd
gcd_self a h = gcd_acc_self a (lt_wf.apply a) h
