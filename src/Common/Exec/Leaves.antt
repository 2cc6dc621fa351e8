-- ===== src/Common/Exec/Leaves.antt =====
-- What an action leaves unchanged, one rule for each way to build an action.
use px_smt_multirealm_shim.Common.{
  ◌≡◌, refl, ◌∙◌, Bool, true, false, Option, none, some, if◌then◌else◌,
}
use px_smt_multirealm_shim.Common.Exec.{Exec, pure, fail, continue, ◌>>=◌}

-- `f` reads the same after `m`, whether it succeeds or fails
pub record Leaves {ℓ} {S A B : Type ℓ} (f : S → B) (m : Exec S A) : Type ℓ where
  pub at : (s : S) → f (m s).1 ≡ f s

module _ {ℓ} {S A B : Type ℓ} {f : S → B} where
  pub Leaves-pure : (a : A) → Leaves f (pure a)
  unfolding pure
  Leaves-pure a = record { at = λ s. refl }

  pub Leaves-fail : Leaves {A = A} f fail
  unfolding fail
  Leaves-fail = record { at = λ s. refl }

  pub Leaves-if :
      (b : Bool) (m n : Exec S A) → Leaves f m → Leaves f n → Leaves f (if b then m else n)
  Leaves-if true m n hm hn = hm
  Leaves-if false m n hm hn = hn

module _ {ℓ} {S A B C : Type ℓ} {f : S → C} where
  Leaves-continue :
      (r : Option A) (k : A → Exec S B)
      → ((a : A) → Leaves f (k a))
      → (s : S) → f (continue r k s).1 ≡ f s
  Leaves-continue none k h s = refl
  Leaves-continue (some a) k h s = (h a).at s

  pub Leaves-bind :
      (m : Exec S A) (k : A → Exec S B)
      → Leaves f m
      → ((a : A) → Leaves f (k a))
      → Leaves f (m >>= k)
  unfolding ◌>>=◌
  Leaves-bind m k hm hk = record {
    at = λ s. let (r, s') = m s in Leaves-continue r k hk s' ∙ hm.at s;
  }

pub ruleset leaves_rules = (Leaves-pure, Leaves-fail, Leaves-if, Leaves-bind)
