-- ===== src/Common/Exec.antt =====
-- Code that changes a state and may stop with an error; the state comes back in either case.
pub mod Leaves
use mathlib.Core.Option.{Option, none, some}

abbrev pub Exec {ℓ} : Type ℓ → Type ℓ → Type ℓ
Exec S A = S → Option A × S

module _ {ℓ} {S A : Type ℓ} where
  unfoldable pub pure : A → Exec S A
  pure a s = (some a, s)

  unfoldable pub fail : Exec S A
  fail s = (none, s)

module _ {ℓ} {S A B : Type ℓ} where
  abbrev pub continue : Option A → (A → Exec S B) → Exec S B
  continue (some a) f s = f a s
  continue none f s = (none, s)

  infixl 10 ◌>>=◌ ◌>>◌
  -- opening this opens `pure` and `fail` too
  unfoldable pub ◌>>=◌ : Exec S A → (A → Exec S B) → Exec S B
  unfolding pure fail
  ◌>>=◌ m f s = let (r, s') = m s in continue r f s'

  abbrev pub ◌>>◌ : Exec S A → Exec S B → Exec S B
  m >> n = m >>= λ _. n
