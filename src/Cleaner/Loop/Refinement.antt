-- ===== src/Cleaner/Loop/Refinement.antt =====
-- Any sequence of passes of the cleaner against their description on a function and a list.
use px_smt_multirealm_shim.Common.{
  ℕ, ◌≡◌, refl, ◌∙◌, ap, Bool, true, false, List, [], ◌∷◌, All, if◌then◌else◌,
}
use mathlib.Core.Path.{ap₂, fun_ext}
use px_smt_multirealm_shim.Bytes.{Bytes}
use px_smt_multirealm_shim.Cleaner.{Config, Command}
use px_smt_multirealm_shim.Cleaner.Scan.{Trigger, streak}
use px_smt_multirealm_shim.Cleaner.Scan.Teardown.{Answers, steady, disconnects}
use px_smt_multirealm_shim.Cleaner.Scan.Refinement.{
  AreDistinct, listing, is_silent, described_pass, pass_streak, pass_disconnects,
}
use px_smt_multirealm_shim.Cleaner.Loop.{State, scan}

-- what is left of a state when the order of its streaks, the streaks that are 0, and the commands that
-- only look are forgotten
abbrev pub view : State → (Bytes → ℕ) × List Command
view st = (streak st.orphan_streak, disconnects st.log)

-- the scans of `main`, in the order in which its ticks and tokens come; a node may change between two
-- of them
unfoldable pub scans : Config → List (Answers × Trigger) → State → State
unfolding scan
scans cfg [] st = st
scans cfg ((answer, trigger) ∷ ps) st = scans cfg ps (scan (steady answer) cfg trigger st)

abbrev pub replay :
    Config → List (Answers × Trigger) → (Bytes → ℕ) × List Command → (Bytes → ℕ) × List Command
replay cfg [] s = s
replay cfg ((answer, trigger) ∷ ps) s = replay cfg ps (described_pass answer cfg trigger s)

-- a pair that agrees in each part with one of two pairs, by one test
either_pair {ℓ} :
    {A B C : Type ℓ} (b : Bool) (f g h : A → B) (l m n : C)
    → ((v : A) → f v ≡ (if b then g v else h v))
    → l ≡ (if b then m else n)
    → ◌≡◌ {A = (A → B) × C} (f, l) (if b then (g, m) else (h, n))
either_pair {A = A} {B} {C} true f g h l m n e d =
    ap₂ {C = (A → B) × C} (λ x y. (x, y)) (fun_ext e) d
either_pair {A = A} {B} {C} false f g h l m n e d =
    ap₂ {C = (A → B) × C} (λ x y. (x, y)) (fun_ext e) d

pub scan_view :
    (cfg : Config) (answer : Answers) (trigger : Trigger) (st : State)
    → AreDistinct (listing answer)
    → view (scan (steady answer) cfg trigger st) ≡ described_pass answer cfg trigger (view st)
unfolding scan
scan_view cfg answer trigger st d =
    either_pair (is_silent answer cfg trigger) _ _ _ _ _ _
      (λ v. pass_streak answer cfg trigger st.orphan_streak st.log v d)
      (pass_disconnects answer cfg trigger st.orphan_streak st.log d)

-- Over any sequence of scans, in each of which the node's answers depend on the command alone and its
-- listing names no map twice, the streaks and the disconnecting commands are those of the description.
pub clean_refines :
    (cfg : Config) (ps : List (Answers × Trigger)) (st : State)
    → All (λ (p : Answers × Trigger). AreDistinct (listing p.0)) ps
    → view (scans cfg ps st) ≡ replay cfg ps (view st)
unfolding scans
clean_refines cfg [] st h = refl
clean_refines cfg ((answer, trigger) ∷ ps) st (d, h) =
    clean_refines cfg ps (scan (steady answer) cfg trigger st) h
    ∙ ap (replay cfg ps) (scan_view cfg answer trigger st d)
