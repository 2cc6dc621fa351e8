-- ===== src/Stress/Cycle/Failures.antt =====
-- A pool stops at its first failure.
use px_smt_multirealm_shim.Common.{
  ℕ, zero, suc, ◌+◌, ◌-◌, ◌≤◌, ◌≡◌, ◌⊎◌, ◌∙◌, ap, inl, inr, Bool, true, false, none, some, ◌++◌,
  length, Option-cases, Bool-cases, refl, ltb, ◌||◌, List, ◌∷◌, subst, arith, if◌then◌else◌,
}
use px_smt_multirealm_shim.Common.Exec.{Exec, ◌>>=◌}
use px_smt_multirealm_shim.Common.Exec.Leaves.{Leaves-fail, Leaves-pure}
use px_smt_multirealm_shim.Bytes.{Bytes, codes}
use px_smt_multirealm_shim.Bytes.Number.{decimal}
use px_smt_multirealm_shim.Stress.{Options, Cluster, PoolState, context_ended}
use px_smt_multirealm_shim.Stress.Pool.{delete_pvcs_from, reconcile_integrity}
use px_smt_multirealm_shim.Stress.Pool.Turns.{some_not_none}
use px_smt_multirealm_shim.Stress.Cycle.{
  entry, record_failure, guard, clean_up, visit, renew, run_cycle, run_cycles, run_pool,
}
use px_smt_multirealm_shim.Stress.Pool.Silent.{
  IsSilent, context-IsSilent, set_current-IsSilent, scale-IsSilent, recreate-IsSilent,
  ensure-IsSilent, kill_and_verify-IsSilent, reconcile_from-IsSilent, delete_pvcs-IsSilent,
}

-- what is recorded, or one entry of the namespace and that
abbrev pub Adds : Bytes → List Bytes → List Bytes → Type 0
Adds ns before after = (after ≡ before) ⊎ ((step : Bytes) × (after ≡ entry ns step ∷ before))

length-Adds :
    (ns : Bytes) (before after : List Bytes)
    → Adds ns before after
    → length after ≤ length before + 1
length-Adds ns before after (inl e) = omega (arith, ap length e)
length-Adds ns before after (inr (step, e)) = omega (arith, ap length e)

-- code that goes on only if it has recorded no failure, and records at most one, of its namespace
record StopsAtFirst {A : Type 0} (ns : Bytes) (m : Exec PoolState A) : Type 0 where
  goes_on : (p : PoolState) (x : A) → (m p).0 ≡ some x → (m p).1.failures ≡ p.failures
  adds : (p : PoolState) → Adds ns p.failures (m p).1.failures

module _ {A : Type 0} (ns : Bytes) where
  StopsAtFirst-silent : (m : Exec PoolState A) → IsSilent m → StopsAtFirst ns m
  StopsAtFirst-silent m h = record { goes_on = λ p x e. h.at p; adds = λ p. inl (h.at p) }

  StopsAtFirst-if :
      (b : Bool) (m k : Exec PoolState A)
      → StopsAtFirst ns m
      → StopsAtFirst ns k
      → StopsAtFirst ns (if b then m else k)
  StopsAtFirst-if true m k hm hk = hm
  StopsAtFirst-if false m k hm hk = hk

module _ {A B : Type 0} (ns : Bytes) where
  StopsAtFirst-bind :
      (m : Exec PoolState A) (k : A → Exec PoolState B)
      → StopsAtFirst ns m
      → ((x : A) → StopsAtFirst ns (k x))
      → StopsAtFirst ns (m >>= k)
  unfolding ◌>>=◌
  StopsAtFirst-bind m k hm hk = record {
    goes_on = λ p y h. elim (Option-cases (m p).0) [
      | inl e ↦ absurd (some_not_none (rw e at h))
      | inr (x, e) ↦ rw e ((hk x).goes_on (m p).1 y (rw e at h) ∙ hm.goes_on p x e)
    ];
    adds = λ p. elim (Option-cases (m p).0) [
      | inl e ↦ rw e (hm.adds p)
      | inr (x, e) ↦
          rw e (
            subst (λ f. Adds ns f (k x (m p).1).1.failures) (hm.goes_on p x e)
              ((hk x).adds (m p).1))
    ];
  }

module _ (w : Cluster) (o : Options) (ns : Bytes) where
  guard-StopsAtFirst :
      (step : Bytes) (m : Exec PoolState (Unit {0}))
      → IsSilent m
      → StopsAtFirst ns (guard w o ns step m)
  unfolding guard context_ended record_failure ◌>>=◌
  guard-StopsAtFirst step m h = record {
    goes_on = λ p x e. ground (arith, h.at p);
    adds = λ p. elim (Option-cases (m p).0) [
      | inr (x, e) ↦ rw (e, guard) (inl (h.at p))
      | inl e ↦ elim (Bool-cases ((m p).1.stopped || w.cancelled (m p).1.events)) [
        | inl b ↦ rw (e, guard) (rw b (inl (h.at p)))
        | inr b ↦ rw (e, guard) (rw b (inr (step, ap (λ f. entry ns step ∷ f) (h.at p))))
      ]
    ];
  }

  module _ (idx : ℕ) where
    integrity-StopsAtFirst :
        (step : Bytes) (n : ℕ)
        → StopsAtFirst ns (guard w o ns step (reconcile_integrity w o ns idx n))
    unfolding reconcile_integrity
    integrity-StopsAtFirst step n =
        guard-StopsAtFirst step _ (reconcile_from-IsSilent w o ns idx 0 n)

    clean_up-StopsAtFirst : (target : ℕ) → StopsAtFirst ns (clean_up w o ns idx target)
    unfolding clean_up delete_pvcs_from
    clean_up-StopsAtFirst target =
        let removal =
          guard-StopsAtFirst (codes "pvc-cleanup>" ++ decimal target) _
            (delete_pvcs-IsSilent w o ns target (o.max + 1 - target)) in
        record {
          goes_on = λ p x e. ground (arith, removal.goes_on p x);
          adds = λ p. elim (Bool-cases (ltb target p.current)) [
            | inl b ↦ rw b (removal.adds p)
            | inr b ↦ rw b (inl refl)
          ];
        }

    visit-StopsAtFirst : (target : ℕ) → StopsAtFirst ns (visit w o ns idx target)
    unfolding visit
    visit-StopsAtFirst target =
        StopsAtFirst-bind ns _ _ (StopsAtFirst-silent ns _ (context-IsSilent w)) λ ended.
          StopsAtFirst-if ns ended _ _ (StopsAtFirst-silent ns _ Leaves-fail) (
            StopsAtFirst-bind ns _ _ (guard-StopsAtFirst _ _ (scale-IsSilent w o ns target)) λ _.
              StopsAtFirst-bind ns _ _ (clean_up-StopsAtFirst target) λ _.
                StopsAtFirst-bind ns _ _ (StopsAtFirst-silent ns _ (set_current-IsSilent w target))
                  λ _. integrity-StopsAtFirst _ target)

    renew-StopsAtFirst : (cycle : ℕ) → StopsAtFirst ns (renew w o ns idx cycle)
    unfolding renew
    renew-StopsAtFirst cycle =
        StopsAtFirst-if ns _ _ _
          (StopsAtFirst-bind ns _ _ (guard-StopsAtFirst _ _ (recreate-IsSilent w o ns o.min))
            λ _. integrity-StopsAtFirst _ o.min)
          (StopsAtFirst-silent ns _ (Leaves-pure _))

    run_cycle-StopsAtFirst : (cycle : ℕ) → StopsAtFirst ns (run_cycle w o ns idx cycle)
    unfolding run_cycle
    run_cycle-StopsAtFirst cycle = StopsAtFirst-bind ns _ _ (visit-StopsAtFirst o.mid) λ _.
        StopsAtFirst-bind ns _ _ (visit-StopsAtFirst o.max) λ _.
          StopsAtFirst-bind ns _ _ (visit-StopsAtFirst o.mid) λ _.
            StopsAtFirst-bind ns _ _ (guard-StopsAtFirst _ _ (kill_and_verify-IsSilent w o ns 0))
              λ _. renew-StopsAtFirst cycle

    run_cycles-StopsAtFirst : (cycle n : ℕ) → StopsAtFirst ns (run_cycles w o ns idx cycle n)
    unfolding run_cycles
    run_cycles-StopsAtFirst cycle zero = StopsAtFirst-silent ns _ (Leaves-pure _)
    run_cycles-StopsAtFirst cycle (suc n) =
        StopsAtFirst-bind ns _ _ (StopsAtFirst-silent ns _ (context-IsSilent w)) λ ended.
          StopsAtFirst-if ns ended _ _ (StopsAtFirst-silent ns _ Leaves-fail) (
            StopsAtFirst-bind ns _ _ (run_cycle-StopsAtFirst (suc cycle))
              λ _. run_cycles-StopsAtFirst (suc cycle) n)

    run_pool-StopsAtFirst : (n : ℕ) → StopsAtFirst ns (run_pool w o ns idx n)
    unfolding run_pool
    run_pool-StopsAtFirst n =
        StopsAtFirst-bind ns _ _ (guard-StopsAtFirst _ _ (ensure-IsSilent w o ns o.min)) λ _.
          StopsAtFirst-bind ns _ _ (integrity-StopsAtFirst _ o.min) λ _. run_cycles-StopsAtFirst 0 n

    pub run_pool-Adds :
        (n : ℕ) (p : PoolState) → Adds ns p.failures (run_pool w o ns idx n p).1.failures
    run_pool-Adds n = (run_pool-StopsAtFirst n).adds

    -- In any number of cycles a pool records at most one failure, and none unless it has stopped.
    pub run_pool_once :
        (n : ℕ) (p : PoolState)
        → (((run_pool w o ns idx n p).0 ≡ none)
            ⊎ ((run_pool w o ns idx n p).1.failures ≡ p.failures))
          × (length (run_pool w o ns idx n p).1.failures ≤ length p.failures + 1)
    run_pool_once n p =
        let stops = run_pool-StopsAtFirst n in
        (
          elim (Option-cases (run_pool w o ns idx n p).0) [
            | inl e ↦ inl e
            | inr (x, e) ↦ inr (stops.goes_on p x e)
          ],
          length-Adds ns p.failures (run_pool w o ns idx n p).1.failures (stops.adds p),
        )
