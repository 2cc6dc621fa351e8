-- ===== src/Tests/Reports.antt =====
-- The waits of the stress tool, a run of one pool, and the report of two.
use px_smt_multirealm_shim.Common.{
  true, false, some, inl, arith, ◌/◌, ℕ, ◌+◌, ◌≤◌, ◌≡◌, ◌↔◌, ◌⊎◌, refl, sym, subst, none, List, [],
  ◌∷◌, length, All,
}
use px_smt_multirealm_shim.Common.Exec.{◌>>=◌}
use px_smt_multirealm_shim.Bytes.{Bytes, codes}
use px_smt_multirealm_shim.Stress.{run, five_seconds}
use px_smt_multirealm_shim.Stress.Pool.{
  wait_ready, reconcile_integrity, value_at, ensure, set_current, scale, fresh_value,
}
use px_smt_multirealm_shim.Stress.Pool.Turns.{commands, IsReady, IsOver, IsClock}
use px_smt_multirealm_shim.Stress.Pool.Waiting.{wait_ready_ends}
use px_smt_multirealm_shim.Stress.Cycle.{guard, visit, clean_up, run_cycle, run_cycles, run_pool}
use px_smt_multirealm_shim.Stress.Cycle.Failures.{run_pool_once}
use px_smt_multirealm_shim.Stress.Report.{
  ns_name, new_pool, pool_failures, Collects, nothing, pool, empty, left, right, finish,
}
use px_smt_multirealm_shim.Stress.Report.Exit.{AreOwn, failed, AreDeletions, report_exit}
use px_smt_multirealm_shim.Stress.Report.Distinct.{fresh_value_distinct}
use px_smt_multirealm_shim.Tests.Pools.{cluster, options, ns}

cluster-IsClock : IsClock cluster
cluster-IsClock = record {
  monotone = λ e events. omega arith;
  pauses = λ events. inl (omega arith);
}

-- the fourth poll, behind the deadline, is the last
timed_out : (wait_ready cluster options ns 3 new_pool).0 ≡ none
unfolding ◌>>=◌ wait_ready run
timed_out = refl

wait_ready_ends_example :
    (((wait_ready cluster options ns 3 new_pool).0 ≡ some tt)
        × IsReady cluster options ns 3 (wait_ready cluster options ns 3 new_pool).1.events
      ⊎ ((wait_ready cluster options ns 3 new_pool).0 ≡ none)
        × IsOver cluster options ns 3 10000000000 false
            (wait_ready cluster options ns 3 new_pool).1.events)
    × (commands (wait_ready cluster options ns 3 new_pool).1.events
        ≤ commands new_pool.events + (10000000000 / five_seconds + 2))
wait_ready_ends_example = wait_ready_ends cluster options ns 3 new_pool cluster-IsClock

run_pool_once_example :
    (((run_pool cluster options ns 0 3 new_pool).0 ≡ none)
      ⊎ ((run_pool cluster options ns 0 3 new_pool).1.failures ≡ new_pool.failures))
    × (length (run_pool cluster options ns 0 3 new_pool).1.failures ≤ length new_pool.failures + 1)
run_pool_once_example = run_pool_once cluster options ns 0 3 new_pool

-- the value that both pools read back is not the one they stored
abbrev both : List Bytes
both = codes "[pxstress-0] integrity@1" ∷ codes "[pxstress-1] integrity@1" ∷ []

both_lost :
    pool_failures options 1 0 (cluster ∷ cluster ∷ [])
    ≡ (codes "[pxstress-0] integrity@1" ∷ []) ∷ (codes "[pxstress-1] integrity@1" ∷ []) ∷ []
unfolding ◌>>=◌ pool_failures run_pool guard ensure run set_current wait_ready reconcile_integrity
    value_at run_cycles run_cycle visit scale clean_up fresh_value ns_name
both_lost = refl

reported : Collects (pool_failures options 1 0 (cluster ∷ cluster ∷ [])) both
reported =
    subst (λ fs. Collects fs both) (sym both_lost)
      (pool (pool nothing (left empty)) (left (right empty)))

report_exit_example :
    AreOwn options 0 (pool_failures options 1 0 (cluster ∷ cluster ∷ []))
    × (length both ≡ failed (pool_failures options 1 0 (cluster ∷ cluster ∷ [])))
    × (((finish options true 2 both).1 ≡ 0)
        ↔ All
            (λ (f : List Bytes). length f ≡ 0)
            (pool_failures options 1 0 (cluster ∷ cluster ∷ [])))
    × AreDeletions options 2 (finish options true 2 both).0
report_exit_example = report_exit options true 1 (cluster ∷ cluster ∷ []) both reported

-- the third instance of the second pool
abbrev second : ℕ
second = 1

abbrev third : ℕ
third = 2

fresh_value_distinct_example : (second ≡ second) × (third ≡ third)
fresh_value_distinct_example = fresh_value_distinct cluster options second second third third refl
