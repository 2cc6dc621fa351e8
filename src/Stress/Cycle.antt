-- ===== src/Stress/Cycle.antt =====
-- `runPool`: the life of one pool.
pub mod Failures
use px_smt_multirealm_shim.Common.{
  ℕ, zero, suc, ◌%◌, true, ◌&&◌, none, some, ◌∷◌, ◌++◌, ◌==◌, ltb, if◌then◌else◌,
}
use px_smt_multirealm_shim.Common.Exec.{Exec, pure, fail, ◌>>=◌, ◌>>◌}
use px_smt_multirealm_shim.Bytes.{Bytes, codes}
use px_smt_multirealm_shim.Bytes.Number.{decimal}
use px_smt_multirealm_shim.Stress.{Options, Cluster, PoolState, context_ended}
use px_smt_multirealm_shim.Stress.Pool.{
  set_current, ensure, scale, recreate, kill_and_verify, delete_pvcs_from, reconcile_integrity,
}

-- the entry of the recorder, up to the text of the error
abbrev pub entry : Bytes → Bytes → Bytes
entry ns step = codes "[" ++ ns ++ codes "] " ++ step

-- `rec.add`, and `cancel` if the run stops on errors
unfoldable pub record_failure : Options → Bytes → Bytes → Exec PoolState (Unit {0})
record_failure o ns step p = (
  none,
  record p {
    failures = entry ns step ∷ p.failures;
    stopped = if o.stop_on_error then true else p.stopped;
  },
)

-- The closure `fail` and the `return` behind it: an error is recorded unless the context has ended.
unfoldable pub guard :
    Cluster → Options → Bytes → Bytes → Exec PoolState (Unit {0}) → Exec PoolState (Unit {0})
unfolding context_ended record_failure
guard w o ns step m p =
    let (r, p') = m p in
    elim r [
      | some _ ↦ (some tt, p')
      | none ↦ (do ended ← context_ended w; if ended then fail else record_failure o ns step) p'
    ]

module _ (w : Cluster) (o : Options) (ns : Bytes) (idx : ℕ) where
  -- on a scale-down the volumes of the ordinals that are gone are deleted
  unfoldable pub clean_up : ℕ → Exec PoolState (Unit {0})
  clean_up target p =
      if ltb target p.current
      then guard w o ns (codes "pvc-cleanup>" ++ decimal target) (delete_pvcs_from w o ns target) p
      else (some tt, p)

  -- one target of the scale pattern
  unfoldable pub visit : ℕ → Exec PoolState (Unit {0})
  visit target = do
    ended ← context_ended w
    if ended then fail else do
      guard w o ns (codes "scale->" ++ decimal target) (scale w o ns target)
      clean_up target
      set_current target
      guard w o ns (codes "integrity@" ++ decimal target) (reconcile_integrity w o ns idx target)

  -- every so many cycles the whole pool is made anew
  unfoldable pub renew : ℕ → Exec PoolState (Unit {0})
  renew cycle =
      if ltb 0 o.recreate_each && cycle % o.recreate_each == 0
      then (do
        guard w o ns (codes "recreate") (recreate w o ns o.min)
        guard w o ns (codes "integrity(recreated)") (reconcile_integrity w o ns idx o.min))
      else pure tt

  unfoldable pub run_cycle : ℕ → Exec PoolState (Unit {0})
  run_cycle cycle = do
    visit o.mid
    visit o.max
    visit o.mid
    guard w o ns (codes "kill-pod-0") (kill_and_verify w o ns 0)
    renew cycle

  -- the first `n` cycles behind `cycle`
  unfoldable pub run_cycles : ℕ → ℕ → Exec PoolState (Unit {0})
  run_cycles cycle zero = pure tt
  run_cycles cycle (suc n) = do
    ended ← context_ended w
    if ended then fail else do run_cycle (suc cycle); run_cycles (suc cycle) n

  -- `runPool`, up to the end of its cycle `n`; none means that it has returned
  unfoldable pub run_pool : ℕ → Exec PoolState (Unit {0})
  run_pool n = do
    guard w o ns (codes "create") (ensure w o ns o.min)
    guard w o ns (codes "integrity(min)") (reconcile_integrity w o ns idx o.min)
    run_cycles 0 n
