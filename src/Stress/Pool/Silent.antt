-- ===== src/Stress/Pool/Silent.antt =====
-- The operations of a pool record no failure themselves; that is left to the life of the pool.
use px_smt_multirealm_shim.Common.{ℕ, zero, suc, ◌+◌, inl, inr, refl, List, Option-cases}
use px_smt_multirealm_shim.Common.Exec.{Exec}
use px_smt_multirealm_shim.Common.Exec.Leaves.{
  Leaves, leaves_rules, Leaves-bind, Leaves-if, Leaves-fail, Leaves-pure,
}
use px_smt_multirealm_shim.Bytes.{Bytes}
use px_smt_multirealm_shim.Stress.{Options, Cluster, PoolState, run, context_ended, pause, is_late}
use px_smt_multirealm_shim.Stress.Pool.{
  value_at, forget, forget_all, set_current, etcd_put, etcd_get, poll_ready, wait_until, wait_bound,
  wait_ready, ensure, scale, recreate, kill_and_verify, delete_pvc, delete_pvcs, expect,
  kill_expected, store_fresh, check_value, reconcile_one, reconcile_from,
}

abbrev pub failed_steps : PoolState → List Bytes
failed_steps p = p.failures

-- code that records no failure
abbrev pub IsSilent : {A : Type 0} → Exec PoolState A → Type 0
IsSilent = Leaves failed_steps

module _ (w : Cluster) where
  run-IsSilent : (args : List Bytes) (stdin : Bytes) → IsSilent (run w args stdin)
  unfolding run
  run-IsSilent args stdin = record { at = λ p. refl }

  pub context-IsSilent : IsSilent (context_ended w)
  unfolding context_ended
  context-IsSilent = record { at = λ p. refl }

  late-IsSilent : (deadline : ℕ) → IsSilent (is_late w deadline)
  unfolding is_late
  late-IsSilent deadline = record { at = λ p. refl }

  pause-IsSilent : IsSilent pause
  unfolding pause
  pause-IsSilent = record { at = λ p. refl }

  pub set_current-IsSilent : (n : ℕ) → IsSilent (set_current n)
  unfolding set_current
  set_current-IsSilent n = record { at = λ p. refl }

  forget_all-IsSilent : IsSilent forget_all
  unfolding forget_all
  forget_all-IsSilent = record { at = λ p. refl }

  forget-IsSilent : (n : ℕ) → IsSilent (forget n)
  unfolding forget
  forget-IsSilent n = record { at = λ p. refl }

  expect-IsSilent : (n : ℕ) (v : Bytes) → IsSilent (expect n v)
  unfolding expect
  expect-IsSilent n v = record { at = λ p. refl }

  module _ (o : Options) (ns : Bytes) where
    poll-IsSilent : (replicas : ℕ) → IsSilent (poll_ready w o ns replicas)
    unfolding poll_ready run
    poll-IsSilent replicas = record { at = λ p. refl }

    ruleset silent_rules = (
      leaves_rules, run-IsSilent, context-IsSilent, set_current-IsSilent, forget_all-IsSilent,
      forget-IsSilent, expect-IsSilent, poll-IsSilent,
    )

    wait_until-IsSilent :
        (replicas deadline n : ℕ) → IsSilent (wait_until w o ns replicas deadline n)
    unfolding wait_until
    wait_until-IsSilent replicas deadline zero = Leaves-fail
    wait_until-IsSilent replicas deadline (suc n) = Leaves-bind _ _ context-IsSilent λ ended.
        Leaves-if ended _ _ Leaves-fail (
          Leaves-bind _ _ (poll-IsSilent replicas) λ ready. Leaves-if ready _ _ (Leaves-pure _) (
            Leaves-bind _ _ (late-IsSilent deadline) λ late.
              Leaves-if late _ _ Leaves-fail
                (Leaves-bind _ _ pause-IsSilent λ _. wait_until-IsSilent replicas deadline n)))

    wait_ready-IsSilent : (replicas : ℕ) → IsSilent (wait_ready w o ns replicas)
    unfolding wait_ready
    wait_ready-IsSilent replicas = record {
      at = λ p.
          (wait_until-IsSilent replicas (w.now p.events + o.ready_timeout) (wait_bound w o ns)).at
            p;
    }

    pub ensure-IsSilent : (replicas : ℕ) → IsSilent (ensure w o ns replicas)
    unfolding ensure
    ensure-IsSilent replicas = search (silent_rules, wait_ready-IsSilent)

    pub scale-IsSilent : (replicas : ℕ) → IsSilent (scale w o ns replicas)
    unfolding scale
    scale-IsSilent replicas = search (silent_rules, wait_ready-IsSilent)

    pub recreate-IsSilent : (replicas : ℕ) → IsSilent (recreate w o ns replicas)
    unfolding recreate
    recreate-IsSilent replicas = search (silent_rules, ensure-IsSilent)

    etcd_get-IsSilent : (ord : ℕ) → IsSilent (etcd_get w o ns ord)
    unfolding etcd_get
    etcd_get-IsSilent ord = search silent_rules

    etcd_put-IsSilent : (ord : ℕ) (v : Bytes) → IsSilent (etcd_put w o ns ord v)
    unfolding etcd_put
    etcd_put-IsSilent ord v = search silent_rules

    ruleset access_rules = (silent_rules, wait_ready-IsSilent, etcd_get-IsSilent, etcd_put-IsSilent)

    -- the probe and the check, where the pool knows whether a value is expected
    pub kill_and_verify-IsSilent : (ord : ℕ) → IsSilent (kill_and_verify w o ns ord)
    unfolding kill_and_verify
    kill_and_verify-IsSilent ord = record {
      at = λ p. elim (Option-cases (value_at ord p.expected)) [
        | inl e ↦ rw (failed_steps, e) refl
        | inr (want, e) ↦
            let probe : IsSilent (kill_expected w o ns ord want p.current) = search access_rules in
            rw (failed_steps, e) (probe.at p)
      ];
    }

    reconcile_one-IsSilent : (idx ord : ℕ) → IsSilent (reconcile_one w o ns idx ord)
    unfolding reconcile_one
    reconcile_one-IsSilent idx ord = record {
      at = λ p. elim (Option-cases (value_at ord p.expected)) [
        | inl e ↦
            let store : IsSilent (store_fresh w o ns idx ord) = search access_rules in
            rw (failed_steps, e) (store.at p)
        | inr (want, e) ↦
            let check : IsSilent (check_value w o ns ord want) = search access_rules in
            rw (failed_steps, e) (check.at p)
      ];
    }

    pub reconcile_from-IsSilent : (idx ord n : ℕ) → IsSilent (reconcile_from w o ns idx ord n)
    unfolding reconcile_from
    reconcile_from-IsSilent idx ord zero = search silent_rules
    reconcile_from-IsSilent idx ord (suc n) =
        Leaves-bind _ _ (reconcile_one-IsSilent idx ord)
          λ _. reconcile_from-IsSilent idx (suc ord) n

    pub delete_pvcs-IsSilent : (ord n : ℕ) → IsSilent (delete_pvcs w o ns ord n)
    unfolding delete_pvcs delete_pvc
    delete_pvcs-IsSilent ord zero = search silent_rules
    delete_pvcs-IsSilent ord (suc n) =
        Leaves-bind _ _ (search silent_rules) λ _. delete_pvcs-IsSilent (suc ord) n
