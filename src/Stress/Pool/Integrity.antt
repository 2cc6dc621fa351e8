-- ===== src/Stress/Pool/Integrity.antt =====
-- What a check of the instances that finds no loss has established.
use native.Mathlib.Decide.{ℕ_discrete}
use px_smt_multirealm_shim.Common.{
  ℕ, zero, suc, ◌+◌, ◌<◌, ◌≤◌, ◌≡◌, ◌≢◌, ◌⊎◌, inl, inr, ap, refl, true, none, some, List, [], ◌∷◌,
  ◌++◌, subst, Option-cases, arith,
}
use px_smt_multirealm_shim.Common.Exec.{◌>>=◌}
use px_smt_multirealm_shim.Bytes.{Bytes, codes, same_iff}
use px_smt_multirealm_shim.Bytes.Split.{trim_space}
use px_smt_multirealm_shim.Stress.{Options, Cluster, PoolState, Event, ran, run}
use px_smt_multirealm_shim.Stress.Pool.Turns.{some_not_none, IsReady}
use px_smt_multirealm_shim.Stress.Pool.Waiting.{ready-Extends, wait_ready-IsReady}
use px_smt_multirealm_shim.Stress.Pool.{
  value_at, get_command, in_ns, pod_name, etcd_put, etcd_get, expect, reconcile_one, reconcile_from,
  reconcile_integrity, kill_and_verify, wait_ready, kill_expected, check_value,
}

lt_of : (a b : ℕ) → a ≤ b → a ≢ b → a < b
lt_of a b h n = ground arith

module _ (w : Cluster) (o : Options) (ns : Bytes) where
  -- a read of the instance is among the events, and gave the value
  abbrev pub WasRead : ℕ → Bytes → List Event → Type 0
  WasRead ord v [] = ⊥
  WasRead ord v (e ∷ before) =
      ((e ≡ ran (get_command w o ns ord) [])
        × ((w.ask before (get_command w o ns ord) []).1 ≡ true)
        × (trim_space (w.ask before (get_command w o ns ord) []).0 ≡ v))
      ⊎ WasRead ord v before

  module _ (idx ord : ℕ) (p : PoolState) where
    one_keeps :
        (j : ℕ) (v : Bytes)
        → value_at j p.expected ≡ some v
        → value_at j (reconcile_one w o ns idx ord p).1.expected ≡ some v
    unfolding reconcile_one etcd_put etcd_get run expect value_at ◌>>=◌
    one_keeps j v h = ground (arith, ap (λ k. value_at k p.expected))

    one-WasRead :
        (j : ℕ) (v : Bytes)
        → WasRead j v p.events
        → WasRead j v (reconcile_one w o ns idx ord p).1.events
    unfolding reconcile_one etcd_put etcd_get run expect ◌>>=◌
    one-WasRead j v h = ground arith

    one_reads :
        (v : Bytes)
        → (reconcile_one w o ns idx ord p).0 ≡ some tt
        → value_at ord p.expected ≡ some v
        → WasRead ord v (reconcile_one w o ns idx ord p).1.events
    unfolding reconcile_one etcd_get run ◌>>=◌
    one_reads v s h =
        ground (arith, same_iff (trim_space (w.ask p.events (get_command w o ns ord) []).0) v)

    one_expects :
        (reconcile_one w o ns idx ord p).0 ≡ some tt
        → value_at ord (reconcile_one w o ns idx ord p).1.expected ≢ none
    unfolding reconcile_one etcd_put etcd_get run expect value_at ◌>>=◌
    one_expects s = ground arith

  module _ (idx : ℕ) where
    from_keeps :
        (ord n : ℕ) (p : PoolState) (j : ℕ) (v : Bytes)
        → value_at j p.expected ≡ some v
        → value_at j (reconcile_from w o ns idx ord n p).1.expected ≡ some v
    unfolding reconcile_from ◌>>=◌
    from_keeps ord zero p j v h = h
    from_keeps ord (suc n) p j v h = ground (
      arith,
      one_keeps idx ord p j v h,
      from_keeps (suc ord) n (reconcile_one w o ns idx ord p).1 j v,
    )

    from-WasRead :
        (ord n : ℕ) (p : PoolState) (j : ℕ) (v : Bytes)
        → WasRead j v p.events
        → WasRead j v (reconcile_from w o ns idx ord n p).1.events
    unfolding reconcile_from ◌>>=◌
    from-WasRead ord zero p j v h = h
    from-WasRead ord (suc n) p j v h = elim (Option-cases (reconcile_one w o ns idx ord p).0) [
      | inl e ↦ rw e (one-WasRead idx ord p j v h)
      | inr (_, e) ↦ rw e (
          from-WasRead (suc ord) n (reconcile_one w o ns idx ord p).1 j v
            (one-WasRead idx ord p j v h))
    ]

    -- an instance that was expected to hold a value was read, and one that was not is now expected to
    abbrev pub IsChecked : PoolState → PoolState → ℕ → Type 0
    IsChecked p q j =
        ((v : Bytes) → value_at j p.expected ≡ some v → WasRead j v q.events)
        × (value_at j q.expected ≢ none)

    from_stays :
        (ord n : ℕ) (p : PoolState) (j : ℕ)
        → value_at j p.expected ≢ none
        → value_at j (reconcile_from w o ns idx ord n p).1.expected ≢ none
    from_stays ord n p j h = elim (Option-cases (value_at j p.expected)) [
      | inl e ↦ absurd (h e)
      | inr (v, e) ↦ λ x. ground (arith, from_keeps ord n p j v e, x)
    ]

    from-IsChecked :
        (ord n : ℕ) (p : PoolState) (j : ℕ)
        → (reconcile_from w o ns idx ord n p).0 ≡ some tt
        → ord ≤ j
        → j < ord + n
        → IsChecked p (reconcile_from w o ns idx ord n p).1 j
    unfolding reconcile_from ◌>>=◌
    from-IsChecked ord zero p j s lo hi = absurd (omega arith)
    from-IsChecked ord (suc n) p j s lo hi =
        let q = (reconcile_one w o ns idx ord p).1 in
        elim (Option-cases (reconcile_one w o ns idx ord p).0) [
          | inl e ↦ absurd (some_not_none (rw e at s))
          | inr (tt, e) ↦ elim (ℕ_discrete ord j) [
            | yes same_ord ↦ rw e (
                subst (λ k. IsChecked p (reconcile_from w o ns idx (suc ord) n q).1 k) same_ord
                  (
                    λ v h. from-WasRead (suc ord) n q ord v (one_reads idx ord p v e h),
                    from_stays (suc ord) n q ord (one_expects idx ord p e),
                  ))
            | no other ↦
                let rest =
                  from-IsChecked (suc ord) n q j (rw e at s) (omega (arith, lt_of ord j lo other))
                    (omega arith) in
                rw e (λ v h. rest.0 v (one_keeps idx ord p j v h), rest.1)
          ]
        ]

    -- A check that finds no loss has read every instance below `replicas` that was expected to hold a
    -- value, the cluster gave that value, and the instance is still expected to hold it.
    pub reconcile_integrity-WasRead :
        (replicas : ℕ) (p : PoolState) (j : ℕ) (v : Bytes)
        → (reconcile_integrity w o ns idx replicas p).0 ≡ some tt
        → j < replicas
        → value_at j p.expected ≡ some v
        → WasRead j v (reconcile_integrity w o ns idx replicas p).1.events
          × (value_at j (reconcile_integrity w o ns idx replicas p).1.expected ≡ some v)
    unfolding reconcile_integrity
    reconcile_integrity-WasRead replicas p j v s h e = (
      (from-IsChecked 0 replicas p j s (omega arith) (omega arith)).0 v e,
      from_keeps 0 replicas p j v e,
    )

  abbrev pub kill_command : ℕ → List Bytes
  kill_command ord =
      in_ns w o ns (codes "delete" ∷ codes "pod" ∷ pod_name w o ns ord ∷ codes "--wait=true" ∷ [])

  -- the probe at an instance that is expected to hold a value
  probe-WasRead :
      (ord current : ℕ) (p : PoolState) (v : Bytes)
      → (kill_expected w o ns ord v current p).0 ≡ some tt
      → (between : List Event) × ((kill_expected w o ns ord v current p).1.events
          ≡ ran (get_command w o ns ord) [] ∷ between ++ ran (kill_command ord) [] ∷ p.events)
        × ((w.ask p.events (kill_command ord) []).1 ≡ true)
        × IsReady w o ns current (between ++ ran (kill_command ord) [] ∷ p.events)
        × (trim_space
              (w.ask
                (between ++ ran (kill_command ord) [] ∷ p.events)
                (get_command w o ns ord)
                []).0
            ≡ v)
  unfolding kill_expected check_value etcd_get run ◌>>=◌
  probe-WasRead ord current p v s =
      let killed = run w (kill_command ord) [] p in
      let waited = wait_ready w o ns current killed.1 in
      let (between, e) = ready-Extends w o ns current killed.1 in
      let shown = wait_ready-IsReady w o ns current killed.1 in
      (
        between,
        ground (arith, e),
        ground arith,
        subst (IsReady w o ns current) e (shown (ground arith)),
        subst (λ x. trim_space (w.ask x (get_command w o ns ord) []).0 ≡ v) e
            (ground (
              arith,
              same_iff (trim_space (w.ask waited.1.events (get_command w o ns ord) []).0) v,
            )),
      )

  probed :
      (ord : ℕ) (p : PoolState) (v : Bytes)
      → value_at ord p.expected ≡ some v
      → kill_and_verify w o ns ord p ≡ kill_expected w o ns ord v p.current p
  unfolding kill_and_verify
  probed ord p v h = rw (h, kill_and_verify) refl

  -- When the probe that kills an instance succeeds, and the instance was expected to hold a value, then
  -- the deletion of its pod was run first and succeeded, behind it the stateful set showed the number of
  -- replicas, and that value was read last.
  pub kill_and_verify-WasRead :
      (ord : ℕ) (p : PoolState) (v : Bytes)
      → value_at ord p.expected ≡ some v
      → (kill_and_verify w o ns ord p).0 ≡ some tt
      → (between : List Event) × ((kill_and_verify w o ns ord p).1.events
          ≡ ran (get_command w o ns ord) [] ∷ between ++ ran (kill_command ord) [] ∷ p.events)
        × ((w.ask p.events (kill_command ord) []).1 ≡ true)
        × IsReady w o ns p.current (between ++ ran (kill_command ord) [] ∷ p.events)
        × (trim_space
              (w.ask
                (between ++ ran (kill_command ord) [] ∷ p.events)
                (get_command w o ns ord)
                []).0
            ≡ v)
  kill_and_verify-WasRead ord p v h s =
      let same_run = probed ord p v h in
      rw same_run (probe-WasRead ord p.current p v (rw same_run at s))
