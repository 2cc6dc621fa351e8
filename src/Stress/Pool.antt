-- ===== src/Stress/Pool.antt =====
-- The operations of `poolState`.
pub mod Integrity
pub mod Removal
pub mod Turns
pub mod Waiting
pub mod Silent
use px_smt_multirealm_shim.Common.{
  ℕ, zero, suc, ◌+◌, ◌-◌, ◌*◌, ◌/◌, Bool, true, false, Option, none, some, List, [], ◌∷◌, ◌++◌,
  ◌==◌, if◌then◌else◌,
}
use px_smt_multirealm_shim.Common.Exec.{Exec, pure, fail, ◌>>=◌, ◌>>◌}
use px_smt_multirealm_shim.Bytes.{Bytes, codes, same}
use px_smt_multirealm_shim.Bytes.Split.{trim_space}
use px_smt_multirealm_shim.Bytes.Number.{ℤ, pos, negsuc, atoi_value, decimal}
use px_smt_multirealm_shim.Stress.{
  Options, Cluster, PoolState, run, context_ended, pause, is_late, five_seconds,
}
use px_smt_multirealm_shim.Stress.Manifest.{render_manifest}

-- `p.expected`, a Go map with numbers for keys
unfoldable pub value_at : ℕ → List (ℕ × Bytes) → Option Bytes
value_at ord [] = none
value_at ord ((j, v) ∷ m) = if j == ord then some v else value_at ord m

unfoldable pub delete_at : ℕ → List (ℕ × Bytes) → List (ℕ × Bytes)
delete_at ord [] = []
delete_at ord ((j, v) ∷ m) = let rest = delete_at ord m in if j == ord then rest else (j, v) ∷ rest

unfoldable pub expect : ℕ → Bytes → Exec PoolState (Unit {0})
expect ord v p = (some tt, record p { expected = (ord, v) ∷ p.expected })

unfoldable pub forget : ℕ → Exec PoolState (Unit {0})
unfolding delete_at
forget ord p = (some tt, record p { expected = delete_at ord p.expected })

unfoldable pub forget_all : Exec PoolState (Unit {0})
forget_all p = (some tt, record p { expected = [] })

unfoldable pub set_current : ℕ → Exec PoolState (Unit {0})
set_current n p = (some tt, record p { current = n })

-- `ready, _ := strconv.Atoi(...)`, and the comparison
unfoldable pub is_ready : ℕ → Bytes → Bool
unfolding atoi_value trim_space
is_ready replicas out = elim (atoi_value (trim_space out)) [
  | pos n ↦ n == replicas
  | negsuc _ ↦ false
]

unfoldable pub shows_ready : ℕ → Option Bytes → Bool
unfolding is_ready
shows_ready replicas none = false
shows_ready replicas (some out) = is_ready replicas out

module _ (w : Cluster) (o : Options) (ns : Bytes) where
  abbrev pub pod_name : ℕ → Bytes
  pod_name ord = codes "etcd-" ++ decimal ord

  abbrev pub in_ns : List Bytes → List Bytes
  in_ns args = o.oc ∷ codes "-n" ∷ ns ∷ args

  abbrev pub etcdctl : ℕ → List Bytes → List Bytes
  etcdctl ord args = in_ns (codes "exec" ∷ pod_name ord ∷ codes "--" ∷ codes "etcdctl" ∷ args)

  abbrev pub get_command : ℕ → List Bytes
  get_command ord = etcdctl ord (codes "get" ∷ codes "integrity" ∷ codes "--print-value-only" ∷ [])

  -- `etcdPut`
  unfoldable pub etcd_put : ℕ → Bytes → Exec PoolState (Unit {0})
  unfolding run
  etcd_put ord val = do run w (etcdctl ord (codes "put" ∷ codes "integrity" ∷ val ∷ [])) []; pure tt

  -- `etcdGet`
  unfoldable pub etcd_get : ℕ → Exec PoolState Bytes
  unfolding run trim_space
  etcd_get ord = do out ← run w (get_command ord) []; pure (trim_space out)

  abbrev pub ready_command : List Bytes
  ready_command = in_ns (
      codes "get"
      ∷ codes "statefulset"
      ∷ codes "etcd"
      ∷ codes "-o"
      ∷ codes "jsonpath={.status.readyReplicas}"
      ∷ [])

  -- whether the command succeeded and shows the number of replicas
  unfoldable pub poll_ready : ℕ → Exec PoolState Bool
  unfolding run shows_ready
  poll_ready replicas p =
      let (out, p') = run w ready_command [] p in (some (shows_ready replicas out), p')

  -- the loop of `waitReady`, at most so many times
  unfoldable pub wait_until : ℕ → ℕ → ℕ → Exec PoolState (Unit {0})
  unfolding context_ended poll_ready is_late pause
  wait_until replicas deadline zero = fail
  wait_until replicas deadline (suc n) = do
    ended ← context_ended w
    if ended then fail else do
      ready ← poll_ready replicas
      if ready then pure tt else do
        late ← is_late w deadline
        if late then fail else do pause; wait_until replicas deadline n

  -- a poll at the start, one for every five seconds up to the deadline, and one behind it
  abbrev pub wait_bound : ℕ
  wait_bound = suc (o.ready_timeout / five_seconds + 1)

  unfoldable pub wait_ready : ℕ → Exec PoolState (Unit {0})
  unfolding wait_until
  wait_ready replicas p = wait_until replicas (w.now p.events + o.ready_timeout) wait_bound p

  unfoldable pub ensure : ℕ → Exec PoolState (Unit {0})
  ensure replicas = do
    run w (o.oc ∷ codes "apply" ∷ codes "-f" ∷ codes "-" ∷ []) (render_manifest o ns replicas)
    set_current replicas
    wait_ready replicas

  unfoldable pub scale : ℕ → Exec PoolState (Unit {0})
  scale replicas = do
    run w
        (in_ns (
          codes "scale"
          ∷ codes "statefulset"
          ∷ codes "etcd"
          ∷ (codes "--replicas=" ++ decimal replicas)
          ∷ []))
        []
    wait_ready replicas

  unfoldable pub recreate : ℕ → Exec PoolState (Unit {0})
  unfolding run forget_all ensure
  recreate replicas = do
    run w
        (o.oc
          ∷ codes "delete"
          ∷ codes "namespace"
          ∷ ns
          ∷ codes "--ignore-not-found"
          ∷ codes "--wait=true"
          ∷ [])
        []
    forget_all
    ensure replicas

  -- the value is read, and compared
  unfoldable pub check_value : ℕ → Bytes → Exec PoolState (Unit {0})
  unfolding etcd_get
  check_value ord want = do got ← etcd_get ord; if same got want then pure tt else fail

  -- the probe of an instance that is expected to hold a value
  unfoldable pub kill_expected : ℕ → Bytes → ℕ → Exec PoolState (Unit {0})
  unfolding check_value
  kill_expected ord want current = do
    run w (in_ns (codes "delete" ∷ codes "pod" ∷ pod_name ord ∷ codes "--wait=true" ∷ [])) []
    wait_ready current
    check_value ord want

  -- `killAndVerify`
  unfoldable pub kill_and_verify : ℕ → Exec PoolState (Unit {0})
  unfolding kill_expected
  kill_and_verify ord p = elim (value_at ord p.expected) [
    | none ↦ (some tt, p)
    | some want ↦ kill_expected ord want p.current p
  ]

  -- the volume of one instance
  unfoldable pub delete_pvc : ℕ → Exec PoolState (Unit {0})
  unfolding run forget
  delete_pvc ord = do
    run w
        (in_ns (
          codes "delete"
          ∷ codes "pvc"
          ∷ (codes "data-etcd-" ++ decimal ord)
          ∷ codes "--ignore-not-found"
          ∷ codes "--wait=false"
          ∷ []))
        []
    forget ord

  -- the loop of `deletePVCsFrom`, for so many ordinals
  unfoldable pub delete_pvcs : ℕ → ℕ → Exec PoolState (Unit {0})
  unfolding delete_pvc
  delete_pvcs ord zero = pure tt
  delete_pvcs ord (suc n) = do delete_pvc ord; delete_pvcs (suc ord) n

  unfoldable pub delete_pvcs_from : ℕ → Exec PoolState (Unit {0})
  unfolding delete_pvcs
  delete_pvcs_from keep = delete_pvcs keep (o.max + 1 - keep)

  -- the value that a fresh instance gets; `idx` is the number of the pool
  unfoldable pub fresh_value : ℕ → ℕ → Bytes
  unfolding decimal
  fresh_value idx ord =
      ns ++ codes "-ord" ++ decimal ord ++ codes "-" ++ decimal (ord * 7 + idx * 100 + 1)

  unfoldable pub store_fresh : ℕ → ℕ → Exec PoolState (Unit {0})
  unfolding etcd_put expect
  store_fresh idx ord = do etcd_put ord (fresh_value idx ord); expect ord (fresh_value idx ord)

  -- the body of the loop of `reconcileIntegrity`
  unfoldable pub reconcile_one : ℕ → ℕ → Exec PoolState (Unit {0})
  unfolding store_fresh check_value
  reconcile_one idx ord p = elim (value_at ord p.expected) [
    | none ↦ store_fresh idx ord p
    | some want ↦ check_value ord want p
  ]

  unfoldable pub reconcile_from : ℕ → ℕ → ℕ → Exec PoolState (Unit {0})
  unfolding reconcile_one
  reconcile_from idx ord zero = pure tt
  reconcile_from idx ord (suc n) = do reconcile_one idx ord; reconcile_from idx (suc ord) n

  -- `reconcileIntegrity`
  unfoldable pub reconcile_integrity : ℕ → ℕ → Exec PoolState (Unit {0})
  unfolding reconcile_from
  reconcile_integrity idx replicas = reconcile_from idx 0 replicas
