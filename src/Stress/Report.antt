-- ===== src/Stress/Report.antt =====
-- `main`: the options, one pool for each number, what their recorder collects, and the exit code.
-- A pool sees the others only in what the cluster answers and in the end of the context, so each has a
-- cluster of its own here.
pub mod Exit
pub mod Distinct
use px_smt_multirealm_shim.Common.{
  ℕ, zero, suc, ◌+◌, Bool, true, false, List, [], ◌∷◌, ◌++◌, if◌then◌else◌,
}
use px_smt_multirealm_shim.Bytes.{Bytes, codes}
use px_smt_multirealm_shim.Bytes.Number.{decimal}
use px_smt_multirealm_shim.Stress.{Options, Cluster, PoolState}
use px_smt_multirealm_shim.Stress.Cycle.{run_pool}

-- the defaults of the flags
abbrev pub default_options : Options
default_options = record {
  oc = codes "oc";
  min = 1;
  mid = 3;
  max = 5;
  recreate_each = 2;
  ns_prefix = codes "pxstress";
  storage_class = codes "px-fada";
  size = codes "1Gi";
  etcd_image = codes "quay.io/coreos/etcd:v3.5.17";
  stop_on_error = true;
  ready_timeout = 240000000000;
}

unfoldable pub ns_name : Options → ℕ → Bytes
unfolding decimal
ns_name o idx = o.ns_prefix ++ codes "-" ++ decimal idx

-- the state that `runPool` starts from
abbrev pub new_pool : PoolState
new_pool = record { current = 0; expected = []; failures = []; stopped = false; events = [] }

-- the failed steps of each pool, from number `idx` on, after so many cycles
unfoldable pub pool_failures : Options → ℕ → ℕ → List Cluster → List (List Bytes)
pool_failures o cycles idx [] = []
pool_failures o cycles idx (w ∷ ws) =
    (run_pool w o (ns_name o idx) idx cycles new_pool).1.failures
    ∷ pool_failures o cycles (suc idx) ws

abbrev pub delete_command : Options → Bytes → List Bytes
delete_command o ns =
    o.oc
    ∷ codes "delete"
    ∷ codes "namespace"
    ∷ ns
    ∷ codes "--ignore-not-found"
    ∷ codes "--wait=false"
    ∷ []

-- the deletion of the namespaces of so many pools, from number `idx` on
unfoldable pub delete_namespaces : Options → ℕ → ℕ → List (List Bytes)
unfolding ns_name
delete_namespaces o idx zero = []
delete_namespaces o idx (suc n) = delete_command o (ns_name o idx) ∷ delete_namespaces o (suc idx) n

-- two goroutines that add to the recorder
pub data Merge : List Bytes → List Bytes → List Bytes → Type 0 where
  empty : Merge [] [] []
  left : {x : Bytes} {xs ys zs : List Bytes} → Merge xs ys zs → Merge (x ∷ xs) ys (x ∷ zs)
  right : {y : Bytes} {xs ys zs : List Bytes} → Merge xs ys zs → Merge xs (y ∷ ys) (y ∷ zs)

-- all of them, in any order that keeps each one's own
pub data Collects : List (List Bytes) → List Bytes → Type 0 where
  nothing : Collects [] []
  pool :
      {f : List Bytes} {fs : List (List Bytes)} {out all : List Bytes}
      → Collects fs out
      → Merge f out all
      → Collects (f ∷ fs) all

-- `os.Exit(1)` if the recorder is not empty
unfoldable pub exit_code : List Bytes → ℕ
exit_code [] = 0
exit_code (_ ∷ _) = 1

-- what follows on the end of all pools: the commands if the namespaces are to be deleted, and the exit
-- code
unfoldable pub finish : Options → Bool → ℕ → List Bytes → List (List Bytes) × ℕ
unfolding delete_namespaces exit_code
finish o cleanup pools fails =
    (if cleanup then delete_namespaces o 0 pools else [], exit_code fails)
