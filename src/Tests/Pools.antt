-- ===== src/Tests/Pools.antt =====
-- The stress tool at a cluster that answers "1" to every command.
use px_smt_multirealm_shim.Common.{
  ◌≡◌, ◌*◌, ◌++◌, length, refl, true, false, some, List, [], ◌∷◌, arith,
}
use px_smt_multirealm_shim.Common.Exec.{◌>>=◌}
use px_smt_multirealm_shim.Bytes.{Bytes, codes}
use px_smt_multirealm_shim.Bytes.Split.{trim_space}
use px_smt_multirealm_shim.Bytes.Number.{decimal}
use px_smt_multirealm_shim.Stress.{Options, Cluster, PoolState, Event, ran}
use px_smt_multirealm_shim.Stress.Pool.{
  value_at, get_command, reconcile_integrity, kill_and_verify, delete_pvcs_from,
}
use px_smt_multirealm_shim.Stress.Pool.Integrity.{
  WasRead, reconcile_integrity-WasRead, kill_and_verify-WasRead, kill_command,
}
use px_smt_multirealm_shim.Stress.{run}
use px_smt_multirealm_shim.Stress.Pool.{wait_ready}
use px_smt_multirealm_shim.Stress.Pool.Turns.{IsReady}
use px_smt_multirealm_shim.Stress.{five_seconds}
use px_smt_multirealm_shim.Stress.Pool.{etcd_get}
use px_smt_multirealm_shim.Stress.Cycle.{guard}
use px_smt_multirealm_shim.Stress.Cycle.{run_cycles}
use px_smt_multirealm_shim.Stress.Cycle.{run_cycle}
use px_smt_multirealm_shim.Stress.Cycle.{visit}
use px_smt_multirealm_shim.Stress.Cycle.{clean_up}
use px_smt_multirealm_shim.Stress.Pool.{ensure}
use px_smt_multirealm_shim.Stress.Pool.{set_current}
use px_smt_multirealm_shim.Stress.Pool.{scale}
use px_smt_multirealm_shim.Stress.Pool.{fresh_value}
use px_smt_multirealm_shim.Stress.Cycle.{run_pool}

abbrev pub cluster : Cluster
cluster = record {
  ask = λ (before : List Event) (args : List Bytes) (stdin : Bytes). (codes "1", true);
  cancelled = λ (before : List Event). false;
  now = λ (before : List Event). length before * five_seconds;
}

abbrev pub options : Options
options = record {
  oc = codes "oc";
  min = 1;
  mid = 1;
  max = 1;
  recreate_each = 2;
  ns_prefix = codes "pxstress";
  storage_class = codes "px-fada";
  size = codes "1Gi";
  etcd_image = codes "etcd";
  stop_on_error = true;
  ready_timeout = 10000000000;
}

abbrev pub ns : Bytes
ns = codes "pxstress-0"

abbrev pool : PoolState
pool = record {
  current = 1;
  expected = (0, codes "1") ∷ [];
  failures = [];
  stopped = false;
  events = [];
}

number : decimal 207 ≡ codes "207"
unfolding decimal
number = refl

number_of_pool : decimal 0 ≡ codes "0"
unfolding decimal
number_of_pool = refl

held : value_at 0 pool.expected ≡ some (codes "1")
unfolding value_at
held = refl

checked : (reconcile_integrity cluster options ns 0 1 pool).0 ≡ some tt
unfolding ◌>>=◌ reconcile_integrity value_at
checked = refl

reconcile_integrity-WasRead_example :
    WasRead cluster options ns 0
      (codes "1")
      (reconcile_integrity cluster options ns 0 1 pool).1.events
    × (value_at 0 (reconcile_integrity cluster options ns 0 1 pool).1.expected ≡ some (codes "1"))
reconcile_integrity-WasRead_example =
    reconcile_integrity-WasRead cluster options ns 0 1 pool 0 (codes "1") checked (omega arith) held

verified : (kill_and_verify cluster options ns 0 pool).0 ≡ some tt
unfolding ◌>>=◌ kill_and_verify value_at run wait_ready etcd_get
verified = refl

kill_and_verify-WasRead_example :
    (between : List Event) × ((kill_and_verify cluster options ns 0 pool).1.events
      ≡ ran (get_command cluster options ns 0) [] ∷ between
        ++ ran (kill_command cluster options ns 0) [] ∷ pool.events)
    × ((cluster.ask pool.events (kill_command cluster options ns 0) []).1 ≡ true)
    × IsReady cluster options ns pool.current
        (between ++ ran (kill_command cluster options ns 0) [] ∷ pool.events)
    × (trim_space
          (cluster.ask
            (between ++ ran (kill_command cluster options ns 0) [] ∷ pool.events)
            (get_command cluster options ns 0)
            []).0
        ≡ codes "1")
kill_and_verify-WasRead_example =
    kill_and_verify-WasRead cluster options ns 0 pool (codes "1") held verified

removed : (delete_pvcs_from cluster options ns 0 pool).0 ≡ some tt
unfolding ◌>>=◌ delete_pvcs_from
removed = refl

-- a pool whose instance reads back another value than it was given: the first check after the first
-- scaling fails, is recorded once, and stops the run
lost :
    (run_pool cluster options ns 0 3 (record pool { expected = [] })).1.failures
    ≡ codes "[pxstress-0] integrity@1" ∷ []
unfolding ◌>>=◌ run_pool guard ensure run set_current wait_ready reconcile_integrity value_at
    run_cycles run_cycle visit scale clean_up fresh_value
lost = refl
