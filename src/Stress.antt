-- ===== src/Stress.antt =====
-- cmd/pxstress/main.go: one pool of etcd instances that is scaled, killed and checked for lost data.
-- The cluster is a function of what has happened and of the command at hand, and gives the output and
-- whether it succeeded. `cancelled` says whether the context has ended; `now` is the clock, in nanoseconds.
-- Numbers of the options are not negative. An error is none.
pub mod Manifest
pub mod Pool
pub mod Cycle
pub mod Report
use px_smt_multirealm_shim.Common.{
  ℕ, Bool, Option, List, ◌∷◌, ◌||◌, true, none, some, if◌then◌else◌, ltb,
}
use px_smt_multirealm_shim.Common.Exec.{Exec}
use px_smt_multirealm_shim.Bytes.{Bytes}

-- `opts`
pub record Options : Type 0 where
  pub oc : Bytes
  pub min : ℕ
  pub mid : ℕ
  pub max : ℕ
  pub recreate_each : ℕ
  pub ns_prefix : Bytes
  pub storage_class : Bytes
  pub size : Bytes
  pub etcd_image : Bytes
  pub stop_on_error : Bool
  pub ready_timeout : ℕ

-- a command with its standard input, a look at the context, or a pause
pub data Event : Type 0 where
  ran : List Bytes → Bytes → Event
  looked : Event
  slept : Event

pub record Cluster : Type 0 where
  pub ask : List Event → List Bytes → Bytes → Bytes × Bool
  pub cancelled : List Event → Bool
  pub now : List Event → ℕ

-- `poolState`, the recorder's list of this pool's failed steps, whether the run was cancelled here, and
-- what has happened, the last event first.
pub record PoolState : Type 0 where
  pub current : ℕ
  pub expected : List (ℕ × Bytes)
  pub failures : List Bytes
  pub stopped : Bool
  pub events : List Event

-- `run` and `runStdin`
unfoldable pub run : Cluster → List Bytes → Bytes → Exec PoolState Bytes
run w args stdin p =
    let (out, ok) = w.ask p.events args stdin in
    (if ok then some out else none, record p { events = ran args stdin ∷ p.events })

-- `ctx.Err() != nil`
unfoldable pub context_ended : Cluster → Exec PoolState Bool
context_ended w p =
    (some (p.stopped || w.cancelled p.events), record p { events = looked ∷ p.events })

-- `sleepCtx` for five seconds
unfoldable pub pause : Exec PoolState (Unit {0})
pause p = (some tt, record p { events = slept ∷ p.events })

-- `time.Now().After(deadline)`
unfoldable pub is_late : Cluster → ℕ → Exec PoolState Bool
is_late w deadline p = (some (ltb deadline (w.now p.events)), p)

abbrev pub five_seconds : ℕ
five_seconds = 5000000000
