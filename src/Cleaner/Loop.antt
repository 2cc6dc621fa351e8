-- ===== src/Cleaner/Loop.antt =====
-- `main` and `watchVolumeAttachments` as a step relation: ticks of the timer, events of the watch, and
-- the scan that an event leads to after a pause. The channel `trigger` has room for one token.
pub mod Safety
pub mod Refinement
pub mod Grace
use px_smt_multirealm_shim.Common.{ℕ, Bool, true, false, ◌&&◌, ◌||◌, ◌≡◌, List, [], if◌then◌else◌}
use px_smt_multirealm_shim.Bytes.{Bytes, codes, same}
use px_smt_multirealm_shim.Bytes.Assoc.{Assoc}
use px_smt_multirealm_shim.Cleaner.{Config, Command, Node}
use px_smt_multirealm_shim.Cleaner.Scan.{Trigger, poll, volumeattachment_delete, scan_and_clean}

-- the fields of an event that are decoded
pub record WatchEvent : Type 0 where
  pub event_type : Bytes
  pub node_name : Bytes

-- `pending` is the token in the channel; `pausing` says that a token was taken and its scan is due.
pub record State : Type 0 where
  pub orphan_streak : Assoc ℕ
  pub pending : Bool
  pub pausing : Bool
  pub log : List Command

abbrev pub initial : State
initial = record { orphan_streak = []; pending = false; pausing = false; log = [] }

unfoldable pub is_detach : Bytes → WatchEvent → Bool
unfolding same
is_detach node_name ev =
    same ev.event_type (codes "DELETED") && (same node_name [] || same ev.node_name node_name)

-- a token for a detach event of this node; a second one is dropped
unfoldable pub notify : Bytes → WatchEvent → State → State
unfolding is_detach
notify node_name ev st = if is_detach node_name ev then record st { pending = true } else st

unfoldable pub scan : Node → Config → Trigger → State → State
scan node cfg trigger st =
    let (out, log) = scan_and_clean node cfg trigger st.orphan_streak st.log in
    record st { orphan_streak = out.1; log = log }

pub data Step (node : Node) (cfg : Config) (node_name : Bytes) : State → State → Type 0 where
  tick : {st : State} → st.pausing ≡ false → Step node cfg node_name st (scan node cfg poll st)
  event : {st : State} (ev : WatchEvent) → Step node cfg node_name st (notify node_name ev st)
  take_token :
      {st : State}
      → st.pausing ≡ false
      → st.pending ≡ true
      → Step node cfg node_name st (record st { pending = false; pausing = true })
  wake :
      {st : State}
      → st.pausing ≡ true
      → Step node cfg node_name st
          (scan node cfg volumeattachment_delete (record st { pausing = false }))

pub data Reach (node : Node) (cfg : Config) (node_name : Bytes) (st : State) : State → Type 0 where
  here : Reach node cfg node_name st st
  next :
      {s t : State}
      → Reach node cfg node_name st s
      → Step node cfg node_name s t
      → Reach node cfg node_name st t
