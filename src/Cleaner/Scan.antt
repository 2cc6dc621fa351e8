-- ===== src/Cleaner/Scan.antt =====
-- `openCount`, `pathState`, `scsiID`, `pathsStale`, `fullDisconnect` and `scanAndClean`.
pub mod Safety
pub mod Grace
pub mod Teardown
pub mod Refinement
pub mod Verdict
use px_smt_multirealm_shim.Common.{
  ℕ, zero, suc, ◌+◌, Bool, true, false, ◌&&◌, ◌||◌, not, Option, none, some, List, [], ◌∷◌, ◌++◌,
  leb, ◌==◌, if◌then◌else◌, any,
}
use px_smt_multirealm_shim.Bytes.{Bytes, codes, same, contains, to_lower, to_upper}
use px_smt_multirealm_shim.Bytes.Assoc.{Assoc, lookup, insert, remove}
use px_smt_multirealm_shim.Bytes.Number.{ℤ, pos, negsuc, atoi}
use px_smt_multirealm_shim.Bytes.Split.{trim_space}
use px_smt_multirealm_shim.Cleaner.{MpMap, Config, Command, Node, Run, pure, ◌>>=◌, ◌>>◌, host_cmd}
use px_smt_multirealm_shim.Cleaner.Parse.{parse_multipath}

abbrev pub open_command : Bytes → Command
open_command name =
    codes "dmsetup"
    ∷ codes "info"
    ∷ codes "-c"
    ∷ codes "--noheadings"
    ∷ codes "-o"
    ∷ codes "open"
    ∷ name
    ∷ []

-- -1 where the count cannot be determined
unfoldable pub count_of : Bytes × Bool → ℤ
unfolding atoi trim_space
count_of (out, false) = negsuc 0
count_of (out, true) = elim (atoi (trim_space out)) [ none ↦ negsuc 0 | some n ↦ n ]

-- `openCount`
unfoldable pub open_count : Node → Bytes → Run ℤ
unfolding host_cmd count_of
open_count node name = do answer ← host_cmd node (open_command name); pure (count_of answer)

unfoldable pub state_of : Bytes × Bool → Bytes
unfolding trim_space
state_of (out, false) = codes "missing"
state_of (out, true) = trim_space out

-- `pathState`
unfoldable pub path_state : Node → Bytes → Run Bytes
unfolding host_cmd state_of
path_state node dev = do
  answer ← host_cmd node (codes "cat" ∷ (codes "/sys/block/" ++ dev ++ codes "/device/state") ∷ [])
  pure (state_of answer)

unfoldable pub id_of : Bytes × Bool → Bytes
unfolding trim_space to_lower
id_of (out, false) = []
id_of (out, true) = to_lower (trim_space out)

-- `scsiID`
unfoldable pub scsi_id : Node → Bytes → Run Bytes
unfolding host_cmd id_of
scsi_id node dev = do
  answer ← host_cmd node (
      codes "/lib/udev/scsi_id"
      ∷ codes "-g"
      ∷ codes "-u"
      ∷ codes "-d"
      ∷ (codes "/dev/" ++ dev)
      ∷ [])
  pure (id_of answer)

-- the result of `pathsStale`, with the reason that is logged
pub data Staleness : Type 0 where
  healthy no_paths no_healthy_path : Staleness
  mismatch : Bytes → Bytes → Staleness

-- `sid == m.WWID && pathState(dev) == "running"`
unfoldable pub is_running : Node → Bytes → Bytes → Bytes → Run Bool
unfolding path_state same
is_running node wwid dev sid =
    if same sid wwid
    then (do state ← path_state node dev; pure (same state (codes "running")))
    else pure false

-- the loop of `pathsStale`
unfoldable pub check_paths : Node → Bytes → Bool → List Bytes → Run Staleness
unfolding scsi_id is_running same
check_paths node wwid any_healthy [] = pure (if any_healthy then healthy else no_healthy_path)
check_paths node wwid any_healthy (dev ∷ devs) = do
  sid ← scsi_id node dev
  if not (same sid []) && not (same sid wwid) then pure (mismatch dev sid) else do
    running ← is_running node wwid dev sid
    check_paths node wwid (any_healthy || running) devs

-- `pathsStale`
unfoldable pub paths_stale : Node → Bytes → List Bytes → Run Staleness
unfolding check_paths
paths_stale node wwid [] = pure no_paths
paths_stale node wwid (dev ∷ devs) = check_paths node wwid false (dev ∷ devs)

unfoldable pub is_stale : Staleness → Bool
is_stale healthy = false
is_stale _ = true

abbrev pub flush_command : Bytes → Command
flush_command wwid = codes "multipath" ∷ codes "-f" ∷ wwid ∷ []

abbrev pub delete_command : Bytes → Command
delete_command dev =
    codes "sh" ∷ codes "-c" ∷ (codes "echo 1 > /sys/block/" ++ dev ++ codes "/device/delete") ∷ []

unfoldable pub delete_devices : Node → List Bytes → Run (Unit {0})
unfolding host_cmd
delete_devices node [] = pure tt
delete_devices node (dev ∷ devs) = do host_cmd node (delete_command dev); delete_devices node devs

-- `fullDisconnect`; a command that fails is logged, and the next one is run.
unfoldable pub full_disconnect : Node → MpMap → Bool → Run (Unit {0})
unfolding host_cmd delete_devices
full_disconnect node m dry_run =
    if dry_run
    then pure tt
    else (do host_cmd node (flush_command m.wwid); delete_devices node m.paths)

pub data Trigger : Type 0 where
  poll volumeattachment_delete : Trigger

unfoldable pub is_event : Trigger → Bool
is_event poll = false
is_event volumeattachment_delete = true

-- `pure` is `ours` here: the maps of the vendor.
pub record ScanResult : Type 0 where
  pub ours : ℕ
  pub idle : ℕ
  pub stale : ℕ
  pub flushed : ℕ

-- what one pass builds up: `orphanStreak`, `seen` and `r`
pub record Pass : Type 0 where
  pub streaks : Assoc ℕ
  pub seen : List Bytes
  pub result : ScanResult

unfoldable pub streak : Assoc ℕ → Bytes → ℕ
unfolding lookup
streak m w = elim (lookup w m) [ none ↦ 0 | some n ↦ n ]

unfoldable pub is_ours : Config → MpMap → Bool
unfolding contains to_upper
is_ours cfg m = contains (to_upper m.vendor) (to_upper cfg.vendor)

-- a map of ours: counted and seen
unfoldable pub note_map : MpMap → Pass → Pass
note_map m p = record p {
  seen = m.wwid ∷ p.seen;
  result = record p.result { ours = p.result.ours + 1 };
}

unfoldable pub reset_streak : MpMap → Pass → Pass
unfolding insert
reset_streak m p = record p { streaks = insert m.wwid 0 p.streaks }

unfoldable pub count_idle : Pass → Pass
count_idle p = record p { result = record p.result { idle = p.result.idle + 1 } }

unfoldable pub count_stale : MpMap → Pass → Pass
unfolding insert streak
count_stale m p = record p {
  streaks = insert m.wwid (streak p.streaks m.wwid + 1) p.streaks;
  result = record p.result { stale = p.result.stale + 1 };
}

unfoldable pub count_flushed : MpMap → Pass → Pass
unfolding remove
count_flushed m p = record p {
  streaks = remove m.wwid p.streaks;
  result = record p.result { flushed = p.result.flushed + 1 };
}

-- a stale map: at an event at once, at a poll when its streak is long enough
unfoldable pub settle_stale : Node → Config → Trigger → MpMap → Pass → Run Pass
settle_stale node cfg trigger m p =
    let p' = count_stale m p in
    if is_event trigger || leb cfg.grace_polls (streak p'.streaks m.wwid)
    then (do full_disconnect node m cfg.dry_run; pure (count_flushed m p'))
    else pure p'

unfoldable pub settle_idle : Node → Config → Trigger → MpMap → Pass → Run Pass
settle_idle node cfg trigger m p = do
  staleness ← paths_stale node m.wwid m.paths
  if is_stale staleness then settle_stale node cfg trigger m p else pure (reset_streak m p)

unfoldable pub is_zero : ℤ → Bool
is_zero (pos zero) = true
is_zero _ = false

-- the body of the loop of `scanAndClean`
unfoldable pub scan_map : Node → Config → Trigger → MpMap → Pass → Run Pass
scan_map node cfg trigger m p = if not (is_ours cfg m) then pure p else (do
  count ← open_count node m.name
  if not (is_zero count)
      then pure (reset_streak m (note_map m p))
      else settle_idle node cfg trigger m (count_idle (note_map m p)))

unfoldable pub scan_maps : Node → Config → Trigger → List MpMap → Pass → Run Pass
scan_maps node cfg trigger [] p = pure p
scan_maps node cfg trigger (m ∷ ms) p = do
  p' ← scan_map node cfg trigger m p
  scan_maps node cfg trigger ms p'

-- the streaks of maps that are gone are deleted
unfoldable pub keep_seen : List Bytes → Assoc ℕ → Assoc ℕ
unfolding same
keep_seen seen [] = []
keep_seen seen ((w, n) ∷ m) =
    let rest = keep_seen seen m in if any (λ s. same s w) seen then (w, n) ∷ rest else rest

abbrev pub no_result : ScanResult
no_result = record { ours = 0; idle = 0; stale = 0; flushed = 0 }

unfoldable pub finish_pass : Pass → ScanResult × Assoc ℕ
unfolding keep_seen
finish_pass p = (p.result, keep_seen p.seen p.streaks)

-- `scanAndClean`: the summary, and `orphanStreak` after the pass
unfoldable pub scan_and_clean : Node → Config → Trigger → Assoc ℕ → Run (ScanResult × Assoc ℕ)
scan_and_clean node cfg trigger streaks = do
  answer ← host_cmd node (codes "multipath" ∷ codes "-ll" ∷ [])
  if not answer.1 && same answer.0 [] then pure (no_result, streaks) else do
    p ←
        scan_maps node cfg trigger (parse_multipath answer.0)
          (record { streaks = streaks; seen = []; result = no_result })
    pure (finish_pass p)
