-- ===== src/Cleaner/Scan/Teardown.antt =====
-- The commands that disconnect maps, in the order in which one look at a map runs them.
use px_smt_multirealm_shim.Common.{
  ℕ, ◌+◌, ◌≡◌, refl, Bool, true, false, ◌&&◌, ◌||◌, not, List, [], ◌∷◌, leb, arith, any,
  if◌then◌else◌,
}
use px_smt_multirealm_shim.Bytes.{Bytes, same}
use px_smt_multirealm_shim.Bytes.Search.{same_refl}
use px_smt_multirealm_shim.Cleaner.{MpMap, Config, Command, Node}
use px_smt_multirealm_shim.Cleaner.Scan.{
  open_command, count_of, open_count, path_state, scsi_id, is_running, check_paths, paths_stale,
  flush_command, delete_command, delete_devices, full_disconnect, Trigger, is_event, Pass, streak,
  is_ours, note_map, count_idle, count_stale, settle_stale, settle_idle, is_zero, scan_map,
}
use px_smt_multirealm_shim.Cleaner.Scan.Safety.{is_destructive, streak-insert}
use px_smt_multirealm_shim.Cleaner.Scan.Verdict.{is_foreign, is_healthy, paths_stale_verdict}

-- what a node is asked during a pass in which its answers do not change
abbrev pub Answers : Type 0
Answers = Command → Bytes × Bool

abbrev pub steady : Answers → Node
steady answer _ c = answer c

-- the destructive commands of a log
abbrev pub disconnects : List Command → List Command
disconnects [] = []
disconnects (c ∷ log) = if is_destructive c then c ∷ disconnects log else disconnects log

abbrev deletions : List Bytes → List Command → List Command
deletions [] log = log
deletions (dev ∷ devs) log = deletions devs (delete_command dev ∷ log)

-- the flush of a map, and then the deletion of its devices
abbrev pub teardown : MpMap → List Command → List Command
teardown m log = deletions m.paths (flush_command m.wwid ∷ log)

module _ (node : Node) where
  open_keeps :
      (name : Bytes) (log : List Command)
      → disconnects (open_count node name log).1 ≡ disconnects log
  unfolding open_count same
  open_keeps name log = refl

  id_keeps :
      (dev : Bytes) (log : List Command) → disconnects (scsi_id node dev log).1 ≡ disconnects log
  unfolding scsi_id
  id_keeps dev log = refl

  running_keeps :
      (wwid dev sid : Bytes) (log : List Command)
      → disconnects (is_running node wwid dev sid log).1 ≡ disconnects log
  unfolding is_running path_state
  running_keeps wwid dev sid log = ground arith

  check_keeps :
      (wwid : Bytes) (h : Bool) (devs : List Bytes) (log : List Command)
      → disconnects (check_paths node wwid h devs log).1 ≡ disconnects log
  unfolding check_paths
  check_keeps wwid h [] log = refl
  check_keeps wwid h (dev ∷ devs) log =
      let sid = scsi_id node dev log in
      let run = is_running node wwid dev sid.0 sid.1 in
      ground (
        arith,
        id_keeps dev log,
        running_keeps wwid dev sid.0 sid.1,
        check_keeps wwid (h || run.0) devs run.1,
      )

  stale_keeps :
      (wwid : Bytes) (devs : List Bytes) (log : List Command)
      → disconnects (paths_stale node wwid devs log).1 ≡ disconnects log
  unfolding paths_stale
  stale_keeps wwid [] log = refl
  stale_keeps wwid (dev ∷ devs) log = check_keeps wwid false (dev ∷ devs) log

  delete_adds :
      (devs : List Bytes) (log : List Command)
      → disconnects (delete_devices node devs log).1 ≡ deletions devs (disconnects log)
  unfolding delete_devices same
  delete_adds [] log = refl
  delete_adds (dev ∷ devs) log = delete_adds devs (delete_command dev ∷ log)

  disconnect_adds :
      (m : MpMap) (dry : Bool) (log : List Command)
      → disconnects (full_disconnect node m dry log).1
        ≡ (if dry then disconnects log else teardown m (disconnects log))
  unfolding full_disconnect same
  disconnect_adds m true log = refl
  disconnect_adds m false log = delete_adds m.paths (flush_command m.wwid ∷ log)

module _ (answer : Answers) (cfg : Config) where
  -- the map is the vendor's, not open, and its paths are gone
  abbrev pub is_abandoned : MpMap → Bool
  is_abandoned m =
      is_ours cfg m
      && (is_zero (count_of (answer (open_command m.name)))
          && (any (is_foreign answer m.wwid) m.paths
              || not (any (is_healthy answer m.wwid) m.paths)))

  -- a streak of this length is long enough
  abbrev pub is_long : Trigger → ℕ → Bool
  is_long trigger n = is_event trigger || leb cfg.grace_polls n

  settle_adds :
      (trigger : Trigger) (m : MpMap) (p : Pass) (log : List Command)
      → disconnects (settle_stale (steady answer) cfg trigger m p log).1 ≡ (
          if is_long trigger (streak p.streaks m.wwid + 1) && not cfg.dry_run
          then teardown m (disconnects log)
          else disconnects log)
  unfolding settle_stale count_stale
  settle_adds trigger m p log = ground (
    arith,
    same_refl m.wwid,
    streak-insert m.wwid m.wwid (streak p.streaks m.wwid + 1) p.streaks,
    disconnect_adds (steady answer) m cfg.dry_run log,
  )

  -- One look at a map disconnects it, flush first, exactly if it is abandoned and its streak long
  -- enough, in a run that is no dry run.
  pub map_adds :
      (trigger : Trigger) (m : MpMap) (p : Pass) (log : List Command)
      → disconnects (scan_map (steady answer) cfg trigger m p log).1 ≡ (
          if is_abandoned m && (is_long trigger (streak p.streaks m.wwid + 1) && not cfg.dry_run)
          then teardown m (disconnects log)
          else disconnects log)
  unfolding scan_map settle_idle note_map count_idle open_count
  map_adds trigger m p log =
      let opened = open_command m.name ∷ log in
      let stale = paths_stale (steady answer) m.wwid m.paths opened in
      ground (
        arith,
        open_keeps (steady answer) m.name log,
        stale_keeps (steady answer) m.wwid m.paths opened,
        paths_stale_verdict answer m.wwid m.paths opened,
        settle_adds trigger m (count_idle (note_map m p)) stale.1,
      )
