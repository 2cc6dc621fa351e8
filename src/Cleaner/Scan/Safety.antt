-- ===== src/Cleaner/Scan/Safety.antt =====
-- When the cleaner touches a device: the commands that destroy a map or a path, and what precedes
-- them.
use native.Mathlib.Decide.{ℕ_discrete}
use px_smt_multirealm_shim.Common.{
  ℕ, ◌+◌, ◌≡◌, ◌≢◌, refl, ◌∙◌, Bool, true, false, ◌&&◌, ◌||◌, List, [], ◌∷◌, leb, if◌then◌else◌,
  arith,
}
use px_smt_multirealm_shim.Bytes.{Bytes, codes, same}
use px_smt_multirealm_shim.Bytes.Search.{same_refl}
use px_smt_multirealm_shim.Bytes.Assoc.{Assoc, insert, lookup-insert}
use px_smt_multirealm_shim.Cleaner.{MpMap, Config, Command, Node, host_cmd}
use px_smt_multirealm_shim.Cleaner.Parse.{parse_multipath}
use px_smt_multirealm_shim.Cleaner.Scan.{
  open_count, path_state, scsi_id, is_running, check_paths, paths_stale, is_stale, full_disconnect,
  Trigger, is_event, Pass, streak, is_ours, note_map, count_idle, count_stale, settle_stale,
  settle_idle, is_zero, scan_map, scan_maps, scan_and_clean, no_result,
}

-- `multipath -f` and `sh -c`
abbrev pub is_destructive : Command → Bool
is_destructive (c ∷ d ∷ e ∷ []) =
    (same c (codes "multipath") && same d (codes "-f"))
    || (same c (codes "sh") && same d (codes "-c"))
is_destructive _ = false

abbrev pub destructive : List Command → ℕ
destructive [] = 0
destructive (c ∷ log) = (if is_destructive c then 1 else 0) + destructive log

module _ (node : Node) where
  open_quiet :
      (name : Bytes) (log : List Command)
      → destructive (open_count node name log).1 ≡ destructive log
  unfolding open_count
  open_quiet name log = omega arith

  id_quiet :
      (dev : Bytes) (log : List Command) → destructive (scsi_id node dev log).1 ≡ destructive log
  unfolding scsi_id
  id_quiet dev log = omega arith

  running_quiet :
      (wwid dev sid : Bytes) (log : List Command)
      → destructive (is_running node wwid dev sid log).1 ≡ destructive log
  unfolding is_running path_state
  running_quiet wwid dev sid log = ground arith

  check_quiet :
      (wwid : Bytes) (any_healthy : Bool) (devs : List Bytes) (log : List Command)
      → destructive (check_paths node wwid any_healthy devs log).1 ≡ destructive log
  unfolding check_paths
  check_quiet wwid h [] log = refl
  check_quiet wwid h (dev ∷ devs) log =
      let log' = (scsi_id node dev log).1 in
      let sid = (scsi_id node dev log).0 in
      let run = is_running node wwid dev sid log' in
      ground (
        arith,
        id_quiet dev log,
        running_quiet wwid dev sid log',
        check_quiet wwid (h || run.0) devs run.1,
      )

  stale_quiet :
      (wwid : Bytes) (devs : List Bytes) (log : List Command)
      → destructive (paths_stale node wwid devs log).1 ≡ destructive log
  unfolding paths_stale
  stale_quiet wwid [] log = refl
  stale_quiet wwid (dev ∷ devs) log = check_quiet wwid false (dev ∷ devs) log

pub streak-insert :
    (w v : Bytes) (n : ℕ) (m : Assoc ℕ)
    → streak (insert w n m) v ≡ (if same w v then n else streak m v)
unfolding streak
streak-insert w v n m = ground (arith, lookup-insert w v n m)

-- what the cleaner has read before it disconnects a map
pub record MayFlush (node : Node) (cfg : Config) (trigger : Trigger) (m : MpMap) (p : Pass)
    (log : List Command) : Type 0 where
  pub ours : is_ours cfg m ≡ true
  pub idle : is_zero (open_count node m.name log).0 ≡ true
  pub stale : is_stale (paths_stale node m.wwid m.paths (open_count node m.name log).1).0 ≡ true
  pub due : (is_event trigger || leb cfg.grace_polls (streak p.streaks m.wwid + 1)) ≡ true
  pub live : cfg.dry_run ≡ false

module _ (node : Node) (cfg : Config) (trigger : Trigger) (m : MpMap) where
  settle_quiet :
      (p : Pass) (log : List Command)
      → destructive (settle_stale node cfg trigger m p log).1 ≢ destructive log
      → ((is_event trigger || leb cfg.grace_polls (streak p.streaks m.wwid + 1)) ≡ true)
        × (cfg.dry_run ≡ false)
  unfolding settle_stale full_disconnect count_stale
  settle_quiet p log h =
      ground (
        arith,
        same_refl m.wwid,
        streak-insert m.wwid m.wwid (streak p.streaks m.wwid + 1) p.streaks,
      )

  -- A device is touched only for a map of the vendor that is not open and whose paths are stale, at
  -- a detach event or after enough polls, and never in a dry run.
  pub scan_map-MayFlush :
      (p : Pass) (log : List Command)
      → destructive (scan_map node cfg trigger m p log).1 ≢ destructive log
      → MayFlush node cfg trigger m p log
  unfolding scan_map settle_idle count_idle note_map
  scan_map-MayFlush p log h =
      let opened = open_count node m.name log in
      let stale = paths_stale node m.wwid m.paths opened.1 in
      ground (
        arith,
        open_quiet node m.name log,
        stale_quiet node m.wwid m.paths opened.1,
        settle_quiet (count_idle (note_map m p)) stale.1,
      )

  dry_quiet :
      (p : Pass) (log : List Command)
      → cfg.dry_run ≡ true
      → destructive (scan_map node cfg trigger m p log).1 ≡ destructive log
  dry_quiet p log d =
      elim (ℕ_discrete (destructive (scan_map node cfg trigger m p log).1) (destructive log)) [
        | yes e ↦ e
        | no n ↦ absurd (cc (d, (scan_map-MayFlush p log n).live))
      ]

module _ (node : Node) (cfg : Config) (trigger : Trigger) (dry : cfg.dry_run ≡ true) where
  maps_quiet :
      (ms : List MpMap) (p : Pass) (log : List Command)
      → destructive (scan_maps node cfg trigger ms p log).1 ≡ destructive log
  unfolding scan_maps
  maps_quiet [] p log = refl
  maps_quiet (m ∷ ms) p log =
      let out = scan_map node cfg trigger m p log in
      maps_quiet ms out.0 out.1 ∙ dry_quiet node cfg trigger m p log dry

  -- In a dry run a whole pass, at a poll or at an event, runs no destructive command.
  pub scan_and_clean-dry :
      (streaks : Assoc ℕ) (log : List Command)
      → destructive (scan_and_clean node cfg trigger streaks log).1 ≡ destructive log
  unfolding scan_and_clean host_cmd
  scan_and_clean-dry streaks log =
      let answer = node log (codes "multipath" ∷ codes "-ll" ∷ []) in
      ground (
        arith,
        maps_quiet (parse_multipath answer.0)
            (record { streaks = streaks; seen = []; result = no_result })
            ((codes "multipath" ∷ codes "-ll" ∷ []) ∷ log),
      )
