-- ===== src/Cleaner/Scan/Grace.antt =====
-- The streaks: how long a stale map has to stay so before a poll disconnects it.
use px_smt_multirealm_shim.Common.{
  ℕ, ◌+◌, ◌≤◌, ◌≡◌, Bool, ◌&&◌, ◌||◌, not, List, [], ◌∷◌, leb, if◌then◌else◌, arith, any,
}
use px_smt_multirealm_shim.Bytes.{Bytes, codes, same, same_iff}
use px_smt_multirealm_shim.Bytes.Search.{same_refl}
use px_smt_multirealm_shim.Bytes.Assoc.{Assoc, lookup, insert, remove, lookup-remove}
use px_smt_multirealm_shim.Cleaner.{MpMap, Config, Command, Node, host_cmd}
use px_smt_multirealm_shim.Cleaner.Parse.{parse_multipath}
use px_smt_multirealm_shim.Cleaner.Scan.{
  open_count, paths_stale, is_stale, Trigger, is_event, ScanResult, Pass, streak, is_ours, note_map,
  keep_seen, reset_streak, count_idle, count_stale, count_flushed, settle_stale, settle_idle,
  is_zero, scan_map, scan_maps, finish_pass, no_result, scan_and_clean,
}
use px_smt_multirealm_shim.Cleaner.Scan.Safety.{streak-insert}

streak-remove :
    (w v : Bytes) (m : Assoc ℕ) → streak (remove w m) v ≡ (if same w v then 0 else streak m v)
unfolding streak
streak-remove w v m = ground (arith, lookup-remove w v m)

pub streak-keep_seen :
    (seen : List Bytes) (m : Assoc ℕ) (v : Bytes)
    → streak (keep_seen seen m) v ≡ (if any (λ s. same s v) seen then streak m v else 0)
unfolding streak keep_seen lookup
streak-keep_seen seen [] v = ground arith
streak-keep_seen seen ((w, n) ∷ m) v = ground (arith, same_iff w v, streak-keep_seen seen m v)

module _ (node : Node) (cfg : Config) (trigger : Trigger) (m : MpMap) where
  abbrev pub is_due : ℕ → Bool
  is_due n = is_event trigger || leb cfg.grace_polls n

  settle-streak :
      (p : Pass) (log : List Command) (v : Bytes)
      → streak (settle_stale node cfg trigger m p log).0.streaks v ≡ (
          if same m.wwid v
          then (if is_due (streak p.streaks m.wwid + 1) then 0 else streak p.streaks m.wwid + 1)
          else streak p.streaks v)
  unfolding settle_stale count_stale count_flushed
  settle-streak p log v =
      let n = streak p.streaks m.wwid + 1 in
      ground (
        arith,
        same_refl m.wwid,
        streak-insert m.wwid m.wwid n p.streaks,
        streak-insert m.wwid v n p.streaks,
        streak-remove m.wwid v (insert m.wwid n p.streaks),
      )

  -- The streak of every map after one map was looked at: the map's own grows by one if it is ours,
  -- not open, stale and not yet due, and is 0 if it is ours otherwise; no other streak changes.
  pub scan_map-streak :
      (p : Pass) (log : List Command) (v : Bytes)
      → let opened = open_count node m.name log in
        streak (scan_map node cfg trigger m p log).0.streaks v ≡ (
          if is_ours cfg m && same m.wwid v
          then (if is_zero opened.0
                && is_stale (paths_stale node m.wwid m.paths opened.1).0
                && not (is_due (streak p.streaks m.wwid + 1))
              then streak p.streaks m.wwid + 1
              else 0)
          else streak p.streaks v)
  unfolding scan_map settle_idle reset_streak count_idle note_map
  scan_map-streak p log v =
      let opened = open_count node m.name log in
      let stale = paths_stale node m.wwid m.paths opened.1 in
      ground (
        arith,
        streak-insert m.wwid v 0 p.streaks,
        settle-streak (count_idle (note_map m p)) stale.1 v,
      )

-- each count is at most the one before
abbrev pub IsOrdered : ScanResult → Type 0
IsOrdered r = (r.flushed ≤ r.stale) × (r.stale ≤ r.idle) × (r.idle ≤ r.ours)

module _ (node : Node) (cfg : Config) (trigger : Trigger) where
  map-IsOrdered :
      (m : MpMap) (p : Pass) (log : List Command)
      → IsOrdered p.result
      → IsOrdered (scan_map node cfg trigger m p log).0.result
  unfolding scan_map settle_idle settle_stale reset_streak count_idle count_stale count_flushed
      note_map
  map-IsOrdered m p log h = ground arith

  maps-IsOrdered :
      (ms : List MpMap) (p : Pass) (log : List Command)
      → IsOrdered p.result
      → IsOrdered (scan_maps node cfg trigger ms p log).0.result
  unfolding scan_maps
  maps-IsOrdered [] p log h = h
  maps-IsOrdered (m ∷ ms) p log h =
      let out = scan_map node cfg trigger m p log in
      maps-IsOrdered ms out.0 out.1 (map-IsOrdered m p log h)

  -- The summary of a pass counts no more flushed maps than stale ones, no more of these than idle
  -- ones, and no more of these than maps of the vendor.
  pub scan_and_clean-IsOrdered :
      (streaks : Assoc ℕ) (log : List Command)
      → IsOrdered (scan_and_clean node cfg trigger streaks log).0.0
  unfolding scan_and_clean host_cmd finish_pass
  scan_and_clean-IsOrdered streaks log =
      let answer = node log (codes "multipath" ∷ codes "-ll" ∷ []) in
      ground (
        arith,
        maps-IsOrdered (parse_multipath answer.0)
            (record { streaks = streaks; seen = []; result = no_result })
            ((codes "multipath" ∷ codes "-ll" ∷ []) ∷ log),
      )
