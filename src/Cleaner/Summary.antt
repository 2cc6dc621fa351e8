-- ===== src/Cleaner/Summary.antt =====
-- cmd/fada-cleaner/main.go: the closure `report` of `main`, which writes a line for a scan.
pub mod Silence
use px_smt_multirealm_shim.Common.{
  ℕ, ◌-◌, Bool, true, false, ◌&&◌, ◌||◌, not, Option, none, some, List, [], ◌∷◌, ◌++◌, ltb, leb,
  if◌then◌else◌,
}
use px_smt_multirealm_shim.Bytes.{Bytes, codes, same}
use px_smt_multirealm_shim.Bytes.Number.{ℤ, pos, negsuc, decimal}
use px_smt_multirealm_shim.Cleaner.Scan.{
  Trigger, poll, volumeattachment_delete, is_event, ScanResult,
}

-- `lastSummary` and `lastLog`, none for the zero time; times are in nanoseconds.
pub record Reporter : Type 0 where
  pub last_summary : Bytes
  pub last_log : Option ℕ

abbrev pub silent_start : Reporter
silent_start = record { last_summary = []; last_log = none }

unfoldable pub summary : ScanResult → Bytes
unfolding decimal
summary r =
    codes "pure="
    ++ decimal r.ours
    ++ codes " idle="
    ++ decimal r.idle
    ++ codes " stale="
    ++ decimal r.stale
    ++ codes " flushed="
    ++ decimal r.flushed

unfoldable pub trigger_name : Trigger → Bytes
trigger_name poll = codes "poll"
trigger_name volumeattachment_delete = codes "volumeattachment-delete"

-- `now.Sub(lastLog) >= heartbeat`; from the zero time it is more than any duration.
unfoldable pub is_due : ℤ → Option ℕ → ℕ → Bool
is_due heartbeat none now = true
is_due (negsuc _) (some t) now = true
is_due (pos h) (some t) now = leb h (now - t)

unfoldable pub is_news : ℤ → Trigger → ScanResult → ℕ → Reporter → Bool
unfolding summary is_due is_event same
is_news heartbeat trigger r now rep =
    is_event trigger
    || ltb 0 r.flushed
    || not (same (summary r) rep.last_summary)
    || is_due heartbeat rep.last_log now

-- `report`: the line, if one is written, and what is remembered
unfoldable pub report : ℤ → Trigger → ScanResult → ℕ → Reporter → Option Bytes × Reporter
unfolding is_news summary trigger_name
report heartbeat trigger r now rep =
    if is_news heartbeat trigger r now rep
    then (
      some (codes "scan trigger=" ++ trigger_name trigger ++ codes " " ++ summary r),
      record { last_summary = summary r; last_log = some now },
    )
    else (none, rep)

-- a scan that is reported
pub record Scanned : Type 0 where
  pub trigger : Trigger
  pub result : ScanResult
  pub time : ℕ

-- what is remembered after these scans, the last one first
unfoldable pub remembered : ℤ → List Scanned → Reporter
unfolding report
remembered heartbeat [] = silent_start
remembered heartbeat (s ∷ before) =
    (report heartbeat s.trigger s.result s.time (remembered heartbeat before)).1
