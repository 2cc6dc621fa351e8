-- ===== src/Tests/Maps.antt =====
-- The cleaner at concrete inputs: a node that answers every command, a map, and two listings.
use px_smt_multirealm_shim.Common.{◌≡◌, refl, Bool, true, false, ◌||◌, not, [], ◌∷◌, arith, any}
use px_smt_multirealm_shim.Bytes.{Bytes, codes}
use px_smt_multirealm_shim.Cleaner.{MpMap, Config, Command, Node}
use px_smt_multirealm_shim.Cleaner.Parse.{parse_multipath}
use px_smt_multirealm_shim.Cleaner.Scan.{
  open_count, paths_stale, is_stale, full_disconnect, volumeattachment_delete, Pass, is_ours,
  is_zero, scan_map, no_result,
}
use px_smt_multirealm_shim.Cleaner.Scan.Safety.{destructive, MayFlush, scan_map-MayFlush}
use px_smt_multirealm_shim.Cleaner.Scan.Verdict.{is_foreign, is_healthy, paths_stale_verdict}
use px_smt_multirealm_shim.Cleaner.Scan.{settle_idle}
use px_smt_multirealm_shim.Cleaner.Scan.{settle_stale}
use px_smt_multirealm_shim.Cleaner.Scan.{is_event}

-- "0" to every command: no map is open, and every path has a foreign id
abbrev idle_node : Node
idle_node before c = (codes "0", true)

abbrev answers : Command → Bytes × Bool
answers c = (codes "0", true)

abbrev pure_cfg : Config
pure_cfg = record { grace_polls = 3; vendor = codes "PURE"; dry_run = false }

abbrev dry_cfg : Config
dry_cfg = record pure_cfg { dry_run = true }

abbrev wwid_a : Bytes
wwid_a = codes "3624a93708a3c6a1c2d3e4f5000011b2c"

abbrev map_a : MpMap
map_a = record {
  name = codes "mpatha";
  wwid = wwid_a;
  dm = codes "dm-3";
  vendor = codes "PURE,FlashArray";
  paths = codes "sdb" ∷ [];
}

abbrev start : Pass
start = record { streaks = []; seen = []; result = no_result }

-- an event disconnects the map
flushed_now : destructive (scan_map idle_node pure_cfg volumeattachment_delete map_a start []).1 ≡ 2
unfolding scan_map is_ours is_zero open_count settle_idle is_stale paths_stale settle_stale is_event
    full_disconnect
flushed_now = refl

scan_map-MayFlush_example : MayFlush idle_node pure_cfg volumeattachment_delete map_a start []
scan_map-MayFlush_example =
    scan_map-MayFlush idle_node pure_cfg volumeattachment_delete map_a start []
      (λ e. omega (arith, flushed_now, e))

paths_stale_verdict_example :
    is_stale (paths_stale (λ _ c. answers c) wwid_a (codes "sdb" ∷ []) []).0 ≡ (
      any (is_foreign answers wwid_a) (codes "sdb" ∷ [])
      || not (any (is_healthy answers wwid_a) (codes "sdb" ∷ [])))
paths_stale_verdict_example = paths_stale_verdict answers wwid_a (codes "sdb" ∷ []) []

-- a listing with an alias, and one without
listed_alias :
    parse_multipath (
      codes
        "mpatha (3624A93708a3c6a1c2d3e4f5000011b2c) dm-3 PURE,FlashArray\nsize=10G features='0'\n`-+- policy='service-time 0' prio=50\n  `- 7:0:0:1 sdb 8:16 active ready running\n")
    ≡ map_a ∷ []
unfolding parse_multipath
listed_alias = refl

listed_plain :
    parse_multipath
      (codes "3624a93708a3c6a1c2d3e4f5000011b2c dm-3 PURE,FlashArray\r\n  |- 7:0:0:1 sdb 8:16\r\n")
    ≡ record map_a { name = wwid_a } ∷ []
unfolding parse_multipath
listed_plain = refl
