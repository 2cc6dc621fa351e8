-- ===== src/Tests/Passes.antt =====
-- Two polls on a node that lists one abandoned map.
use px_smt_multirealm_shim.Common.{◌≡◌, ◌+◌, refl, [], ◌∷◌, true, false, if◌then◌else◌}
use px_smt_multirealm_shim.Bytes.{codes, same}
use px_smt_multirealm_shim.Cleaner.{MpMap, Config}
use px_smt_multirealm_shim.Cleaner.Parse.{parse_multipath}
use px_smt_multirealm_shim.Cleaner.Scan.{poll, streak, is_ours, is_zero, count_of, id_of}
use px_smt_multirealm_shim.Cleaner.Scan.Teardown.{Answers, steady, disconnects, teardown}
use px_smt_multirealm_shim.Cleaner.Scan.Refinement.{AreDistinct, listing}
use px_smt_multirealm_shim.Cleaner.Loop.{initial, scan}
use px_smt_multirealm_shim.Cleaner.Loop.Refinement.{view, scans, replay, clean_refines}
use px_smt_multirealm_shim.Cleaner.Loop.Grace.{IsAlone, polls, grace_exact}

abbrev listing_node : Answers
listing_node [] = ([], false)
listing_node (c ∷ cs) =
    if same c (codes "multipath")
    then (
      codes
          "mpatha (3624A93708a3c6a1c2d3e4f5000011b2c) dm-3 PURE,FlashArray\n  `- 7:0:0:1 sdb 8:16 active ready running\n",
      true,
    )
    else (codes "0", true)

abbrev two_polls_cfg : Config
two_polls_cfg = record { grace_polls = 2; vendor = codes "PURE"; dry_run = false }

listed-AreDistinct : AreDistinct (listing listing_node)
unfolding parse_multipath same
listed-AreDistinct = (tt, tt)

clean_refines_example :
    view (scans two_polls_cfg ((listing_node, poll) ∷ (listing_node, poll) ∷ []) initial)
    ≡ replay two_polls_cfg ((listing_node, poll) ∷ (listing_node, poll) ∷ []) (view initial)
clean_refines_example =
    clean_refines two_polls_cfg ((listing_node, poll) ∷ (listing_node, poll) ∷ []) initial
      (listed-AreDistinct, (listed-AreDistinct, tt))

abbrev map_b : MpMap
map_b = record {
  name = codes "mpatha";
  wwid = codes "3624a93708a3c6a1c2d3e4f5000011b2c";
  dm = codes "dm-3";
  vendor = codes "PURE,FlashArray";
  paths = codes "sdb" ∷ [];
}

listing-IsAlone : IsAlone two_polls_cfg map_b listing_node
unfolding parse_multipath same is_ours is_zero count_of id_of
listing-IsAlone = record {
  front = [];
  back = [];
  listed = refl;
  distinct = (tt, tt);
  heard = refl;
  abandoned = refl;
  front_in_use = tt;
  back_in_use = tt;
}

one_short : streak initial.orphan_streak map_b.wwid + 1 + 1 ≡ 2
unfolding streak
one_short = refl

grace_exact_example :
    let waiting = scans two_polls_cfg (polls (listing_node ∷ [])) initial in
    let done = scan (steady listing_node) two_polls_cfg poll waiting in
    (disconnects waiting.log ≡ [])
    × (streak waiting.orphan_streak map_b.wwid + 1 ≡ 2)
    × (disconnects done.log ≡ teardown map_b [])
    × (streak done.orphan_streak map_b.wwid ≡ 0)
grace_exact_example =
    grace_exact two_polls_cfg map_b (listing_node ∷ []) listing_node initial (listing-IsAlone, tt)
      listing-IsAlone one_short
