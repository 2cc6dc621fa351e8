-- ===== src/Cleaner/Loop/Safety.antt =====
-- What holds in every reachable state of the cleaner.
use px_smt_multirealm_shim.Common.{
  ℕ, ◌<◌, ◌≤◌, ◌≡◌, ◌⊎◌, inl, inr, refl, ◌∙◌, Bool, true, false, ◌||◌, List, [], ◌∷◌, arith,
}
use px_smt_multirealm_shim.Bytes.{Bytes, codes}
use px_smt_multirealm_shim.Bytes.Assoc.{Assoc}
use px_smt_multirealm_shim.Cleaner.{MpMap, Config, Command, Node, host_cmd}
use px_smt_multirealm_shim.Cleaner.Parse.{parse_multipath}
use px_smt_multirealm_shim.Cleaner.Scan.{
  Trigger, poll, volumeattachment_delete, Pass, streak, scan_map, scan_maps, finish_pass, no_result,
  scan_and_clean,
}
use px_smt_multirealm_shim.Cleaner.Scan.Safety.{destructive, scan_and_clean-dry}
use px_smt_multirealm_shim.Cleaner.Scan.Grace.{streak-keep_seen, scan_map-streak}
use px_smt_multirealm_shim.Cleaner.Loop.{
  State, initial, notify, scan, Step, tick, event, take_token, wake, Reach, here, next,
}

-- no streak has reached the grace
abbrev pub IsBelow : Config → Assoc ℕ → Type 0
IsBelow cfg m = (v : Bytes) → streak m v < cfg.grace_polls

module _ (node : Node) (cfg : Config) (grace : 1 ≤ cfg.grace_polls) (trigger : Trigger) where
  map-IsBelow :
      (m : MpMap) (p : Pass) (log : List Command)
      → IsBelow cfg p.streaks
      → IsBelow cfg (scan_map node cfg trigger m p log).0.streaks
  map-IsBelow m p log h v =
      ground (arith, scan_map-streak node cfg trigger m p log v, h v, h m.wwid)

  maps-IsBelow :
      (ms : List MpMap) (p : Pass) (log : List Command)
      → IsBelow cfg p.streaks
      → IsBelow cfg (scan_maps node cfg trigger ms p log).0.streaks
  unfolding scan_maps
  maps-IsBelow [] p log h = h
  maps-IsBelow (m ∷ ms) p log h =
      let out = scan_map node cfg trigger m p log in
      maps-IsBelow ms out.0 out.1 (map-IsBelow m p log h)

  scan-IsBelow :
      (st : State)
      → IsBelow cfg st.orphan_streak
      → IsBelow cfg (scan node cfg trigger st).orphan_streak
  unfolding scan scan_and_clean host_cmd finish_pass
  scan-IsBelow st h v =
      let answer = node st.log (codes "multipath" ∷ codes "-ll" ∷ []) in
      let log = (codes "multipath" ∷ codes "-ll" ∷ []) ∷ st.log in
      let start : Pass = record { streaks = st.orphan_streak; seen = []; result = no_result } in
      let out = scan_maps node cfg trigger (parse_multipath answer.0) start log in
      ground (
        arith,
        maps-IsBelow (parse_multipath answer.0) start log h v,
        streak-keep_seen out.0.seen out.0.streaks v,
        h v,
      )

-- a scan that an event asked for has not begun yet
abbrev pub is_owed : State → Bool
is_owed st = st.pending || st.pausing

module _ (node : Node) (cfg : Config) (node_name : Bytes) where
  Step-IsBelow :
      {s t : State}
      → 1 ≤ cfg.grace_polls
      → Step node cfg node_name s t
      → IsBelow cfg s.orphan_streak
      → IsBelow cfg t.orphan_streak
  unfolding notify
  Step-IsBelow g (tick {st} _) h = scan-IsBelow node cfg g poll st h
  Step-IsBelow g (event {st} ev) h = λ v. ground (arith, h v)
  Step-IsBelow g (take_token {st} _ _) h = h
  Step-IsBelow g (wake {st} _) h =
      scan-IsBelow node cfg g volumeattachment_delete (record st { pausing = false }) h

  -- In every state that the cleaner reaches no streak has reached the grace: a map that had is
  -- disconnected, and its streak gone, in the same pass.
  pub Reach-IsBelow :
      {t : State}
      → 1 ≤ cfg.grace_polls
      → Reach node cfg node_name initial t
      → IsBelow cfg t.orphan_streak
  unfolding streak
  Reach-IsBelow g here = λ v. g
  Reach-IsBelow g (next r s) = Step-IsBelow g s (Reach-IsBelow g r)

  Step-dry :
      {s t : State}
      → cfg.dry_run ≡ true
      → Step node cfg node_name s t
      → destructive t.log ≡ destructive s.log
  unfolding notify scan
  Step-dry d (tick {st} _) = scan_and_clean-dry node cfg poll d st.orphan_streak st.log
  Step-dry d (event {st} ev) = ground arith
  Step-dry d (take_token {st} _ _) = refl
  Step-dry d (wake {st} _) =
      scan_and_clean-dry node cfg volumeattachment_delete d st.orphan_streak st.log

  -- In a dry run no state that the cleaner reaches has run a destructive command.
  pub Reach-dry :
      {s t : State}
      → cfg.dry_run ≡ true
      → Reach node cfg node_name s t
      → destructive t.log ≡ destructive s.log
  Reach-dry d here = refl
  Reach-dry d (next r s) = Step-dry d s ∙ Reach-dry d r

  -- A scan that is owed to a detach event stays owed at every step but the one that begins it.
  pub Step-owed :
      {s t : State}
      → is_owed s ≡ true
      → Step node cfg node_name s t
      → (is_owed t ≡ true)
        ⊎ (t ≡ scan node cfg volumeattachment_delete (record s { pausing = false }))
  unfolding notify scan
  Step-owed o (tick {st} _) = inl o
  Step-owed o (event {st} ev) = inl (ground arith)
  Step-owed o (take_token {st} _ _) = inl (ground arith)
  Step-owed o (wake {st} _) = inr refl
