-- ===== src/Cleaner/Scan/Refinement.antt =====
-- `scanAndClean` against a description without a map of streaks: a function from WWIDs to streaks and
-- the list of commands that disconnect maps.
use px_smt_multirealm_shim.Common.{
  ℕ, ◌+◌, ◌≡◌, refl, ◌∙◌, ap, Bool, true, false, ◌&&◌, ◌||◌, not, Bool-cases, inl, inr, List, [],
  ◌∷◌, All, arith, any, if◌then◌else◌,
}
use px_smt_multirealm_shim.Bytes.{Bytes, codes, same, same_iff}
use px_smt_multirealm_shim.Bytes.Assoc.{Assoc}
use px_smt_multirealm_shim.Cleaner.{MpMap, Config, Command, host_cmd}
use px_smt_multirealm_shim.Cleaner.Parse.{parse_multipath}
use px_smt_multirealm_shim.Cleaner.Scan.{
  open_command, count_of, open_count, is_ours, Trigger, Pass, streak, note_map, count_idle,
  count_stale, count_flushed, reset_streak, settle_stale, settle_idle, scan_map, scan_maps,
  no_result, finish_pass, scan_and_clean,
}
use px_smt_multirealm_shim.Cleaner.Scan.Verdict.{paths_stale_verdict}
use px_smt_multirealm_shim.Cleaner.Scan.Grace.{scan_map-streak, streak-keep_seen}
use px_smt_multirealm_shim.Cleaner.Scan.Teardown.{
  Answers, steady, disconnects, teardown, is_abandoned, is_long, map_adds,
}

-- no two maps of the listing have one WWID
abbrev pub AreDistinct : List MpMap → Type 0
AreDistinct [] = Unit
AreDistinct (m ∷ ms) = All (λ (k : MpMap). same m.wwid k.wwid ≡ false) ms × AreDistinct ms

abbrev pub listing : Answers → List MpMap
listing answer = parse_multipath (answer (codes "multipath" ∷ codes "-ll" ∷ [])).0

module _ (answer : Answers) (cfg : Config) (trigger : Trigger) where
  abbrev pub is_listed : Bytes → MpMap → Bool
  is_listed v m = is_ours cfg m && same m.wwid v

  -- the streak of a WWID after a pass over these maps, from the one before
  abbrev pub next_streak : List MpMap → Bytes → ℕ → ℕ
  next_streak ms v n =
      if any (λ m. is_abandoned answer cfg m && same m.wwid v) ms
        && not (is_long answer cfg trigger (n + 1))
      then n + 1
      else 0

  -- what a pass over these maps disconnects, from the streaks before it
  abbrev pub next_disconnects : List MpMap → (Bytes → ℕ) → List Command → List Command
  next_disconnects [] f log = log
  next_disconnects (m ∷ ms) f log = next_disconnects ms f (
      if is_abandoned answer cfg m && (is_long answer cfg trigger (f m.wwid + 1) && not cfg.dry_run)
      then teardown m log
      else log)

  open_counts :
      (name : Bytes) (log : List Command)
      → (open_count (steady answer) name log).0 ≡ count_of (answer (open_command name))
  unfolding open_count
  open_counts name log = refl

  map_streak :
      (m : MpMap) (p : Pass) (log : List Command) (v : Bytes)
      → streak (scan_map (steady answer) cfg trigger m p log).0.streaks v ≡ (
          if is_listed v m then next_streak (m ∷ []) v (streak p.streaks v) else streak p.streaks v)
  map_streak m p log v = elim (Bool-cases (same m.wwid v)) [
    | inl e ↦
        let eq : m.wwid ≡ v = (same_iff m.wwid v).0 e in
        ground (
          arith,
          eq,
          open_counts m.name log,
          scan_map-streak (steady answer) cfg trigger m p log v,
          paths_stale_verdict answer m.wwid m.paths (open_count (steady answer) m.name log).1,
        )
    | inr e ↦ ground (arith, scan_map-streak (steady answer) cfg trigger m p log v)
  ]

  map_seen :
      (m : MpMap) (p : Pass) (log : List Command)
      → (scan_map (steady answer) cfg trigger m p log).0.seen
        ≡ (if is_ours cfg m then m.wwid ∷ p.seen else p.seen)
  unfolding scan_map settle_idle settle_stale note_map count_idle count_stale count_flushed
      reset_streak
  map_seen m p log = ground arith

  -- a map of another WWID has no part in the streak
  apart :
      (w v : Bytes) (ms : List MpMap)
      → same w v ≡ true
      → All (λ (k : MpMap). same w k.wwid ≡ false) ms
      → (any (λ m. is_abandoned answer cfg m && same m.wwid v) ms ≡ false)
        × (any (is_listed v) ms ≡ false)
  apart w v [] e h = (refl, refl)
  apart w v (k ∷ ms) e (hk, h) =
      ground (arith, same_iff w v, same_iff k.wwid v, same_iff w k.wwid, apart w v ms)

  maps_streak :
      (ms : List MpMap) (p : Pass) (log : List Command) (v : Bytes)
      → AreDistinct ms
      → streak (scan_maps (steady answer) cfg trigger ms p log).0.streaks v ≡ (
          if any (is_listed v) ms
          then next_streak ms v (streak p.streaks v)
          else streak p.streaks v)
  unfolding scan_maps
  maps_streak [] p log v d = refl
  maps_streak (m ∷ ms) p log v (dm, d) =
      let out = scan_map (steady answer) cfg trigger m p log in
      elim (Bool-cases (same m.wwid v)) [
        | inl e ↦
            let rest = apart m.wwid v ms e dm in
            ground (arith, rest, map_streak m p log v, maps_streak ms out.0 out.1 v d)
        | inr e ↦ ground (arith, map_streak m p log v, maps_streak ms out.0 out.1 v d)
      ]

  unlisted :
      (v : Bytes) (ms : List MpMap)
      → any (is_listed v) ms ≡ false
      → any (λ m. is_abandoned answer cfg m && same m.wwid v) ms ≡ false
  unlisted v [] h = refl
  unlisted v (m ∷ ms) h = ground (arith, unlisted v ms)

  maps_seen :
      (ms : List MpMap) (p : Pass) (log : List Command) (v : Bytes)
      → any (λ s. same s v) (scan_maps (steady answer) cfg trigger ms p log).0.seen
        ≡ (any (is_listed v) ms || any (λ s. same s v) p.seen)
  unfolding scan_maps
  maps_seen [] p log v = refl
  maps_seen (m ∷ ms) p log v =
      let out = scan_map (steady answer) cfg trigger m p log in
      ground (arith, map_seen m p log, maps_seen ms out.0 out.1 v)

  agree :
      (m : MpMap) (ms : List MpMap) (p : Pass) (log : List Command)
      → All (λ (k : MpMap). same m.wwid k.wwid ≡ false) ms
      → All
          (λ (k : MpMap).
            streak (scan_map (steady answer) cfg trigger m p log).0.streaks k.wwid
            ≡ streak p.streaks k.wwid)
          ms
  agree m [] p log h = tt
  agree m (k ∷ ms) p log (hk, h) = (ground (arith, map_streak m p log k.wwid), agree m ms p log h)

  next_disconnects_agree :
      (ms : List MpMap) (f g : Bytes → ℕ) (log : List Command)
      → All (λ (k : MpMap). f k.wwid ≡ g k.wwid) ms
      → next_disconnects ms f log ≡ next_disconnects ms g log
  next_disconnects_agree [] f g log h = refl
  next_disconnects_agree (m ∷ ms) f g log (hm, h) = rw hm (next_disconnects_agree ms f g _ h)

  maps_disconnect :
      (ms : List MpMap) (p : Pass) (log : List Command)
      → AreDistinct ms
      → disconnects (scan_maps (steady answer) cfg trigger ms p log).1
        ≡ next_disconnects ms (streak p.streaks) (disconnects log)
  unfolding scan_maps
  maps_disconnect [] p log d = refl
  maps_disconnect (m ∷ ms) p log (dm, d) =
      let out = scan_map (steady answer) cfg trigger m p log in
      maps_disconnect ms out.0 out.1 d
      ∙ next_disconnects_agree ms (streak out.0.streaks) (streak p.streaks) _ (agree m ms p log dm)
      ∙ ap (next_disconnects ms (streak p.streaks)) (map_adds answer cfg trigger m p log)

  -- `multipath -ll` failed, and printed nothing
  abbrev pub is_silent : Bool
  is_silent =
      not (answer (codes "multipath" ∷ codes "-ll" ∷ [])).1
      && same (answer (codes "multipath" ∷ codes "-ll" ∷ [])).0 []

  -- one pass, on a function and a list
  abbrev pub described_pass : (Bytes → ℕ) × List Command → (Bytes → ℕ) × List Command
  described_pass (f, log) =
      if is_silent
      then (f, log)
      else (λ v. next_streak (listing answer) v (f v), next_disconnects (listing answer) f log)

  pub pass_streak :
      (streaks : Assoc ℕ) (log : List Command) (v : Bytes)
      → AreDistinct (listing answer)
      → streak (scan_and_clean (steady answer) cfg trigger streaks log).0.1 v ≡ (
          if is_silent then streak streaks v else next_streak (listing answer) v (streak streaks v))
  unfolding scan_and_clean host_cmd finish_pass
  pass_streak streaks log v d =
      let log' = (codes "multipath" ∷ codes "-ll" ∷ []) ∷ log in
      let start : Pass = record { streaks = streaks; seen = []; result = no_result } in
      let out = scan_maps (steady answer) cfg trigger (listing answer) start log' in
      elim (Bool-cases is_silent) [
        | inl e ↦ rw e refl
        | inr e ↦ rw e (
            ground (
              arith,
              streak-keep_seen out.0.seen out.0.streaks v,
              maps_streak (listing answer) start log' v d,
              maps_seen (listing answer) start log' v,
              unlisted v (listing answer),
            ))
      ]

  pub pass_disconnects :
      (streaks : Assoc ℕ) (log : List Command)
      → AreDistinct (listing answer)
      → disconnects (scan_and_clean (steady answer) cfg trigger streaks log).1 ≡ (
          if is_silent
          then disconnects log
          else next_disconnects (listing answer) (streak streaks) (disconnects log))
  unfolding scan_and_clean host_cmd
  pass_disconnects streaks log d =
      let log' = (codes "multipath" ∷ codes "-ll" ∷ []) ∷ log in
      let start : Pass = record { streaks = streaks; seen = []; result = no_result } in
      elim (Bool-cases is_silent) [
        | inl e ↦ rw e refl
        | inr e ↦ rw e (maps_disconnect (listing answer) start log' d)
      ]
