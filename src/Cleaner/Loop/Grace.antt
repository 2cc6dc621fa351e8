-- ===== src/Cleaner/Loop/Grace.antt =====
-- How many polls a map that stays abandoned is left alone.
use px_smt_multirealm_shim.Common.{
  ℕ, ◌+◌, ◌<◌, ◌≡◌, refl, ◌∙◌, ap, Bool, true, false, ◌&&◌, not, List, [], ◌∷◌, ◌++◌, leb, map,
  length, All, any, arith, if◌then◌else◌,
}
use px_smt_multirealm_shim.Bytes.{Bytes, same}
use px_smt_multirealm_shim.Bytes.Search.{same_refl}
use px_smt_multirealm_shim.Cleaner.{MpMap, Config, Command}
use px_smt_multirealm_shim.Cleaner.Scan.{Trigger, poll, is_event, streak}
use px_smt_multirealm_shim.Cleaner.Scan.Teardown.{
  Answers, steady, disconnects, teardown, is_abandoned,
}
use px_smt_multirealm_shim.Cleaner.Scan.Refinement.{
  AreDistinct, listing, next_disconnects, is_silent,
}
use px_smt_multirealm_shim.Cleaner.Loop.{State, scan}
use px_smt_multirealm_shim.Cleaner.Loop.Refinement.{scans, scan_view}

-- A node that lists the map, finds it abandoned, and finds so no other map. It names no map twice.
pub record IsAlone (cfg : Config) (m : MpMap) (answer : Answers) : Type 0 where
  pub front : List MpMap
  pub back : List MpMap
  pub listed : listing answer ≡ front ++ m ∷ back
  pub distinct : AreDistinct (listing answer)
  pub heard : is_silent answer cfg poll ≡ false
  pub abandoned : is_abandoned answer cfg m ≡ true
  pub front_in_use : All (λ (k : MpMap). is_abandoned answer cfg k ≡ false) front
  pub back_in_use : All (λ (k : MpMap). is_abandoned answer cfg k ≡ false) back

-- polls only, one of each node
abbrev pub polls : List Answers → List (Answers × Trigger)
polls = map (λ (a : Answers). (a, poll))

module _ (cfg : Config) (m : MpMap) (answer : Answers) where
  found :
      (front back : List MpMap)
      → is_abandoned answer cfg m ≡ true
      → any (λ k. is_abandoned answer cfg k && same k.wwid m.wwid) (front ++ m ∷ back) ≡ true
  found [] back h = ground (arith, h, same_refl m.wwid)
  found (k ∷ front) back h = ground (arith, found front back h)

  passed :
      (ms : List MpMap) (f : Bytes → ℕ) (log : List Command)
      → All (λ (k : MpMap). is_abandoned answer cfg k ≡ false) ms
      → next_disconnects answer cfg poll ms f log ≡ log
  passed [] f log h = refl
  passed (k ∷ ms) f log (hk, h) = rw hk (passed ms f log h)

  abbrev is_due : (Bytes → ℕ) → Bool
  is_due f = leb cfg.grace_polls (f m.wwid + 1)

  only_one :
      (front back : List MpMap) (f : Bytes → ℕ) (log : List Command)
      → is_abandoned answer cfg m ≡ true
      → All (λ (k : MpMap). is_abandoned answer cfg k ≡ false) front
      → All (λ (k : MpMap). is_abandoned answer cfg k ≡ false) back
      → next_disconnects answer cfg poll (front ++ m ∷ back) f log
        ≡ (if is_due f && not cfg.dry_run then teardown m log else log)
  unfolding is_event
  only_one [] back f log h hf hb = passed back f _ hb ∙ ground (arith, h)
  only_one (k ∷ front) back f log h (hk, hf) hb =
      ground (arith, hk, only_one front back f log h hf hb)

  module _ (alone : IsAlone cfg m answer) (st : State) where
    scan-streak :
        streak (scan (steady answer) cfg poll st).orphan_streak m.wwid
        ≡ (if is_due (streak st.orphan_streak) then 0 else streak st.orphan_streak m.wwid + 1)
    unfolding is_event
    scan-streak =
        ap (λ s. s.0 m.wwid) (scan_view cfg answer poll st alone.distinct)
        ∙ ground (arith, alone.heard, alone.listed, found alone.front alone.back alone.abandoned)

    scan-disconnects : disconnects (scan (steady answer) cfg poll st).log ≡ (
        if is_due (streak st.orphan_streak) && not cfg.dry_run
        then teardown m (disconnects st.log)
        else disconnects st.log)
    scan-disconnects =
        ap (λ s. s.1) (scan_view cfg answer poll st alone.distinct)
        ∙ ground (
          arith,
          alone.heard,
          alone.listed,
          only_one alone.front alone.back (streak st.orphan_streak) (disconnects st.log)
              alone.abandoned alone.front_in_use alone.back_in_use,
        )

module _ (cfg : Config) (m : MpMap) where
  waits :
      (seen : List Answers) (st : State)
      → All (IsAlone cfg m) seen
      → streak st.orphan_streak m.wwid + length seen < cfg.grace_polls
      → (streak (scans cfg (polls seen) st).orphan_streak m.wwid
          ≡ streak st.orphan_streak m.wwid + length seen)
        × (disconnects (scans cfg (polls seen) st).log ≡ disconnects st.log)
  unfolding scans
  waits [] st h b = (omega arith, refl)
  waits (a ∷ seen) st (ha, h) b =
      let next = scan (steady a) cfg poll st in
      let counted : streak next.orphan_streak m.wwid ≡ streak st.orphan_streak m.wwid + 1 =
        ground (arith, scan-streak cfg m a ha st) in
      let quiet : disconnects next.log ≡ disconnects st.log =
        ground (arith, scan-disconnects cfg m a ha st) in
      let (s, d) = waits seen next h (omega (arith, counted)) in
      (omega (arith, counted, s), d ∙ quiet)

  -- A map that each of a row of polls lists and finds abandoned, and no other, is left alone until its
  -- streak is one short of the grace. The next such poll disconnects it, unless it is a dry run, and
  -- clears its streak.
  pub grace_exact :
      (seen : List Answers) (last : Answers) (st : State)
      → All (IsAlone cfg m) seen
      → IsAlone cfg m last
      → streak st.orphan_streak m.wwid + length seen + 1 ≡ cfg.grace_polls
      → let waiting = scans cfg (polls seen) st in
        let done = scan (steady last) cfg poll waiting in
        (disconnects waiting.log ≡ disconnects st.log)
        × (streak waiting.orphan_streak m.wwid + 1 ≡ cfg.grace_polls)
        × (disconnects done.log
            ≡ (if cfg.dry_run then disconnects st.log else teardown m (disconnects st.log)))
        × (streak done.orphan_streak m.wwid ≡ 0)
  grace_exact seen last st h hl e =
      let waiting = scans cfg (polls seen) st in
      let (s, d) = waits seen st h (omega arith) in
      (
        d,
        omega (arith, s),
        ground (arith, d, s, e, scan-disconnects cfg m last hl waiting),
        ground (arith, s, e, scan-streak cfg m last hl waiting),
      )
