-- ===== src/Cleaner/Scan/Verdict.antt =====
-- `pathsStale` against its description, on a node whose answers do not change during the scan.
use px_smt_multirealm_shim.Common.{
  ◌≡◌, refl, Bool, false, ◌&&◌, ◌||◌, not, List, [], ◌∷◌, ◌++◌, arith, any,
}
use px_smt_multirealm_shim.Bytes.{Bytes, codes, same}
use px_smt_multirealm_shim.Cleaner.{Command}
use px_smt_multirealm_shim.Cleaner.Scan.{
  state_of, path_state, id_of, scsi_id, is_running, check_paths, paths_stale, is_stale,
}

module _ (answer : Command → Bytes × Bool) (wwid : Bytes) where
  -- the SCSI id and the state that the node reports for a path
  abbrev pub reported_id : Bytes → Bytes
  reported_id dev = id_of (
      answer (
        codes "/lib/udev/scsi_id"
        ∷ codes "-g"
        ∷ codes "-u"
        ∷ codes "-d"
        ∷ (codes "/dev/" ++ dev)
        ∷ []))

  abbrev pub reported_state : Bytes → Bytes
  reported_state dev =
      state_of (answer (codes "cat" ∷ (codes "/sys/block/" ++ dev ++ codes "/device/state") ∷ []))

  -- the path answers with the id of another volume
  abbrev pub is_foreign : Bytes → Bool
  is_foreign dev = not (same (reported_id dev) []) && not (same (reported_id dev) wwid)

  -- the path has the map's id and runs
  abbrev pub is_healthy : Bytes → Bool
  is_healthy dev = same (reported_id dev) wwid && same (reported_state dev) (codes "running")

  running_verdict :
      (dev : Bytes) (log : List Command)
      → (is_running (λ _ c. answer c) wwid dev (reported_id dev) log).0 ≡ is_healthy dev
  unfolding is_running path_state
  running_verdict dev log = ground arith

  check_verdict :
      (h : Bool) (devs : List Bytes) (log : List Command)
      → is_stale (check_paths (λ _ c. answer c) wwid h devs log).0
        ≡ (any is_foreign devs || not (h || any is_healthy devs))
  unfolding check_paths scsi_id is_stale
  check_verdict h [] log = ground arith
  check_verdict h (dev ∷ devs) log =
      let run =
        is_running (λ _ c. answer c) wwid dev (reported_id dev)
          (scsi_id (λ _ c. answer c) dev log).1 in
      ground (
        arith,
        running_verdict dev (scsi_id (λ _ c. answer c) dev log).1,
        check_verdict (h || run.0) devs run.1,
      )

  -- A map counts as stale exactly if one of its paths shows another volume, or none of them is
  -- healthy; a map without paths is stale.
  pub paths_stale_verdict :
      (devs : List Bytes) (log : List Command)
      → is_stale (paths_stale (λ _ c. answer c) wwid devs log).0
        ≡ (any is_foreign devs || not (any is_healthy devs))
  unfolding paths_stale is_stale
  paths_stale_verdict [] log = refl
  paths_stale_verdict (dev ∷ devs) log = check_verdict false (dev ∷ devs) log
