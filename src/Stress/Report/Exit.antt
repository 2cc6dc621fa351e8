-- ===== src/Stress/Report/Exit.antt =====
-- The report and the exit code, whatever the order in which the pools fail.
use px_smt_multirealm_shim.Common.{
  ℕ, zero, suc, Bool, true, false, if◌then◌else◌, ap, ◌+◌, ◌<◌, inl, inr, Option, none, some, ◌≡◌,
  ◌↔◌, refl, List, [], ◌∷◌, length, All, arith,
}
use px_smt_multirealm_shim.Bytes.{Bytes}
use px_smt_multirealm_shim.Stress.{Options, Cluster}
use px_smt_multirealm_shim.Stress.Cycle.Failures.{Adds, run_pool-Adds}
use px_smt_multirealm_shim.Stress.Report.{
  ns_name, new_pool, pool_failures, Merge, empty, left, right, Collects, nothing, pool, exit_code,
  delete_namespaces, delete_command, finish,
}

abbrev total : List (List Bytes) → ℕ
total [] = 0
total (f ∷ fs) = length f + total fs

-- the pools that recorded a failure
abbrev pub failed : List (List Bytes) → ℕ
failed [] = 0
failed ([] ∷ fs) = failed fs
failed ((_ ∷ _) ∷ fs) = failed fs + 1

-- each pool recorded nothing, or one entry with the name of its own namespace
abbrev pub AreOwn : Options → ℕ → List (List Bytes) → Type 0
AreOwn o idx [] = Unit
AreOwn o idx (f ∷ fs) = Adds (ns_name o idx) [] f × AreOwn o (suc idx) fs

abbrev pub at_index : ℕ → List (List Bytes) → Option (List Bytes)
at_index i [] = none
at_index zero (c ∷ cs) = some c
at_index (suc i) (c ∷ cs) = at_index i cs

abbrev AreEmpty : List (List Bytes) → Type 0
AreEmpty = All (λ (f : List Bytes). length f ≡ 0)

length-Merge : {xs ys zs : List Bytes} → Merge xs ys zs → length zs ≡ length xs + length ys
length-Merge empty = refl
length-Merge (left m) = omega (arith, length-Merge m)
length-Merge (right m) = omega (arith, length-Merge m)

length-Collects :
    {fs : List (List Bytes)} {out : List Bytes} → Collects fs out → length out ≡ total fs
length-Collects nothing = refl
length-Collects (pool c m) = omega (arith, length-Merge m, length-Collects c)

pools-AreOwn :
    (o : Options) (cycles idx : ℕ) (ws : List Cluster)
    → AreOwn o idx (pool_failures o cycles idx ws)
unfolding pool_failures
pools-AreOwn o cycles idx [] = tt
pools-AreOwn o cycles idx (w ∷ ws) =
    (run_pool-Adds w o (ns_name o idx) idx cycles new_pool, pools-AreOwn o cycles (suc idx) ws)

one_failed :
    (ns : Bytes) (f : List Bytes) (fs : List (List Bytes))
    → Adds ns [] f
    → failed (f ∷ fs) ≡ length f + failed fs
one_failed ns f fs (inl e) = rw e (omega arith)
one_failed ns f fs (inr (step, e)) = rw e (omega arith)

total-failed :
    (o : Options) (idx : ℕ) (fs : List (List Bytes)) → AreOwn o idx fs → total fs ≡ failed fs
total-failed o idx [] h = refl
total-failed o idx (f ∷ fs) (own, h) =
    omega (arith, one_failed (ns_name o idx) f fs own, total-failed o (suc idx) fs h)

AreEmpty-total : (fs : List (List Bytes)) → (total fs ≡ 0) ↔ AreEmpty fs
AreEmpty-total [] = (λ h. tt, λ h. refl)
AreEmpty-total (f ∷ fs) = (
  λ h. (omega arith, (AreEmpty-total fs).0 (omega arith)),
  λ h. omega (arith, h.0, (AreEmpty-total fs).1 h.1),
)

exit_total : (out : List Bytes) → (exit_code out ≡ 0) ↔ (length out ≡ 0)
unfolding exit_code
exit_total [] = ground arith
exit_total (_ ∷ _) = ground arith

length-delete_namespaces : (o : Options) (idx n : ℕ) → length (delete_namespaces o idx n) ≡ n
unfolding delete_namespaces
length-delete_namespaces o idx zero = refl
length-delete_namespaces o idx (suc n) = ap suc (length-delete_namespaces o (suc idx) n)

at_index-delete_namespaces :
    (o : Options) (idx n i k : ℕ)
    → i < n
    → k ≡ idx + i
    → at_index i (delete_namespaces o idx n) ≡ some (delete_command o (ns_name o k))
unfolding delete_namespaces
at_index-delete_namespaces o idx zero i k h e = absurd (omega arith)
at_index-delete_namespaces o idx (suc n) zero k h e =
    let first : idx ≡ k = omega arith in ap (λ j. some (delete_command o (ns_name o j))) first
at_index-delete_namespaces o idx (suc n) (suc i) k h e =
    at_index-delete_namespaces o (suc idx) n i k (omega arith) (omega arith)

-- the commands delete the namespaces of so many pools, each once and in order
abbrev pub AreDeletions : Options → ℕ → List (List Bytes) → Type 0
AreDeletions o n cs =
    (length cs ≡ n) × ((i : ℕ) → i < n → at_index i cs ≡ some (delete_command o (ns_name o i)))

finish-AreDeletions :
    (o : Options) (cleanup : Bool) (n : ℕ) (fails : List Bytes)
    → AreDeletions o (if cleanup then n else 0) (finish o cleanup n fails).0
unfolding finish
finish-AreDeletions o true n fails =
    (length-delete_namespaces o 0 n, λ i h. at_index-delete_namespaces o 0 n i i h (omega arith))
finish-AreDeletions o false n fails = (refl, λ i h. absurd (omega arith))

-- Each pool records nothing, or one entry with the name of its own namespace. In whatever order the
-- entries come in, the report has as many as there are pools that failed, the exit code is 0 exactly if
-- none did, and the commands that follow delete the namespace of each pool once, if they are to be
-- deleted, and else there are none.
pub report_exit :
    (o : Options) (cleanup : Bool) (cycles : ℕ) (ws : List Cluster) (report : List Bytes)
    → Collects (pool_failures o cycles 0 ws) report
    → AreOwn o 0 (pool_failures o cycles 0 ws)
      × (length report ≡ failed (pool_failures o cycles 0 ws))
      × (((finish o cleanup (length ws) report).1 ≡ 0)
          ↔ All (λ (f : List Bytes). length f ≡ 0) (pool_failures o cycles 0 ws))
      × AreDeletions o (if cleanup then length ws else 0) (finish o cleanup (length ws) report).0
unfolding finish
report_exit o cleanup cycles ws report c =
    let own = pools-AreOwn o cycles 0 ws in
    let n = length-Collects c in
    let exits = exit_total report in
    let empties = AreEmpty-total (pool_failures o cycles 0 ws) in
    (
      own,
      omega (arith, n, total-failed o 0 (pool_failures o cycles 0 ws) own),
      (λ h. empties.0 (omega (arith, n, exits.0 h)), λ h. exits.1 (omega (arith, n, empties.1 h))),
      finish-AreDeletions o cleanup (length ws) report,
    )
