-- ===== src/Stress/Pool/Removal.antt =====
-- What `deletePVCsFrom` leaves of the expected values.
use px_smt_multirealm_shim.Common.{
  ℕ, zero, suc, ◌+◌, ◌-◌, ◌≡◌, inl, inr, ◌&&◌, none, some, List, [], ◌∷◌, ◌==◌, leb, ltb,
  Option-cases, arith, if◌then◌else◌,
}
use px_smt_multirealm_shim.Common.Exec.{◌>>=◌}
use px_smt_multirealm_shim.Bytes.{Bytes}
use px_smt_multirealm_shim.Stress.{Options, Cluster, PoolState, run}
use px_smt_multirealm_shim.Stress.Pool.{
  value_at, delete_at, forget, delete_pvc, delete_pvcs, delete_pvcs_from,
}
use px_smt_multirealm_shim.Stress.Pool.Turns.{some_not_none}

value_at-delete_at :
    (ord j : ℕ) (m : List (ℕ × Bytes))
    → value_at j (delete_at ord m) ≡ (if ord == j then none else value_at j m)
unfolding value_at delete_at
value_at-delete_at ord j [] = ground arith
value_at-delete_at ord j ((i, v) ∷ m) = ground (arith, value_at-delete_at ord j m)

module _ (w : Cluster) (o : Options) (ns : Bytes) where
  delete_pvc_removes :
      (ord : ℕ) (p : PoolState) (j : ℕ)
      → (delete_pvc w o ns ord p).0 ≡ some tt
      → value_at j (delete_pvc w o ns ord p).1.expected
        ≡ (if ord == j then none else value_at j p.expected)
  unfolding delete_pvc run forget ◌>>=◌
  delete_pvc_removes ord p j s = ground (arith, value_at-delete_at ord j p.expected)

  delete_pvcs_removes :
      (n ord : ℕ) (p : PoolState) (j : ℕ)
      → (delete_pvcs w o ns ord n p).0 ≡ some tt
      → value_at j (delete_pvcs w o ns ord n p).1.expected
        ≡ (if leb ord j && ltb j (ord + n) then none else value_at j p.expected)
  unfolding delete_pvcs ◌>>=◌
  delete_pvcs_removes zero ord p j s = ground arith
  delete_pvcs_removes (suc n) ord p j s =
      let q = (delete_pvc w o ns ord p).1 in
      elim (Option-cases (delete_pvc w o ns ord p).0) [
        | inl e ↦ absurd (some_not_none (rw e at s))
        | inr (tt, e) ↦
            let rest = delete_pvcs_removes n (suc ord) q j (rw e at s) in
            rw e (ground (arith, rest, delete_pvc_removes ord p j e))
      ]

  -- When the volumes from `keep` on were deleted, no instance from `keep` to the largest ordinal is
  -- expected to hold a value, and for the others nothing has changed.
  pub delete_pvcs_from_removes :
      (keep : ℕ) (p : PoolState) (j : ℕ)
      → (delete_pvcs_from w o ns keep p).0 ≡ some tt
      → value_at j (delete_pvcs_from w o ns keep p).1.expected
        ≡ (if leb keep j && leb j o.max then none else value_at j p.expected)
  unfolding delete_pvcs_from
  delete_pvcs_from_removes keep p j s =
      ground (arith, delete_pvcs_removes (o.max + 1 - keep) keep p j s)
