-- ===== src/Config/Initiators.antt =====
-- What the lists of a host mapping hold, and which transports are passed on.
use px_smt_multirealm_shim.Common.{◌≡◌, ◌≢◌, refl, false, List, [], ◌∷◌, arith, All}
use px_smt_multirealm_shim.Bytes.{codes, same}
use px_smt_multirealm_shim.Config.{
  HostMapping, Initiator, split_csv, keep_configured, iqns_or_legacy, initiators,
}

-- a transport of the array with at least one identifier
abbrev pub IsTransport : Initiator → Type 0
IsTransport i = (i.vals ≢ []) × (same i.field (codes "name") ≡ false)

keep-All :
    (is : List Initiator)
    → All (λ (i : Initiator). same i.field (codes "name") ≡ false) is
    → All IsTransport (keep_configured is)
unfolding keep_configured
keep-All [] h = tt
keep-All (i ∷ is) (hi, h) = ground (arith, keep-All is h)

-- Every group that a host mapping yields has an identifier, and is no field `name`.
pub initiators-IsTransport : (h : HostMapping) → All IsTransport (initiators h)
unfolding initiators same
initiators-IsTransport h =
    keep-All
      (record { field = codes "iqns"; vals = iqns_or_legacy (split_csv h.iqns) h.legacy_iqn }
        ∷ record { field = codes "wwns"; vals = split_csv h.wwns }
        ∷ record { field = codes "nqns"; vals = split_csv h.nqns }
        ∷ [])
      (refl, (refl, (refl, tt)))
