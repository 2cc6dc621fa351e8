-- ===== src/Config.antt =====
-- internal/config/config.go: the host map, the initiators of a host and the API token.
pub mod Initiators
pub mod Env
pub mod Cert
use px_smt_multirealm_shim.Common.{
  ℕ, Bool, true, false, ◌||◌, ◌≡◌, refl, List, [], ◌∷◌, ltb, leb, ◌==◌, if◌then◌else◌,
}
use px_smt_multirealm_shim.Bytes.{Bytes, codes, same}
use px_smt_multirealm_shim.Bytes.Split.{split, trim_space}

pub record HostMapping : Type 0 where
  pub node : Bytes
  pub array_host : Bytes
  pub iqns : Bytes
  pub wwns : Bytes
  pub nqns : Bytes
  pub legacy_iqn : Bytes

pub record Initiator : Type 0 where
  pub field : Bytes
  pub vals : List Bytes

-- the body of the loop of `splitCSV`
unfoldable pub keep_trimmed : List Bytes → List Bytes
unfolding trim_space same
keep_trimmed [] = []
keep_trimmed (p ∷ ps) =
    let rest = keep_trimmed ps in if same (trim_space p) [] then rest else trim_space p ∷ rest

unfoldable pub split_csv : Bytes → List Bytes
unfolding keep_trimmed split
split_csv s = keep_trimmed (split s b',')

unfoldable pub keep_configured : List Initiator → List Initiator
keep_configured [] = []
keep_configured (i ∷ is) =
    let rest = keep_configured is in elim i.vals [ [] ↦ rest | _ ∷ _ ↦ i ∷ rest ]

-- the plural field, or the legacy one if that gives nothing
unfoldable pub iqns_or_legacy : List Bytes → Bytes → List Bytes
unfolding split_csv
iqns_or_legacy [] legacy = split_csv legacy
iqns_or_legacy (v ∷ vs) legacy = v ∷ vs

-- `HostMapping.Initiators`
unfoldable pub initiators : HostMapping → List Initiator
initiators h = keep_configured (
    record { field = codes "iqns"; vals = iqns_or_legacy (split_csv h.iqns) h.legacy_iqn }
    ∷ record { field = codes "wwns"; vals = split_csv h.wwns }
    ∷ record { field = codes "nqns"; vals = split_csv h.nqns }
    ∷ [])

-- the bytes that `sanitizeAPIToken` drops
unfoldable pub is_control : ℕ → Bool
is_control c = leb c 0x20 || c == 0x7f

unfoldable pub sanitize_api_token : Bytes → Bytes
unfolding is_control
sanitize_api_token [] = []
sanitize_api_token (c ∷ s) =
    let rest = sanitize_api_token s in if is_control c then rest else c ∷ rest
