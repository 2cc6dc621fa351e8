-- ===== src/Proxy/Log/Headers.antt =====
-- internal/proxy/log.go: `logHeaders`. A header is a Go map: its keys in the order of the iteration, and
-- the values of each.
pub mod Order
use px_smt_multirealm_shim.Common.{Bool, true, false, List, [], ◌∷◌, ◌++◌, if◌then◌else◌}
use px_smt_multirealm_shim.Bytes.{Bytes, codes}
use px_smt_multirealm_shim.Json.{lt_bytes}
use px_smt_multirealm_shim.Proxy.Log.{shown_header}

pub record Header : Type 0 where
  pub keys : List Bytes
  pub values : Bytes → List Bytes

unfoldable pub insert_key : Bytes → List Bytes → List Bytes
unfolding lt_bytes
insert_key k [] = k ∷ []
insert_key k (j ∷ ks) = let rest = insert_key k ks in if lt_bytes j k then j ∷ rest else k ∷ j ∷ ks

-- `sort.Strings`
unfoldable pub sort_keys : List Bytes → List Bytes
unfolding insert_key
sort_keys [] = []
sort_keys (k ∷ ks) = insert_key k (sort_keys ks)

-- `strings.Join(values, ", ")`
unfoldable pub joined : List Bytes → Bytes
joined [] = []
joined (v ∷ []) = v
joined (v ∷ w ∷ vs) = v ++ codes ", " ++ joined (w ∷ vs)

-- what every line begins with
abbrev pub bracketed : Bytes → Bytes
bracketed id = codes "[" ++ id ++ codes "] "

unfoldable pub header_line : Bytes → Bytes → (Bytes → List Bytes) → Bytes → Bytes
unfolding shown_header joined
header_line id dir values k =
    bracketed id ++ dir ++ codes "   " ++ k ++ codes ": " ++ shown_header k (joined (values k))

unfoldable pub header_lines : Bytes → Bytes → (Bytes → List Bytes) → List Bytes → List Bytes
unfolding header_line
header_lines id dir values [] = []
header_lines id dir values (k ∷ ks) = header_line id dir values k ∷ header_lines id dir values ks

-- `logHeaders`
unfoldable pub log_headers : Bytes → Bytes → Header → List Bytes
unfolding sort_keys header_lines
log_headers id dir h = header_lines id dir h.values (sort_keys h.keys)
