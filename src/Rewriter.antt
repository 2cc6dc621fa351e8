-- ===== src/Rewriter.antt =====
-- internal/proxy/rewrite.go: the rewriter's fixed parts and its state, and the host names of px.
-- A realm host is "<realm>::<node>-<suffix>". The order of `by_node` is the order in which Go's
-- `range` visits the map; it may differ from request to request.
pub mod Resolve
pub mod Grant
pub mod Connection
pub mod Hosts
pub mod Response
use px_smt_multirealm_shim.Common.{
  ℕ, ◌+◌, Bool, true, false, ◌||◌, Option, none, some, List, [], ◌∷◌, ◌++◌, if◌then◌else◌, take,
  drop,
}
use px_smt_multirealm_shim.Common.Exec.{Exec}
use px_smt_multirealm_shim.Bytes.{Bytes, codes, same, has_prefix, index, contains}
use px_smt_multirealm_shim.Bytes.Assoc.{Assoc, insert}
use px_smt_multirealm_shim.Config.{HostMapping}
use px_smt_multirealm_shim.Array.{Call, Reply, ArraySession, Wire, login}

-- the fields of `config.Config` that the rewriter reads
pub record Config : Type 0 where
  pub rewrite_enabled : Bool
  pub array_identity : Bool
  pub upstream_url : Bytes
  pub array_token : Bytes
  pub hosts : List HostMapping

-- `array_identity` says whether `ident` is set.
pub record Rewriter : Type 0 where
  pub enabled : Bool
  pub array_identity : Bool
  pub by_node : Assoc HostMapping
  pub arr : Option ArraySession

-- the real name and id of the array
pub record Identity : Type 0 where
  pub name : Bytes
  pub id : Bytes

-- What changes as requests come in: the session with the array, px's name for each array host, the
-- pairs of host and realm that have a grant, and the array's identity once it is known.
pub record Shim : Type 0 where
  pub wire : Wire
  pub by_array_host : Assoc Bytes
  pub granted : List Bytes
  pub known : Option Identity

unfoldable pub index_hosts : List HostMapping → Assoc HostMapping → Assoc HostMapping
unfolding insert
index_hosts [] m = m
index_hosts (h ∷ hs) m = index_hosts hs (insert h.node h m)

-- `NewRewriter`, without the goroutine `validate`; the array's behaviour is a parameter
unfoldable pub new_rewriter : (List Call → Call → Option Reply) → Config → Rewriter
unfolding index_hosts same
new_rewriter answer cfg = record {
  enabled = cfg.rewrite_enabled;
  array_identity = cfg.array_identity;
  by_node = index_hosts cfg.hosts [];
  arr =
      if same cfg.array_token []
      then none
      else some (record { base = cfg.upstream_url; api = cfg.array_token; answer = answer });
}

abbrev pub realm_sep : Bytes
realm_sep = codes "::"

-- `isRealmHost`
unfoldable pub is_realm_host : Bytes → Bool
unfolding contains
is_realm_host name = contains name realm_sep

-- the test in the loop of `resolve`
unfoldable pub matches : Bytes → Bytes → HostMapping → Bool
unfolding same has_prefix
matches after node h =
    same after node || has_prefix after (node ++ codes "-") || same after h.array_host

unfoldable pub first_match : Bytes → Assoc HostMapping → Option HostMapping
first_match after [] = none
first_match after ((node, h) ∷ m) = if matches after node h then some h else first_match after m

unfoldable pub resolve : Assoc HostMapping → Bytes → Option HostMapping
unfolding index first_match
resolve by_node realm_host = elim (index realm_host realm_sep) [
  | none ↦ none
  | some i ↦ first_match (drop (i + 2) realm_host) by_node
]

-- `realmOf`
unfoldable pub realm_of : Bytes → Bytes
unfolding index
realm_of name = elim (index name realm_sep) [ none ↦ [] | some i ↦ take i name ]

-- `realmHost[i+2:] == hm.ArrayHost`, or no separator at all
unfoldable pub is_double_prefixed : Bytes → HostMapping → Bool
unfolding index same
is_double_prefixed realm_host hm = elim (index realm_host realm_sep) [
  | none ↦ true
  | some i ↦ same (drop (i + 2) realm_host) hm.array_host
]

-- `learnRealmHost`
unfoldable pub learn_realm_host : Rewriter → Bytes → Shim → Shim
unfolding resolve is_double_prefixed insert
learn_realm_host rw realm_host st = elim (resolve rw.by_node realm_host) [
  | none ↦ st
  | some hm ↦
      if is_double_prefixed realm_host hm
      then st
      else record st { by_array_host = insert hm.array_host realm_host st.by_array_host }
]

-- a call of the array session inside the shim's state
unfoldable pub on_wire : {A : Type 0} → Exec Wire A → Exec Shim A
on_wire m st = let (r, w) = m st.wire in (r, record st { wire = w })

-- the goroutine that `NewRewriter` starts: a login, if there is a token
unfoldable pub validate : Rewriter → Shim → Shim
unfolding on_wire login
validate rw st = elim rw.arr [ none ↦ st | some a ↦ (on_wire (login a) st).1 ]
