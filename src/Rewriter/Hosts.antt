-- ===== src/Rewriter/Hosts.antt =====
-- `getHostSynth`, `patchHostInitiators` and `Intercept`: requests that the shim answers itself.
use px_smt_multirealm_shim.Common.{
  Bool, true, false, ◌||◌, ◌&&◌, not, Option, none, some, List, [], ◌∷◌, if◌then◌else◌,
}
use px_smt_multirealm_shim.Common.Exec.{Exec}
use px_smt_multirealm_shim.Bytes.{Bytes, codes, same, contains_any, has_suffix}
use px_smt_multirealm_shim.Http.{Method, get, patch, Request, Synth}
use px_smt_multirealm_shim.Url.{parse_query, query_get}
use px_smt_multirealm_shim.Json.{
  Json, null, num, str, arr, obj, cons, nil, Fields, field, end, set_member, strings, marshal,
}
use px_smt_multirealm_shim.Json.Decode.{members, decode_field, decode_strings}
use px_smt_multirealm_shim.Config.{HostMapping, Initiator, initiators}
use px_smt_multirealm_shim.Rewriter.{Rewriter, Shim, is_realm_host, resolve, is_double_prefixed}
use px_smt_multirealm_shim.Rewriter.Connection.{connection}

-- `item[in.Field] = in.Vals`, for each initiator
unfoldable pub set_initiators : List Initiator → Fields → Fields
unfolding set_member strings
set_initiators [] m = m
set_initiators (i ∷ is) m = set_initiators is (set_member i.field (arr (strings i.vals)) m)

-- a body with one item
abbrev pub one_item : Fields → Json
one_item item = obj (field (codes "items") (arr (cons (obj item) nil)) end)

unfoldable pub host_item : Bytes → HostMapping → Fields
unfolding set_initiators initiators
host_item name hm = set_initiators (initiators hm) (
    field (codes "name") (str name) (
      field (codes "connection_count") (num (codes "1"))
        (field (codes "host_group") (obj (field (codes "name") null end)) end)))

unfoldable pub get_host_synth : Rewriter → Request → Option Synth
get_host_synth rw r =
    let names = query_get (parse_query r.raw_query) (codes "names") in
    if same names [] || contains_any names (codes "*,")
    then none
    else elim (resolve rw.by_node names) [
      | none ↦ none
      | some hm ↦
          if is_double_prefixed names hm
          then some (record { status = 200; body = marshal (one_item (host_item names hm)) })
          else none
    ]

-- `AddIQNs`, `AddWWNs` and `AddNQNs`
pub record AddInitiators : Type 0 where
  pub add_iqns : List Bytes
  pub add_wwns : List Bytes
  pub add_nqns : List Bytes

unfoldable pub decode_fields : Fields → Option AddInitiators
unfolding decode_field decode_strings
decode_fields fs = elim (decode_field decode_strings (codes "add_iqns") fs []) [
  | none ↦ none
  | some iqns ↦ elim (decode_field decode_strings (codes "add_wwns") fs []) [
    | none ↦ none
    | some wwns ↦ elim (decode_field decode_strings (codes "add_nqns") fs []) [
      | none ↦ none
      | some nqns ↦ some (record { add_iqns = iqns; add_wwns = wwns; add_nqns = nqns })
    ]
  ]
]

unfoldable pub decode_add : Option Json → Option AddInitiators
unfolding members decode_fields
decode_add none = none
decode_add (some v) = elim (members v) [ none ↦ none | some fs ↦ decode_fields fs ]

-- the loop over the transports: those with values are set
unfoldable pub add_transport : Bytes → List Bytes → Fields → Fields
unfolding set_member strings
add_transport name [] m = m
add_transport name (v ∷ vs) m = set_member name (arr (strings (v ∷ vs))) m

unfoldable pub added_item : Bytes → AddInitiators → Fields
unfolding add_transport
added_item name b = add_transport (codes "nqns") b.add_nqns (
    add_transport (codes "wwns") b.add_wwns
      (add_transport (codes "iqns") b.add_iqns (field (codes "name") (str name) end)))

-- `len(item) == 1`
unfoldable pub has_one : Fields → Bool
has_one (field _ _ end) = true
has_one _ = false

unfoldable pub fake_patch : Bytes → Option AddInitiators → Option Synth
fake_patch name none = none
fake_patch name (some b) =
    if has_one (added_item name b)
    then none
    else some (record { status = 200; body = marshal (one_item (added_item name b)) })

unfoldable pub patch_host_initiators : (Bytes → Option Json) → Request → Option Synth
patch_host_initiators unmarshal r =
    let name = query_get (parse_query r.raw_query) (codes "names") in
    if not (is_realm_host name) then none else fake_patch name (decode_add (unmarshal r.body))

unfoldable pub is_get : Method → Bool
is_get get = true
is_get _ = false

unfoldable pub is_patch : Method → Bool
is_patch patch = true
is_patch _ = false

-- none lets the request through
unfoldable pub intercept : (Bytes → Option Json) → Rewriter → Request → Exec Shim Synth
intercept unmarshal rw r st =
    if not rw.enabled
    then (none, st)
    else if is_get r.method && has_suffix r.path (codes "/hosts")
    then (get_host_synth rw r, st)
    else if is_patch r.method && has_suffix r.path (codes "/hosts")
    then (patch_host_initiators unmarshal r, st)
    else if has_suffix r.path (codes "/connections")
    then connection rw r st
    else (none, st)
