-- ===== src/Rewriter/Response.antt =====
-- `ModifyHostsResponse`, `emptyHostsIfNoMatch`, `mapConnHostsBack` and `ModifyResponse`: what the
-- shim changes in a response of the array on its way to px.
pub mod MapBack
pub mod Length
pub mod Inject
use px_smt_multirealm_shim.Common.{
  ℕ, Bool, true, false, ◌||◌, ◌&&◌, not, Option, none, some, List, [], ◌∷◌, ◌++◌, if◌then◌else◌,
  ◌==◌, length,
}
use px_smt_multirealm_shim.Bytes.{Bytes, codes, same, contains, has_suffix, to_lower}
use px_smt_multirealm_shim.Bytes.Assoc.{Assoc}
use px_smt_multirealm_shim.Bytes.Replace.{replace_all}
use px_smt_multirealm_shim.Bytes.Quoted.{quoted}
use px_smt_multirealm_shim.Http.{Method, Request, Body, full, broken, Response}
use px_smt_multirealm_shim.Url.{parse_query, query_get}
use px_smt_multirealm_shim.Json.{
  Json, null, num, str, arr, obj, Items, cons, nil, Fields, field, end, member, set_member, strings,
  marshal,
}
use px_smt_multirealm_shim.Json.Decode.{members, decode_field, decode_slice}
use px_smt_multirealm_shim.Config.{HostMapping, Initiator, initiators}
use px_smt_multirealm_shim.Rewriter.{Rewriter, Shim, resolve, learn_realm_host}
use px_smt_multirealm_shim.Rewriter.Hosts.{is_get}
use px_smt_multirealm_shim.Identity.{rewrite_response_body}

-- `len(cur) == 0` for `cur, _ := m[k].([]any)`
unfoldable pub is_unset : Option Json → Bool
is_unset (some (arr (cons x xs))) = false
is_unset _ = true

-- the body of the loop over the initiators of one host
unfoldable pub inject_one : Initiator → Fields → Fields
unfolding member set_member strings is_unset
inject_one i m =
    if is_unset (member i.field m) then set_member i.field (arr (strings i.vals)) m else m

-- The loop, and whether it changed anything.
unfoldable pub inject_fields : List Initiator → Fields → Fields × Bool
inject_fields [] m = (m, false)
inject_fields (i ∷ is) m =
    let (m', changed) = inject_fields is (inject_one i m) in
    (m', is_unset (member i.field m) || changed)

-- `name, _ := m["name"].(string)`
unfoldable pub name_of : Fields → Bytes
unfolding member
name_of m = elim (member (codes "name") m) [ some (str s) ↦ s | _ ↦ [] ]

-- one item of the list; an item that is no object is left alone
unfoldable pub inject_item : Rewriter → Json → Shim → Json × Bool × Shim
inject_item rw (obj m) st = elim (resolve rw.by_node (name_of m)) [
  | none ↦ (obj m, false, st)
  | some hm ↦
      let (m', changed) = inject_fields (initiators hm) m in
      (obj m', changed, learn_realm_host rw (name_of m) st)
]
inject_item rw it st = (it, false, st)

unfoldable pub inject_items : Rewriter → Items → Shim → Items × Bool × Shim
inject_items rw nil st = (nil, false, st)
inject_items rw (cons it its) st =
    let (it', changed, st') = inject_item rw it st in
    let (its', changed', st'') = inject_items rw its st' in
    (cons it' its', changed || changed', st'')

-- `generic["items"].([]any)`, and what the loop makes of it
unfoldable pub inject_list : Rewriter → Fields → Option Json → Shim → Fields × Bool × Shim
inject_list rw fs (some (arr its)) st =
    let (its', changed, st') = inject_items rw its st in
    (set_member (codes "items") (arr its') fs, changed, st')
inject_list rw fs _ st = (fs, false, st)

-- `json.Unmarshal` into the struct with a slice of maps
unfoldable pub is_payload : Fields → Bool
unfolding decode_field decode_slice members
is_payload fs = elim (decode_field (decode_slice members) (codes "items") fs []) [
  | none ↦ false
  | some _ ↦ true
]

-- The top-level object, if both decodings succeed.
unfoldable pub payload : Option Json → Option Fields
payload none = none
payload (some v) = elim (members v) [
  | none ↦ none
  | some fs ↦ if is_payload fs then some fs else none
]

-- a new body with its length, and no header that states another
unfoldable pub with_body : Response → Bytes → Response
with_body resp out = record resp {
  body = full out;
  content_length = some (length out);
  length_header = none;
}

-- a body that could not be rewritten: the header stays
unfoldable pub restore_body : Response → Bytes → Response
restore_body resp body = record resp { body = full body; content_length = some (length body) }

abbrev pub empty_hosts : Bytes
empty_hosts =
    codes
      "{\"continuation_token\":null,\"items\":[],\"more_items_remaining\":false,\"total_item_count\":null}"

-- `io.ReadAll`: what was read, also where it fails
unfoldable pub read_bytes : Body → Bytes
read_bytes (full b) = b
read_bytes (broken b) = b

-- `emptyHostsIfNoMatch`
unfoldable pub empty_hosts_if_no_match : Request → Response → Response
empty_hosts_if_no_match req resp =
    let names = query_get (parse_query req.raw_query) (codes "names") in
    let body = read_bytes resp.body in
    if contains names (codes "*") && contains (to_lower body) (codes "no matching hosts")
    then record (with_body resp empty_hosts) {
      status = 200;
      content_type = some (codes "application/json");
    }
    else restore_body resp body

unfoldable pub inject_payload : Rewriter → Response → Bytes → Option Fields → Shim → Response × Shim
inject_payload rw resp body none st = (restore_body resp body, st)
inject_payload rw resp body (some fs) st =
    let (fs', changed, st') = inject_list rw fs (member (codes "items") fs) st in
    (with_body resp (if changed then marshal (obj fs') else body), st')

unfoldable pub inject_body :
    (Bytes → Option Json) → Rewriter → Response → Body → Shim → Response × Shim
inject_body unmarshal rw resp (broken b) st = (record resp { body = full [] }, st)
inject_body unmarshal rw resp (full b) st = inject_payload rw resp b (payload (unmarshal b)) st

-- `ModifyHostsResponse`
unfoldable pub modify_hosts_response :
    (Bytes → Option Json) → Rewriter → Request → Response → Shim → Response × Shim
modify_hosts_response unmarshal rw req resp st =
    if not rw.enabled || not (is_get req.method)
    then (resp, st)
    else if not (has_suffix req.path (codes "/hosts"))
    then (resp, st)
    else if resp.status == 400
    then (empty_hosts_if_no_match req resp, st)
    else if not (resp.status == 200)
    then (resp, st)
    else inject_body unmarshal rw resp resp.body st

-- `mapConnHostsBack`; the list is in the order in which `Range` visits the map.
unfoldable pub map_conn_hosts_back : Assoc Bytes → Bytes → Bytes
unfolding replace_all
map_conn_hosts_back [] s = s
map_conn_hosts_back ((k, v) ∷ m) s = map_conn_hosts_back m (replace_all s (quoted k) (quoted v))

unfoldable pub is_conn_list : Request → Bool
is_conn_list req = is_get req.method && has_suffix req.path (codes "/connections")

unfoldable pub rewrite_identity :
    (Bytes → Option Json) → Rewriter → Bytes → Bytes → Shim → Bytes × Shim
rewrite_identity unmarshal rw fqdn body st =
    if rw.array_identity then rewrite_response_body unmarshal rw fqdn body st else (body, st)

unfoldable pub rewrite_body :
    (Bytes → Option Json) → Rewriter → Bytes → Request → Response → Body → Shim → Response × Shim
rewrite_body unmarshal rw fqdn req resp (broken b) st = (record resp { body = full [] }, st)
rewrite_body unmarshal rw fqdn req resp (full b) st =
    let (out, st') = rewrite_identity unmarshal rw fqdn b st in
    (
      with_body resp (if is_conn_list req then map_conn_hosts_back st'.by_array_host out else out),
      st',
    )

-- `ModifyResponse`
unfoldable pub modify_response :
    (Bytes → Option Json) → Rewriter → Bytes → Request → Response → Shim → Response × Shim
modify_response unmarshal rw fqdn req resp st =
    let (resp', st') = modify_hosts_response unmarshal rw req resp st in
    if not rw.enabled
    then (resp', st')
    else if not rw.array_identity && not (is_conn_list req)
    then (resp', st')
    else rewrite_body unmarshal rw fqdn req resp' resp'.body st'
