-- ===== src/Rewriter/Connection.antt =====
-- `connection`: GET, POST and DELETE of /connections for a realm host, on the array-level host.
-- A result none is Go's nil: the request is proxied as it is.
pub mod Calls
pub mod Hidden
pub mod Path
use px_smt_multirealm_shim.Common.{
  ℕ, Bool, true, false, ◌||◌, ◌&&◌, not, Option, none, some, List, [], ◌∷◌, ◌++◌, if◌then◌else◌,
  ◌==◌,
}
use px_smt_multirealm_shim.Common.Exec.{Exec}
use px_smt_multirealm_shim.Bytes.{Bytes, codes, same, contains, to_lower}
use px_smt_multirealm_shim.Bytes.Replace.{replace_all}
use px_smt_multirealm_shim.Bytes.Quoted.{quoted}
use px_smt_multirealm_shim.Http.{Method, get, post, Request, Synth}
use px_smt_multirealm_shim.Url.{Values, parse_query, query_get, query_set, encode}
use px_smt_multirealm_shim.Json.{Json, str, arr, obj, Items, cons, nil, Fields, field, end, marshal}
use px_smt_multirealm_shim.Config.{HostMapping}
use px_smt_multirealm_shim.Array.{Reply, ArraySession, issue}
use px_smt_multirealm_shim.Rewriter.{
  Rewriter, Shim, is_realm_host, resolve, realm_of, learn_realm_host, on_wire,
}
use px_smt_multirealm_shim.Rewriter.Grant.{ensure_realm_access}

unfoldable pub is_post : Method → Bool
is_post post = true
is_post _ = false

-- `nilIfEmpty`
unfoldable pub nil_if_empty : Bytes → Option Bytes
nil_if_empty [] = none
nil_if_empty (c ∷ s) = some (c ∷ s)

abbrev pub grant_error : Synth
grant_error = record {
  status = 502;
  body = codes "{\"errors\":[{\"message\":\"px-smt-multirealm-shim realm-access grant error\"}]}";
}

abbrev pub upstream_error : Synth
upstream_error = record {
  status = 502;
  body = codes "{\"errors\":[{\"message\":\"px-smt-multirealm-shim connection rewrite error\"}]}";
}

-- the answer to a POST that finds the connection in place
unfoldable pub connected_body : Bytes → Bytes → Bytes
unfolding marshal
connected_body host_names volume_names = marshal (
    obj (
      field (codes "items")
        (arr (
          cons
            (obj (
              field (codes "host") (obj (field (codes "name") (str host_names) end))
                (field (codes "volume") (obj (field (codes "name") (str volume_names) end)) end)))
            nil))
        end))

unfoldable pub is_already_connected : Method → Reply → Bool
unfolding is_post contains to_lower
is_already_connected method r =
    is_post method && r.status == 400 && contains (to_lower r.body) (codes "already")

-- what px gets for the array's reply
unfoldable pub connection_answer : Method → HostMapping → Bytes → Bytes → Reply → Synth
unfolding is_already_connected replace_all connected_body
connection_answer method hm host_names volume_names r =
    if is_already_connected method r
    then record { status = 200; body = connected_body host_names volume_names }
    else record {
      status = r.status;
      body = replace_all r.body (quoted hm.array_host) (quoted host_names);
    }

unfoldable pub connection_path : Request → HostMapping → Bytes
unfolding encode query_set parse_query
connection_path r hm =
    r.path ++ b'?' ∷ encode (query_set (parse_query r.raw_query) (codes "host_names") hm.array_host)

unfoldable pub answer_or_error : Method → HostMapping → Bytes → Bytes → Option Reply → Synth
unfolding connection_answer
answer_or_error method hm host_names volume_names none = upstream_error
answer_or_error method hm host_names volume_names (some r) =
    connection_answer method hm host_names volume_names r

-- the call on the array-level host
unfoldable pub forward : ArraySession → Request → HostMapping → Bytes → Exec Shim Synth
unfolding on_wire
forward a r hm host_names st =
    let (reply, st') = on_wire (issue a r.method (connection_path r hm) (nil_if_empty r.body)) st in
    let volume_names =
      query_get (query_set (parse_query r.raw_query) (codes "host_names") hm.array_host)
        (codes "volume_names") in
    (some (answer_or_error r.method hm host_names volume_names reply), st')

unfoldable pub forward_granted :
    ArraySession → Request → HostMapping → Bytes → Option (Unit {0}) → Exec Shim Synth
unfolding forward
forward_granted a r hm host_names none st = (some grant_error, st)
forward_granted a r hm host_names (some _) st = forward a r hm host_names st

-- a POST needs the grant first
unfoldable pub reissue : ArraySession → Request → HostMapping → Bytes → Exec Shim Synth
unfolding forward_granted
reissue a r hm host_names st =
    if is_post r.method
    then (let (granted, st') = ensure_realm_access a hm.array_host (realm_of host_names) st in
        forward_granted a r hm host_names granted st')
    else forward a r hm host_names st

unfoldable pub connection : Rewriter → Request → Exec Shim Synth
connection rw r st =
    let host_names = query_get (parse_query r.raw_query) (codes "host_names") in
    if same host_names [] || not (is_realm_host host_names)
    then (none, st)
    else elim (resolve rw.by_node host_names) [
      | none ↦ (none, st)
      | some hm ↦ elim rw.arr [
        | none ↦ (none, learn_realm_host rw host_names st)
        | some a ↦ reissue a r hm host_names (learn_realm_host rw host_names st)
      ]
    ]
