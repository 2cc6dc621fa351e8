-- ===== src/Rewriter/Grant.antt =====
-- `ensureRealmAccess`: the grant of a realm to an array host, asked for once and cached.
pub mod Cache
use px_smt_multirealm_shim.Common.{
  ℕ, zero, Bool, true, false, ◌||◌, ◌&&◌, Option, none, some, List, [], ◌∷◌, ◌++◌, if◌then◌else◌,
  ◌==◌, any,
}
use px_smt_multirealm_shim.Common.Exec.{Exec, pure, fail, ◌>>=◌, ◌>>◌}
use px_smt_multirealm_shim.Bytes.{Bytes, codes, same, contains, to_lower}
use px_smt_multirealm_shim.Http.{post}
use px_smt_multirealm_shim.Json.{Json, str, arr, obj, Items, cons, nil, Fields, field, end, marshal}
use px_smt_multirealm_shim.Array.{Reply, ArraySession, issue}
use px_smt_multirealm_shim.Rewriter.{Shim, on_wire}

abbrev pub resource_access_path : Bytes
resource_access_path = codes "/api/2.40/resource-accesses/batch"

-- The names are joined by a NUL byte.
unfoldable pub grant_key : Bytes → Bytes → Bytes
grant_key array_host realm = array_host ++ zero ∷ realm

unfoldable pub has_grant : Bytes → List Bytes → Bool
unfolding same
has_grant key granted = any (λ k. same k key) granted

unfoldable pub grant_body : Bytes → Bytes → Bytes
unfolding marshal
grant_body array_host realm = marshal (
    arr (
      cons
        (obj (
          field (codes "resource")
            (obj (
              field (codes "name") (str array_host)
                (field (codes "resource_type") (str (codes "hosts")) end)))
            (field (codes "scope")
              (obj (
                field (codes "name") (str realm)
                  (field (codes "resource_type") (str (codes "realms")) end)))
              end)))
        nil))

-- a 200, or a 400 that says that the grant exists
unfoldable pub is_grant_reply : Reply → Bool
unfolding contains to_lower
is_grant_reply r =
    r.status == 200 || (r.status == 400 && contains (to_lower r.body) (codes "exist"))

unfoldable pub store_grant : Bytes → Exec Shim (Unit {0})
store_grant key st = (some tt, record st { granted = key ∷ st.granted })

-- the call to the array; none is the error that `ensureRealmAccess` returns
unfoldable pub request_grant : ArraySession → Bytes → Bytes → Exec Shim (Unit {0})
unfolding on_wire store_grant ◌>>=◌
request_grant a array_host realm = do
  reply ← on_wire (issue a post resource_access_path (some (grant_body array_host realm)))
  if is_grant_reply reply then store_grant (grant_key array_host realm) else fail

unfoldable pub ensure_realm_access : ArraySession → Bytes → Bytes → Exec Shim (Unit {0})
unfolding request_grant
ensure_realm_access a array_host realm st =
    if same array_host [] || same realm []
    then (some tt, st)
    else if has_grant (grant_key array_host realm) st.granted
    then (some tt, st)
    else request_grant a array_host realm st
