-- ===== src/Proxy/Transparent.antt =====
-- With the rewrites off, or for calls that the shim does not care about, it is a plain proxy.
use px_smt_multirealm_shim.Common.{◌≡◌, refl, Bool, true, false, Option, none, some, arith}
use px_smt_multirealm_shim.Bytes.{Bytes, codes, has_suffix}
use px_smt_multirealm_shim.Http.{Request, Response, Body, full, broken}
use px_smt_multirealm_shim.Json.{Json}
use px_smt_multirealm_shim.Rewriter.{Rewriter, Shim}
use px_smt_multirealm_shim.Rewriter.Hosts.{intercept}
use px_smt_multirealm_shim.Rewriter.Response.{
  with_body, modify_hosts_response, is_conn_list, modify_response,
}
use px_smt_multirealm_shim.Proxy.{
  Upstream, Answer, relayed, upstream_failed, direct, rewrite_request, relay, put_back,
  log_response, pass_through, answer_with, handle,
}

-- what the reverse proxy answers if only the log reads the response
abbrev pub plain : Upstream → Request → Answer
plain u r = elim (u.respond (direct u r)) [
  | none ↦ upstream_failed
  | some resp ↦ relayed (log_response u.log_bodies resp)
]

module _ (unmarshal : Bytes → Option Json) (rew : Rewriter) (u : Upstream) where
  -- With the rewrites off every request gets the array's answer as the log leaves it, and the shim's
  -- state does not change.
  pub handle_disabled :
      (r : Request) (st : Shim)
      → rew.enabled ≡ false
      → handle unmarshal rew u r st ≡ (plain u r, st)
  unfolding handle intercept answer_with pass_through rewrite_request relay modify_response
      modify_hosts_response
  handle_disabled r st h = ground arith

  -- Without synthetic identity, a call of another path than /hosts and /connections gets the array's
  -- answer as the log leaves it.
  pub handle_other :
      (r : Request) (st : Shim)
      → rew.array_identity ≡ false
      → has_suffix r.path (codes "/hosts") ≡ false
      → has_suffix r.path (codes "/connections") ≡ false
      → handle unmarshal rew u r st ≡ (plain u r, st)
  unfolding handle intercept answer_with pass_through rewrite_request relay modify_response
      modify_hosts_response is_conn_list direct
  handle_other r st i h c = ground arith

-- a body that reads to its end has been handed on
abbrev pub HasBody : Body → Body → Type 0
HasBody (full b) out = out ≡ full b
HasBody (broken b) out = Unit

-- px gets an error for an error, and otherwise a response with the status and the content type of the
-- array's, and with its body where that reads to its end
abbrev pub IsUnchanged : Option Response → Answer → Type 0
IsUnchanged none upstream_failed = Unit
IsUnchanged (some resp) (relayed out) =
    (out.status ≡ resp.status) × (out.content_type ≡ resp.content_type) × HasBody resp.body out.body
IsUnchanged _ _ = ⊥

back-HasBody :
    (resp : Response) (body : Body)
    → ((put_back resp body).status ≡ resp.status)
      × ((put_back resp body).content_type ≡ resp.content_type)
      × HasBody body (put_back resp body).body
unfolding put_back with_body
back-HasBody resp (full b) = (refl, refl, refl)
back-HasBody resp (broken b) = (refl, refl, tt)

body-HasBody : (body : Body) → HasBody body body
body-HasBody (full b) = refl
body-HasBody (broken b) = tt

plain-IsUnchanged :
    (log_bodies : Bool) (resp : Option Response)
    → IsUnchanged resp
        (elim resp [ none ↦ upstream_failed | some out ↦ relayed (log_response log_bodies out) ])
unfolding log_response
plain-IsUnchanged log_bodies none = tt
plain-IsUnchanged true (some resp) = back-HasBody resp resp.body
plain-IsUnchanged false (some resp) = (refl, refl, body-HasBody resp.body)

-- Without synthetic identity, a request on a path that ends in neither /hosts nor /connections gets the
-- array's status, content type and body, where that reads to its end, or the error, and leaves the state.
pub handle-IsUnchanged :
    (unmarshal : Bytes → Option Json) (rew : Rewriter) (u : Upstream) (r : Request) (st : Shim)
    → rew.array_identity ≡ false
    → has_suffix r.path (codes "/hosts") ≡ false
    → has_suffix r.path (codes "/connections") ≡ false
    → IsUnchanged (u.respond (direct u r)) (handle unmarshal rew u r st).0
      × ((handle unmarshal rew u r st).1 ≡ st)
handle-IsUnchanged unmarshal rew u r st i h c =
    rw (handle_other unmarshal rew u r st i h c)
      (plain-IsUnchanged u.log_bodies (u.respond (direct u r)), refl)
