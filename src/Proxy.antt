-- ===== src/Proxy.antt =====
-- internal/proxy/proxy.go: the handler that joins the rewriter with the reverse proxy.
pub mod Invariant
pub mod Serving
pub mod Log
pub mod Journal
pub mod Complete
pub mod Learned
pub mod Transparent
use px_smt_multirealm_shim.Common.{
  Bool, true, false, ◌||◌, not, Option, none, some, List, [], ◌∷◌, if◌then◌else◌,
}
use px_smt_multirealm_shim.Bytes.{Bytes, same}
use px_smt_multirealm_shim.Http.{Request, Body, full, broken, Response, Synth}
use px_smt_multirealm_shim.Json.{Json}
use px_smt_multirealm_shim.Bytes.Assoc.{Assoc}
use px_smt_multirealm_shim.Config.{HostMapping}
use px_smt_multirealm_shim.Identity.{rewrite_request_string}
use px_smt_multirealm_shim.Rewriter.{Rewriter, Shim}
use px_smt_multirealm_shim.Rewriter.Hosts.{intercept}
use px_smt_multirealm_shim.Rewriter.Response.{with_body, modify_response}

-- the fields of the configuration that `Director` and `logResponse` read, and the transport, none for
-- an error; `url_host` is `UpstreamURL.Host`, `respond_closed` the transport for a request whose body
-- has been closed
pub record Upstream : Type 0 where
  pub upstream_host : Bytes
  pub url_host : Bytes
  pub log_bodies : Bool
  pub respond : Request → Option Response
  pub respond_closed : Request → Option Response

-- what the client gets: the shim's answer, the array's, or a 502 of the error handler
pub data Answer : Type 0 where
  shim : Synth → Answer
  relayed : Response → Answer
  upstream_failed : Answer

-- `Director`: the array is addressed as itself.
unfoldable pub direct : Upstream → Request → Request
unfolding same
direct u r = record r { host = if same u.upstream_host [] then u.url_host else u.upstream_host }

-- `RewriteRequest`
unfoldable pub rewrite_request :
    (Bytes → Option Json) → Rewriter → Bytes → Request → Shim → Request × Shim
rewrite_request unmarshal rw fqdn r st =
    if not rw.enabled || not rw.array_identity
    then (r, st)
    else if same r.raw_query []
    then (r, st)
    else (let (q, st') = rewrite_request_string unmarshal rw fqdn r.raw_query st in
        (record r { raw_query = q }, st'))

-- a body that was read to be logged, put back; one that breaks off is replaced by an empty one
unfoldable pub put_back : Response → Body → Response
unfolding with_body
put_back resp (broken _) = record resp { body = full [] }
put_back resp (full b) = with_body resp b

-- what `logResponse` makes of the response
unfoldable pub log_response : Bool → Response → Response
unfolding put_back
log_response log_bodies resp = if log_bodies then put_back resp resp.body else resp

-- `ModifyResponse` and `ErrorHandler` of the reverse proxy
unfoldable pub relay :
    (Bytes → Option Json)
    → Rewriter
    → Bool
    → Bytes
    → Request
    → Option Response
    → Shim
    → Answer × Shim
relay unmarshal rw log_bodies fqdn r none st = (upstream_failed, st)
relay unmarshal rw log_bodies fqdn r (some resp) st =
    let (resp', st') = modify_response unmarshal rw fqdn r resp st in
    (relayed (log_response log_bodies resp'), st')

-- the reverse proxy behind `RewriteRequest`
unfoldable pub pass_through :
    (Bytes → Option Json) → Rewriter → Upstream → Request → Shim → Answer × Shim
pass_through unmarshal rw u r st =
    let (r', st') = rewrite_request unmarshal rw r.host r st in
    relay unmarshal rw u.log_bodies r.host (direct u r') (u.respond (direct u r')) st'

unfoldable pub answer_with :
    (Bytes → Option Json) → Rewriter → Upstream → Request → Option Synth → Shim → Answer × Shim
answer_with unmarshal rw u r none st = pass_through unmarshal rw u r st
answer_with unmarshal rw u r (some s) st = (shim s, st)

-- the handler that `New` returns, behind `drainBody`
unfoldable pub handle : (Bytes → Option Json) → Rewriter → Upstream → Request → Shim → Answer × Shim
handle unmarshal rw u r st =
    let (s, st') = intercept unmarshal rw r st in answer_with unmarshal rw u r s st'

-- The handler: `drainBody` reads the body and puts it back, but leaves one that fails closed, and the
-- rest of the handler without it.
unfoldable pub receive :
    (Bytes → Option Json) → Rewriter → Upstream → Request → Body → Shim → Answer × Shim
receive unmarshal rw u r (full b) st = handle unmarshal rw u (record r { body = b }) st
receive unmarshal rw u r (broken _) st =
    handle unmarshal rw (record u { respond = u.respond_closed }) (record r { body = [] }) st

-- the state when the process starts
abbrev pub fresh : Shim
fresh = record {
  wire = record { auth = []; sent = [] };
  by_array_host = [];
  granted = [];
  known = none;
}

-- A request with its body, and what the handler meets at that time: the order in which `range` visits
-- the hosts, and the answers of the transport.
pub record Arrival : Type 0 where
  pub order : Assoc HostMapping
  pub respond : Request → Option Response
  pub respond_closed : Request → Option Response
  pub request : Request
  pub body : Body

abbrev pub rewriter_at : Rewriter → Arrival → Rewriter
rewriter_at rw x = record rw { by_node = x.order }

abbrev pub upstream_at : Upstream → Arrival → Upstream
upstream_at u x = record u { respond = x.respond; respond_closed = x.respond_closed }

-- a sequence of requests, one after the other
unfoldable pub serve : (Bytes → Option Json) → Rewriter → Upstream → List Arrival → Shim → Shim
serve unmarshal rw u [] st = st
serve unmarshal rw u (x ∷ xs) st =
    serve unmarshal rw u xs
      (receive unmarshal (rewriter_at rw x) (upstream_at u x) x.request x.body st).1
