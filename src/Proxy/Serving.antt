-- ===== src/Proxy/Serving.antt =====
-- What every part of the rewriter keeps of the state holds after any sequence of requests.
use px_smt_multirealm_shim.Common.{◌≡◌, Bool, Option, none, some, List, [], ◌∷◌, All}
use px_smt_multirealm_shim.Bytes.{Bytes}
use px_smt_multirealm_shim.Http.{Request, Response, Body, full, broken, Synth}
use px_smt_multirealm_shim.Json.{Json}
use px_smt_multirealm_shim.Array.{ArraySession}
use px_smt_multirealm_shim.Rewriter.{Rewriter, Shim}
use px_smt_multirealm_shim.Rewriter.Hosts.{intercept}
use px_smt_multirealm_shim.Rewriter.Response.{modify_response}
use px_smt_multirealm_shim.Proxy.{
  Upstream, direct, rewrite_request, relay, pass_through, answer_with, handle, receive, serve,
  Arrival, rewriter_at, upstream_at,
}
use px_smt_multirealm_shim.Proxy.Invariant.{
  IsSound, intercept-IsSound, request-IsSound, response-IsSound,
}

-- `Intercept`, `RewriteRequest` and `ModifyResponse` keep a property of the state.
pub record AreKept (unmarshal : Bytes → Option Json) (rew : Rewriter) (P : Shim → Type 0)
    : Type 0 where
  pub intercepts : (r : Request) (st : Shim) → P st → P (intercept unmarshal rew r st).1
  pub requests :
      (fqdn : Bytes) (r : Request) (st : Shim)
      → P st
      → P (rewrite_request unmarshal rew fqdn r st).1
  pub responses :
      (fqdn : Bytes) (r : Request) (resp : Response) (st : Shim)
      → P st
      → P (modify_response unmarshal rew fqdn r resp st).1

module _ {unmarshal : Bytes → Option Json} {rew : Rewriter} {P : Shim → Type 0}
    (kept : AreKept unmarshal rew P) where
  relay_keeps :
      (log_bodies : Bool) (fqdn : Bytes) (r : Request) (resp : Option Response) (st : Shim)
      → P st
      → P (relay unmarshal rew log_bodies fqdn r resp st).1
  unfolding relay
  relay_keeps log_bodies fqdn r none st h = h
  relay_keeps log_bodies fqdn r (some resp) st h = kept.responses fqdn r resp st h

  pass_keeps :
      (u : Upstream) (r : Request) (st : Shim) → P st → P (pass_through unmarshal rew u r st).1
  unfolding pass_through
  pass_keeps u r st h =
      let out = rewrite_request unmarshal rew r.host r st in
      relay_keeps u.log_bodies r.host (direct u out.0) (u.respond (direct u out.0)) out.1
        (kept.requests r.host r st h)

  answer_keeps :
      (u : Upstream) (r : Request) (s : Option Synth) (st : Shim)
      → P st
      → P (answer_with unmarshal rew u r s st).1
  unfolding answer_with
  answer_keeps u r none st h = pass_keeps u r st h
  answer_keeps u r (some s) st h = h

  handle_keeps : (u : Upstream) (r : Request) (st : Shim) → P st → P (handle unmarshal rew u r st).1
  unfolding handle
  handle_keeps u r st h =
      let out = intercept unmarshal rew r st in
      answer_keeps u r out.0 out.1 (kept.intercepts r st h)

  receive_keeps :
      (u : Upstream) (r : Request) (body : Body) (st : Shim)
      → P st
      → P (receive unmarshal rew u r body st).1
  unfolding receive
  receive_keeps u r (full b) st h = handle_keeps u (record r { body = b }) st h
  receive_keeps u r (broken _) st h =
      handle_keeps (record u { respond = u.respond_closed }) (record r { body = [] }) st h

module _ (unmarshal : Bytes → Option Json) (rew : Rewriter) (P : Shim → Type 0) where
  pub serve_keeps :
      (u : Upstream) (xs : List Arrival) (st : Shim)
      → All (λ (x : Arrival). AreKept unmarshal (rewriter_at rew x) P) xs
      → P st
      → P (serve unmarshal rew u xs st)
  unfolding serve
  serve_keeps u [] st k h = h
  serve_keeps u (x ∷ xs) st (kx, k) h =
      serve_keeps u xs
        (receive unmarshal (rewriter_at rew x) (upstream_at u x) x.request x.body st).1 k
        (receive_keeps kx (upstream_at u x) x.request x.body st h)

-- what holds of each holds of all
All-of : (P : Arrival → Type 0) → ((x : Arrival) → P x) → (xs : List Arrival) → All P xs
All-of P h [] = tt
All-of P h (x ∷ xs) = (h x, All-of P h xs)

-- After any sequence of requests that starts from a sound state, whatever the order of the hosts and
-- the answers of the transport at each, every grant in the cache was agreed to by the array in a call
-- that was sent, and no call carried an empty session token.
pub serve-IsSound :
    (unmarshal : Bytes → Option Json) (rew : Rewriter) (a : ArraySession)
    → rew.arr ≡ some a
    → (u : Upstream) (xs : List Arrival) (st : Shim) → IsSound a st
    → IsSound a (serve unmarshal rew u xs st)
serve-IsSound unmarshal rew a configured u xs st = serve_keeps unmarshal rew (IsSound a) u xs st (
    All-of (λ x. AreKept unmarshal (rewriter_at rew x) (IsSound a))
      (λ x. record {
        intercepts = intercept-IsSound unmarshal (rewriter_at rew x) a configured;
        requests = request-IsSound unmarshal (rewriter_at rew x) a configured;
        responses = response-IsSound unmarshal (rewriter_at rew x) a configured;
      })
      xs)
