-- ===== src/Proxy/Complete.antt =====
-- The body and the length of what px gets, behind the rewriter and the log.
use px_smt_multirealm_shim.Common.{◌≡◌, refl, Bool, true, false, Option, none, some, []}
use px_smt_multirealm_shim.Bytes.{Bytes}
use px_smt_multirealm_shim.Http.{Request, Response, Body, full, broken, Synth}
use px_smt_multirealm_shim.Json.{Json}
use px_smt_multirealm_shim.Rewriter.{Rewriter, Shim}
use px_smt_multirealm_shim.Rewriter.Hosts.{intercept}
use px_smt_multirealm_shim.Rewriter.Response.{with_body, modify_response}
use px_smt_multirealm_shim.Rewriter.Response.Length.{IsSized, modify_response-IsSized}
use px_smt_multirealm_shim.Proxy.{
  Upstream, Answer, shim, relayed, direct, rewrite_request, put_back, log_response, relay,
  pass_through, answer_with, handle, receive,
}

abbrev pub IsFull : Body → Type 0
IsFull (full b) = Unit
IsFull (broken b) = ⊥

-- a relayed body reads to its end
abbrev pub IsWhole : Answer → Type 0
IsWhole (relayed resp) = IsFull resp.body
IsWhole _ = Unit

-- a relayed body reads to its end, and the field and the header state nothing or its length
abbrev pub IsExact : Answer → Type 0
IsExact (relayed resp) = IsSized resp
IsExact _ = Unit

-- what the transport returns can be read, and states no wrong length
abbrev pub IsFaithful : (Request → Option Response) → Type 0
IsFaithful respond = (r : Request) (resp : Response) → respond r ≡ some resp → IsSized resp

back-IsFull : (resp : Response) (body : Body) → IsFull (put_back resp body).body
unfolding put_back with_body
back-IsFull resp (full b) = tt
back-IsFull resp (broken b) = tt

back-IsExact :
    (resp : Response) (body : Body)
    → IsSized (record resp { body = body })
    → IsExact (relayed (put_back resp body))
unfolding put_back with_body
back-IsExact resp (full b) h = (refl, tt)
back-IsExact resp (broken b) h = absurd h

log-IsExact :
    (log_bodies : Bool) (resp : Response)
    → IsSized resp
    → IsExact (relayed (log_response log_bodies resp))
unfolding log_response
log-IsExact false resp h = h
log-IsExact true resp h = back-IsExact resp resp.body h

module _ (unmarshal : Bytes → Option Json) (rew : Rewriter) where
  relay-IsWhole :
      (fqdn : Bytes) (r : Request) (resp : Option Response) (st : Shim)
      → IsWhole (relay unmarshal rew true fqdn r resp st).0
  unfolding relay log_response
  relay-IsWhole fqdn r none st = tt
  relay-IsWhole fqdn r (some resp) st =
      let out = modify_response unmarshal rew fqdn r resp st in back-IsFull out.0 out.0.body

  relay-IsExact :
      (log_bodies : Bool) (fqdn : Bytes) (r : Request) (resp : Option Response) (st : Shim)
      → ((x : Response) → resp ≡ some x → IsSized x)
      → IsExact (relay unmarshal rew log_bodies fqdn r resp st).0
  unfolding relay
  relay-IsExact log_bodies fqdn r none st h = tt
  relay-IsExact log_bodies fqdn r (some resp) st h =
      log-IsExact log_bodies (modify_response unmarshal rew fqdn r resp st).0
        (modify_response-IsSized unmarshal rew r fqdn resp st (h resp refl))

  -- what holds of the shim's own answers and of what the reverse proxy relays
  module _ (u : Upstream) (P : Answer → Type 0) (own : (s : Synth) → P (shim s))
      (relays : (fqdn : Bytes) (r : Request) (st : Shim)
        → P (relay unmarshal rew u.log_bodies fqdn r (u.respond r) st).0) where
    answer_holds :
        (r : Request) (s : Option Synth) (st : Shim) → P (answer_with unmarshal rew u r s st).0
    unfolding answer_with pass_through
    answer_holds r (some s) st = own s
    answer_holds r none st =
        let out = rewrite_request unmarshal rew r.host r st in relays r.host (direct u out.0) out.1

    handle_holds : (r : Request) (st : Shim) → P (handle unmarshal rew u r st).0
    unfolding handle
    handle_holds r st = let out = intercept unmarshal rew r st in answer_holds r out.0 out.1

  handle-IsWhole :
      (u : Upstream) (r : Request) (st : Shim)
      → u.log_bodies ≡ true
      → IsWhole (handle unmarshal rew u r st).0
  handle-IsWhole u r st h =
      handle_holds u IsWhole (λ s. tt)
        (λ fqdn r' st'. rw h (relay-IsWhole fqdn r' (u.respond r') st')) r st

  handle-IsExact :
      (u : Upstream) (r : Request) (st : Shim)
      → IsFaithful u.respond
      → IsExact (handle unmarshal rew u r st).0
  handle-IsExact u r st h =
      handle_holds u IsExact (λ s. tt)
        (λ fqdn r' st'. relay-IsExact u.log_bodies fqdn r' (u.respond r') st' (λ x. h r' x)) r st

  -- With the logging of bodies on, every body that px gets reads to its end: where the array's broke off,
  -- px cannot tell from the body.
  pub receive-IsWhole :
      (u : Upstream) (r : Request) (body : Body) (st : Shim)
      → u.log_bodies ≡ true
      → IsWhole (receive unmarshal rew u r body st).0
  unfolding receive
  receive-IsWhole u r (full b) st h = handle-IsWhole u (record r { body = b }) st h
  receive-IsWhole u r (broken _) st h =
      handle-IsWhole (record u { respond = u.respond_closed }) (record r { body = [] }) st h

  -- If all that the transport returns can be read, and states no wrong length in its field or in its
  -- header, then so does all that px gets, through the rewriter and the log.
  pub receive-IsExact :
      (u : Upstream) (r : Request) (body : Body) (st : Shim)
      → IsFaithful u.respond
      → IsFaithful u.respond_closed
      → IsExact (receive unmarshal rew u r body st).0
  unfolding receive
  receive-IsExact u r (full b) st h c = handle-IsExact u (record r { body = b }) st h
  receive-IsExact u r (broken _) st h c =
      handle-IsExact (record u { respond = u.respond_closed }) (record r { body = [] }) st c
