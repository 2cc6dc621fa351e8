-- ===== src/Rewriter/Response/Length.antt =====
-- The length that a response states, and what a response keeps.
use px_smt_multirealm_shim.Common.{ℕ, ◌≡◌, refl, Option, none, some, arith, length}
use px_smt_multirealm_shim.Bytes.{Bytes}
use px_smt_multirealm_shim.Bytes.Number.{decimal}
use px_smt_multirealm_shim.Http.{Request, Body, full, broken, Response}
use px_smt_multirealm_shim.Json.{Json, Fields}
use px_smt_multirealm_shim.Rewriter.{Rewriter, Shim}
use px_smt_multirealm_shim.Rewriter.Response.{
  payload, with_body, restore_body, read_bytes, empty_hosts_if_no_match, inject_payload,
  inject_body, modify_hosts_response, rewrite_body, modify_response,
}

abbrev StatesField : Option ℕ → Bytes → Type 0
StatesField none b = Unit
StatesField (some n) b = n ≡ length b

abbrev pub StatesHeader : Option Bytes → Bytes → Type 0
StatesHeader none b = Unit
StatesHeader (some t) b = t ≡ decimal (length b)

-- the body can be read, and `ContentLength` and the header state nothing or its length
abbrev IsSizedAs : Body → Option ℕ → Option Bytes → Type 0
IsSizedAs (full b) n t = StatesField n b × StatesHeader t b
IsSizedAs (broken b) n t = ⊥

abbrev pub IsSized : Response → Type 0
IsSized resp = IsSizedAs resp.body resp.content_length resp.length_header

module _ (unmarshal : Bytes → Option Json) (rew : Rewriter) (req : Request) where
  payload-IsSized :
      (resp : Response) (b : Bytes) (p : Option Fields) (st : Shim)
      → StatesHeader resp.length_header b
      → IsSized (inject_payload rew resp b p st).0
  unfolding inject_payload with_body restore_body
  payload-IsSized resp b none st h = (refl, h)
  payload-IsSized resp b (some fs) st h = (refl, tt)

  body-IsSized :
      (resp : Response) (body : Body) (n : Option ℕ) (st : Shim)
      → IsSizedAs body n resp.length_header
      → IsSized (inject_body unmarshal rew resp body st).0
  unfolding inject_body
  body-IsSized resp (full b) n st h = payload-IsSized resp b (payload (unmarshal b)) st h.1
  body-IsSized resp (broken b) n st h = absurd h

  restored-IsSized :
      (resp : Response) (body : Body) (n : Option ℕ)
      → IsSizedAs body n resp.length_header
      → IsSized (restore_body resp (read_bytes body))
  unfolding restore_body read_bytes
  restored-IsSized resp (full b) n h = (refl, h.1)
  restored-IsSized resp (broken b) n h = absurd h

  empty-IsSized : (resp : Response) → IsSized resp → IsSized (empty_hosts_if_no_match req resp)
  unfolding empty_hosts_if_no_match with_body
  empty-IsSized resp h = ground (arith, restored-IsSized resp resp.body resp.content_length h)

  hosts-IsSized :
      (resp : Response) (st : Shim)
      → IsSized resp
      → IsSized (modify_hosts_response unmarshal rew req resp st).0
  unfolding modify_hosts_response
  hosts-IsSized resp st h =
      ground (arith, h, empty-IsSized resp h, body-IsSized resp resp.body resp.content_length st h)

  rewrite-IsSized :
      (fqdn : Bytes) (resp : Response) (body : Body) (n : Option ℕ) (t : Option Bytes) (st : Shim)
      → IsSizedAs body n t
      → IsSized (rewrite_body unmarshal rew fqdn req resp body st).0
  unfolding rewrite_body with_body
  rewrite-IsSized fqdn resp (full b) n t st h = (refl, tt)
  rewrite-IsSized fqdn resp (broken b) n t st h = absurd h

  -- A response that can be read and states no wrong length, in its field or in its header, leaves the
  -- shim so, whatever was rewritten.
  pub modify_response-IsSized :
      (fqdn : Bytes) (resp : Response) (st : Shim)
      → IsSized resp
      → IsSized (modify_response unmarshal rew fqdn req resp st).0
  unfolding modify_response
  modify_response-IsSized fqdn resp st h =
      let hosts = modify_hosts_response unmarshal rew req resp st in
      let sized = hosts-IsSized resp st h in
      ground (
        arith,
        sized,
        rewrite-IsSized fqdn hosts.0 hosts.0.body hosts.0.content_length hosts.0.length_header
            hosts.1 sized,
      )
