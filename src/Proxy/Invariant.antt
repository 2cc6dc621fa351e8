-- ===== src/Proxy/Invariant.antt =====
-- What every part of the rewriter keeps of the shim's state.
use px_smt_multirealm_shim.Common.{
  ◌≡◌, refl, ◌||◌, not, Option, none, some, [], arith, Bool-cases, Option-cases, inl, inr,
}
use px_smt_multirealm_shim.Bytes.{Bytes, codes, same}
use px_smt_multirealm_shim.Http.{Method, post, get, Request, Response, Body, full, broken}
use px_smt_multirealm_shim.Json.{Json, null, arr, obj, member, Items, nil, cons, Fields}
use px_smt_multirealm_shim.Config.{HostMapping}
use px_smt_multirealm_shim.Array.{ArraySession, Reply, issue}
use px_smt_multirealm_shim.Array.Session.{IsAuthenticated, issue-IsAuthenticated}
use px_smt_multirealm_shim.Rewriter.{
  Rewriter, Shim, is_realm_host, resolve, realm_of, learn_realm_host, on_wire,
}
use px_smt_multirealm_shim.Rewriter.Grant.{
  resource_access_path, grant_body, store_grant, request_grant, ensure_realm_access,
}
use px_smt_multirealm_shim.Rewriter.Grant.Cache.{IsTruthful, on_wire-IsTruthful}
use px_smt_multirealm_shim.Rewriter.Connection.{
  nil_if_empty, connection_path, forward, forward_granted, reissue, connection,
}
use px_smt_multirealm_shim.Rewriter.Connection.Calls.{connection-IsTruthful, host_names}
use px_smt_multirealm_shim.Rewriter.Hosts.{intercept}
use px_smt_multirealm_shim.Rewriter.Response.{
  payload, name_of, inject_item, inject_items, inject_list, inject_payload, inject_body,
  modify_hosts_response, rewrite_identity, rewrite_body, modify_response,
}
use px_smt_multirealm_shim.Identity.{
  store_identity, settle_identity, discover, ensure_identity, rewrite_response_body,
  rewrite_request_string,
}
use px_smt_multirealm_shim.Proxy.{rewrite_request}

-- Every cached grant was agreed to by the array, and no call was sent with an empty session token.
pub record IsSound (a : ArraySession) (st : Shim) : Type 0 where
  pub truthful : IsTruthful a st
  pub authenticated : IsAuthenticated st.wire

-- the parts of the state that soundness is about
abbrev SameCalls : Shim → Shim → Type 0
SameCalls st st' = (st'.wire ≡ st.wire) × (st'.granted ≡ st.granted)

module _ (a : ArraySession) where
  same-IsSound : (st st' : Shim) → SameCalls st st' → IsSound a st → IsSound a st'
  same-IsSound st st' (w, g) h = record {
    truthful = rw (w, g) h.truthful;
    authenticated = rw w h.authenticated;
  }

  issue-IsSound :
      (m : Method) (p : Bytes) (b : Option Bytes) (st : Shim)
      → IsSound a st
      → IsSound a (on_wire (issue a m p b) st).1
  unfolding on_wire
  issue-IsSound m p b st h = record {
    truthful = on_wire-IsTruthful a m p b st h.truthful;
    authenticated = issue-IsAuthenticated a m p b st.wire h.authenticated;
  }

  ensure-IsAuthenticated :
      (host realm : Bytes) (st : Shim)
      → IsAuthenticated st.wire
      → IsAuthenticated (ensure_realm_access a host realm st).1.wire
  unfolding ensure_realm_access request_grant on_wire store_grant
  ensure-IsAuthenticated host realm st h = ground (
    arith,
    issue-IsAuthenticated a post resource_access_path (some (grant_body host realm)) st.wire h,
  )

  reissue-IsAuthenticated :
      (r : Request) (hm : HostMapping) (name : Bytes) (st : Shim)
      → IsAuthenticated st.wire
      → IsAuthenticated (reissue a r hm name st).1.wire
  unfolding reissue forward_granted forward on_wire
  reissue-IsAuthenticated r hm name st h =
      let granted = (ensure_realm_access a hm.array_host (realm_of name) st).1 in
      ground (
        arith,
        ensure-IsAuthenticated hm.array_host (realm_of name) st h,
        issue-IsAuthenticated a r.method (connection_path r hm) (nil_if_empty r.body) st.wire,
        issue-IsAuthenticated a r.method (connection_path r hm) (nil_if_empty r.body) granted.wire,
      )

module _ (rew : Rewriter) where
  learn_same : (name : Bytes) (st : Shim) → SameCalls st (learn_realm_host rew name st)
  unfolding learn_realm_host
  learn_same name st = ground arith

  item_same : (it : Json) (st : Shim) → SameCalls st (inject_item rew it st).2
  unfolding inject_item
  item_same (obj m) st = ground (arith, learn_same (name_of m) st)
  item_same null st = (refl, refl)
  item_same _ st = (refl, refl)

  items_same : (its : Items) (st : Shim) → SameCalls st (inject_items rew its st).2
  unfolding inject_items
  items_same nil st = (refl, refl)
  items_same (cons it its) st =
      ground (arith, item_same it st, items_same its (inject_item rew it st).2)

  list_same : (fs : Fields) (v : Option Json) (st : Shim) → SameCalls st (inject_list rew fs v st).2
  unfolding inject_list
  list_same fs (some (arr its)) st = items_same its st
  list_same fs (some null) st = (refl, refl)
  list_same fs none st = (refl, refl)
  list_same fs _ st = (refl, refl)

  payload_same :
      (resp : Response) (b : Bytes) (p : Option Fields) (st : Shim)
      → SameCalls st (inject_payload rew resp b p st).1
  unfolding inject_payload
  payload_same resp b none st = (refl, refl)
  payload_same resp b (some fs) st = list_same fs (member (codes "items") fs) st

  body_same :
      (unmarshal : Bytes → Option Json) (resp : Response) (b : Body) (st : Shim)
      → SameCalls st (inject_body unmarshal rew resp b st).1
  unfolding inject_body
  body_same unmarshal resp (full b) st = payload_same resp b (payload (unmarshal b)) st
  body_same unmarshal resp (broken b) st = (refl, refl)

  hosts_same :
      (unmarshal : Bytes → Option Json) (req : Request) (resp : Response) (st : Shim)
      → SameCalls st (modify_hosts_response unmarshal rew req resp st).1
  unfolding modify_hosts_response
  hosts_same unmarshal req resp st = ground (arith, body_same unmarshal resp resp.body st)

module _ (unmarshal : Bytes → Option Json) (rew : Rewriter) (a : ArraySession)
    (configured : rew.arr ≡ some a) where
  settle_same : (r : Option Reply) (st : Shim) → SameCalls st (settle_identity unmarshal r st)
  unfolding settle_identity store_identity
  settle_same r st = ground arith

  discover-IsSound : (st : Shim) → IsSound a st → IsSound a (discover unmarshal a st)
  unfolding discover
  discover-IsSound st h =
      let out = on_wire (issue a get (codes "/api/2.36/arrays") none) st in
      same-IsSound a out.1 (settle_identity unmarshal out.0 out.1) (settle_same out.0 out.1)
        (issue-IsSound a get (codes "/api/2.36/arrays") none st h)

  identity-IsSound : (st : Shim) → IsSound a st → IsSound a (ensure_identity unmarshal rew st)
  unfolding ensure_identity
  identity-IsSound st h = elim (Option-cases st.known) [
    | inl e ↦ rw (e, ensure_identity) (rw configured (discover-IsSound st h))
    | inr (i, e) ↦ rw (e, ensure_identity) h
  ]

  connection-IsAuthenticated :
      (r : Request) (st : Shim)
      → IsAuthenticated st.wire
      → IsAuthenticated (connection rew r st).1.wire
  unfolding connection
  connection-IsAuthenticated r st h =
      elim (Bool-cases (same (host_names r) [] || not (is_realm_host (host_names r)))) [
        | inl e ↦ rw e h
        | inr e ↦ elim (Option-cases (resolve rew.by_node (host_names r))) [
          | inl m ↦ rw e (rw m h)
          | inr (hm, m) ↦ rw e (
              rw (m, configured)
                (reissue-IsAuthenticated a r hm (host_names r)
                  (learn_realm_host rew (host_names r) st)
                  (rw (learn_same rew (host_names r) st).0 h)))
        ]
      ]

  connection-IsSound : (r : Request) (st : Shim) → IsSound a st → IsSound a (connection rew r st).1
  connection-IsSound r st h = record {
    truthful = connection-IsTruthful rew a r configured st h.truthful;
    authenticated = connection-IsAuthenticated r st h.authenticated;
  }

  pub intercept-IsSound :
      (r : Request) (st : Shim) → IsSound a st → IsSound a (intercept unmarshal rew r st).1
  unfolding intercept
  intercept-IsSound r st h = ground (arith, connection-IsSound r st h)

  pub request-IsSound :
      (fqdn : Bytes) (r : Request) (st : Shim)
      → IsSound a st
      → IsSound a (rewrite_request unmarshal rew fqdn r st).1
  unfolding rewrite_request rewrite_request_string
  request-IsSound fqdn r st h = ground (arith, identity-IsSound st h)

  rewrite-IsSound :
      (fqdn : Bytes) (req : Request) (resp : Response) (b : Body) (st : Shim)
      → IsSound a st
      → IsSound a (rewrite_body unmarshal rew fqdn req resp b st).1
  unfolding rewrite_body rewrite_identity rewrite_response_body
  rewrite-IsSound fqdn req resp (full b) st h = ground (arith, identity-IsSound st h)
  rewrite-IsSound fqdn req resp (broken b) st h = h

  pub response-IsSound :
      (fqdn : Bytes) (req : Request) (resp : Response) (st : Shim)
      → IsSound a st
      → IsSound a (modify_response unmarshal rew fqdn req resp st).1
  unfolding modify_response
  response-IsSound fqdn req resp st h =
      let hosts = modify_hosts_response unmarshal rew req resp st in
      let sound : IsSound a hosts.1 =
        same-IsSound a st hosts.1 (hosts_same rew unmarshal req resp st) h in
      ground (arith, rewrite-IsSound fqdn req hosts.0 hosts.0.body hosts.1 sound)
