-- ===== src/Proxy/Learned.antt =====
-- The names that the shim maps array hosts back to, after any sequence of requests.
use mathlib.Core.List.{Permᴰ}
use px_smt_multirealm_shim.Common.{
  ◌≡◌, refl, sym, subst, false, ◌||◌, not, Bool-cases, Option-cases, inl, inr, Option, none, some,
  List, [], ◌∷◌, All, arith,
}
use px_smt_multirealm_shim.Bytes.{Bytes, codes, same, same_iff}
use px_smt_multirealm_shim.Bytes.Assoc.{Assoc, insert}
use px_smt_multirealm_shim.Http.{Request, Response, Body, full, broken}
use px_smt_multirealm_shim.Json.{Json, null, arr, obj, member, Items, nil, cons, Fields}
use px_smt_multirealm_shim.Config.{HostMapping}
use px_smt_multirealm_shim.Array.{ArraySession, Reply}
use px_smt_multirealm_shim.Rewriter.{
  Rewriter, Shim, is_realm_host, resolve, is_double_prefixed, learn_realm_host, realm_of, on_wire,
}
use px_smt_multirealm_shim.Rewriter.Grant.{store_grant, request_grant, ensure_realm_access}
use px_smt_multirealm_shim.Rewriter.Connection.{forward, forward_granted, reissue, connection}
use px_smt_multirealm_shim.Rewriter.Connection.Calls.{host_names}
use px_smt_multirealm_shim.Rewriter.Hosts.{intercept}
use px_smt_multirealm_shim.Rewriter.Response.{
  payload, name_of, inject_item, inject_items, inject_list, inject_payload, inject_body,
  modify_hosts_response, rewrite_identity, rewrite_body, modify_response,
}
use px_smt_multirealm_shim.Identity.{
  store_identity, settle_identity, discover, ensure_identity, rewrite_response_body,
  rewrite_request_string,
}
use px_smt_multirealm_shim.Proxy.{Upstream, rewrite_request, serve, Arrival, rewriter_at}
use px_smt_multirealm_shim.Proxy.Serving.{AreKept, serve_keeps}

-- in some order of the hosts px's name resolves to a mapping with this array host, and it is not the
-- array host behind a separator
abbrev pub Names : Assoc HostMapping → Bytes × Bytes → Type 0
Names hosts (array_host, name) =
    (order : Assoc HostMapping) × (hm : HostMapping) × Permᴰ order hosts
    × (resolve order name ≡ some hm)
    × (hm.array_host ≡ array_host)
    × (is_double_prefixed name hm ≡ false)

abbrev pub IsLearned : Assoc HostMapping → Shim → Type 0
IsLearned hosts st = All (Names hosts) st.by_array_host

insert-All :
    (P : Bytes × Bytes → Type 0) (k v : Bytes) (m : Assoc Bytes)
    → P (k, v)
    → All P m
    → All P (insert k v m)
unfolding insert
insert-All P k v [] p h = (p, tt)
insert-All P k v ((j, w) ∷ m) p h = elim (Bool-cases (same j k)) [
  | inl e ↦ rw e (subst (λ i. P (i, v)) (sym ((same_iff j k).0 e)) p, h.1)
  | inr e ↦ rw e (h.0, insert-All P k v m p h.1)
]

-- the names are as before
abbrev SameNames : Shim → Shim → Type 0
SameNames st st' = st'.by_array_host ≡ st.by_array_host

module _ (a : ArraySession) where
  ensure_names :
      (host realm : Bytes) (st : Shim) → SameNames st (ensure_realm_access a host realm st).1
  unfolding ensure_realm_access request_grant on_wire store_grant
  ensure_names host realm st = ground arith

  forward_names :
      (r : Request) (hm : HostMapping) (name : Bytes) (st : Shim)
      → SameNames st (forward a r hm name st).1
  unfolding forward on_wire
  forward_names r hm name st = refl

  reissue_names :
      (r : Request) (hm : HostMapping) (name : Bytes) (st : Shim)
      → SameNames st (reissue a r hm name st).1
  unfolding reissue forward_granted
  reissue_names r hm name st =
      let granted = (ensure_realm_access a hm.array_host (realm_of name) st).1 in
      ground (
        arith,
        ensure_names hm.array_host (realm_of name) st,
        forward_names r hm name st,
        forward_names r hm name granted,
      )

module _ (rew : Rewriter) (hosts : Assoc HostMapping) (perm : Permᴰ rew.by_node hosts) where
  same-IsLearned : (st st' : Shim) → SameNames st st' → IsLearned hosts st → IsLearned hosts st'
  same-IsLearned st st' e h = subst (All (Names hosts)) (sym e) h

  learn-IsLearned :
      (name : Bytes) (st : Shim)
      → IsLearned hosts st
      → IsLearned hosts (learn_realm_host rew name st)
  unfolding learn_realm_host
  learn-IsLearned name st h = elim (Option-cases (resolve rew.by_node name)) [
    | inl e ↦ rw (e, learn_realm_host) h
    | inr (hm, e) ↦ elim (Bool-cases (is_double_prefixed name hm)) [
      | inl d ↦ rw (e, learn_realm_host) (rw d h)
      | inr d ↦
          rw (e, learn_realm_host)
            (rw d (
              insert-All (Names hosts) hm.array_host name st.by_array_host
                (rew.by_node, hm, perm, e, refl, d) h))
    ]
  ]

  item-IsLearned :
      (it : Json) (st : Shim) → IsLearned hosts st → IsLearned hosts (inject_item rew it st).2
  unfolding inject_item
  item-IsLearned (obj m) st h = ground (arith, h, learn-IsLearned (name_of m) st h)
  item-IsLearned null st h = h
  item-IsLearned _ st h = h

  items-IsLearned :
      (its : Items) (st : Shim) → IsLearned hosts st → IsLearned hosts (inject_items rew its st).2
  unfolding inject_items
  items-IsLearned nil st h = h
  items-IsLearned (cons it its) st h =
      items-IsLearned its (inject_item rew it st).2 (item-IsLearned it st h)

  list-IsLearned :
      (fs : Fields) (v : Option Json) (st : Shim)
      → IsLearned hosts st
      → IsLearned hosts (inject_list rew fs v st).2
  unfolding inject_list
  list-IsLearned fs (some (arr its)) st h = items-IsLearned its st h
  list-IsLearned fs (some null) st h = h
  list-IsLearned fs none st h = h
  list-IsLearned fs _ st h = h

  payload-IsLearned :
      (resp : Response) (b : Bytes) (p : Option Fields) (st : Shim)
      → IsLearned hosts st
      → IsLearned hosts (inject_payload rew resp b p st).1
  unfolding inject_payload
  payload-IsLearned resp b none st h = h
  payload-IsLearned resp b (some fs) st h = list-IsLearned fs (member (codes "items") fs) st h

  module _ (unmarshal : Bytes → Option Json) where
    body-IsLearned :
        (resp : Response) (b : Body) (st : Shim)
        → IsLearned hosts st
        → IsLearned hosts (inject_body unmarshal rew resp b st).1
    unfolding inject_body
    body-IsLearned resp (full b) st h = payload-IsLearned resp b (payload (unmarshal b)) st h
    body-IsLearned resp (broken b) st h = h

    hosts-IsLearned :
        (req : Request) (resp : Response) (st : Shim)
        → IsLearned hosts st
        → IsLearned hosts (modify_hosts_response unmarshal rew req resp st).1
    unfolding modify_hosts_response
    hosts-IsLearned req resp st h = ground (arith, h, body-IsLearned resp resp.body st h)

    settle_names : (r : Option Reply) (st : Shim) → SameNames st (settle_identity unmarshal r st)
    unfolding settle_identity store_identity
    settle_names r st = ground arith

    identity_names : (st : Shim) → SameNames st (ensure_identity unmarshal rew st)
    unfolding ensure_identity discover on_wire
    identity_names st = elim (Option-cases st.known) [
      | inr (i, e) ↦ rw (e, ensure_identity) refl
      | inl e ↦ elim (Option-cases rew.arr) [
        | inl n ↦ rw (e, ensure_identity) (rw n refl)
        | inr (a, n) ↦ rw (e, ensure_identity) (rw n (settle_names _ _))
      ]
    ]

    request_names :
        (fqdn : Bytes) (r : Request) (st : Shim)
        → SameNames st (rewrite_request unmarshal rew fqdn r st).1
    unfolding rewrite_request rewrite_request_string
    request_names fqdn r st = ground (arith, identity_names st)

    rewrite_names :
        (fqdn : Bytes) (req : Request) (resp : Response) (b : Body) (st : Shim)
        → SameNames st (rewrite_body unmarshal rew fqdn req resp b st).1
    unfolding rewrite_body rewrite_identity rewrite_response_body
    rewrite_names fqdn req resp (full b) st = ground (arith, identity_names st)
    rewrite_names fqdn req resp (broken b) st = refl

    response-IsLearned :
        (fqdn : Bytes) (req : Request) (resp : Response) (st : Shim)
        → IsLearned hosts st
        → IsLearned hosts (modify_response unmarshal rew fqdn req resp st).1
    unfolding modify_response
    response-IsLearned fqdn req resp st h =
        let hosts = modify_hosts_response unmarshal rew req resp st in
        let learned = hosts-IsLearned req resp st h in
        ground (
          arith,
          learned,
          same-IsLearned hosts.1
              (rewrite_body unmarshal rew fqdn req hosts.0 hosts.0.body hosts.1).1
              (rewrite_names fqdn req hosts.0 hosts.0.body hosts.1) learned,
        )

    connection-IsLearned :
        (r : Request) (st : Shim) → IsLearned hosts st → IsLearned hosts (connection rew r st).1
    unfolding connection
    connection-IsLearned r st h =
        elim (Bool-cases (same (host_names r) [] || not (is_realm_host (host_names r)))) [
          | inl e ↦ rw e h
          | inr e ↦ elim (Option-cases (resolve rew.by_node (host_names r))) [
            | inl m ↦ rw e (rw m h)
            | inr (hm, m) ↦
                let learned = learn_realm_host rew (host_names r) st in
                let known = learn-IsLearned (host_names r) st h in
                elim (Option-cases rew.arr) [
                  | inl n ↦ rw e (rw m (rw n known))
                  | inr (a, n) ↦ rw e (
                      rw m (
                        rw n (
                          same-IsLearned learned (reissue a r hm (host_names r) learned).1
                            (reissue_names a r hm (host_names r) learned) known)))
                ]
          ]
        ]

    intercept-IsLearned :
        (r : Request) (st : Shim)
        → IsLearned hosts st
        → IsLearned hosts (intercept unmarshal rew r st).1
    unfolding intercept
    intercept-IsLearned r st h = ground (arith, h, connection-IsLearned r st h)

module _ (unmarshal : Bytes → Option Json) (rew : Rewriter) where
  arrival-AreKept :
      (x : Arrival)
      → Permᴰ x.order rew.by_node
      → AreKept unmarshal (rewriter_at rew x) (IsLearned rew.by_node)
  arrival-AreKept x perm =
      let at = rewriter_at rew x in
      record {
        intercepts = intercept-IsLearned at rew.by_node perm unmarshal;
        requests = λ fqdn r st h.
            same-IsLearned at rew.by_node perm st (rewrite_request unmarshal at fqdn r st).1
              (request_names at rew.by_node perm unmarshal fqdn r st) h;
        responses = response-IsLearned at rew.by_node perm unmarshal;
      }

  arrivals-AreKept :
      (xs : List Arrival)
      → All (λ (x : Arrival). Permᴰ x.order rew.by_node) xs
      → All (λ (x : Arrival). AreKept unmarshal (rewriter_at rew x) (IsLearned rew.by_node)) xs
  arrivals-AreKept [] h = tt
  arrivals-AreKept (x ∷ xs) (hx, h) = (arrival-AreKept x hx, arrivals-AreKept xs h)

  -- If every name that an array host is mapped back to resolves, in some order of the hosts, to a mapping
  -- with that array host and is no double-prefixed name, then so it is after any sequence of requests,
  -- each of which visits the hosts in an order of its own.
  pub serve-IsLearned :
      (u : Upstream) (xs : List Arrival) (st : Shim)
      → All (λ (x : Arrival). Permᴰ x.order rew.by_node) xs
      → IsLearned rew.by_node st
      → IsLearned rew.by_node (serve unmarshal rew u xs st)
  serve-IsLearned u xs st h =
      serve_keeps unmarshal rew (IsLearned rew.by_node) u xs st (arrivals-AreKept xs h)
