-- ===== src/Rewriter/Connection/Calls.antt =====
-- What `connection` sends to the array, for every answer that the array may give.
use px_smt_multirealm_shim.Common.{
  ◌≡◌, ◌≢◌, ◌⊎◌, ◌↔◌, inl, inr, refl, true, false, not, ◌||◌, Option, none, some, [], ◌∷◌, arith,
  Bool-cases, Option-cases,
}
use px_smt_multirealm_shim.Bytes.{Bytes, codes, same, same_iff}
use px_smt_multirealm_shim.Bytes.Search.{same_refl}
use px_smt_multirealm_shim.Http.{post, Request, Synth}
use px_smt_multirealm_shim.Url.{parse_query, query_get, query_set}
use px_smt_multirealm_shim.Config.{HostMapping}
use px_smt_multirealm_shim.Array.{Reply, ArraySession, issue}
use px_smt_multirealm_shim.Array.Session.{earlier, call_with, issue_answer}
use px_smt_multirealm_shim.Rewriter.{
  Rewriter, Shim, is_realm_host, resolve, realm_of, learn_realm_host, on_wire,
}
use px_smt_multirealm_shim.Rewriter.Grant.{
  grant_key, has_grant, request_grant, ensure_realm_access, store_grant,
}
use px_smt_multirealm_shim.Rewriter.Grant.Cache.{IsTruthful, on_wire-IsTruthful, ensure-IsTruthful}
use px_smt_multirealm_shim.Rewriter.Connection.{
  is_post, nil_if_empty, grant_error, upstream_error, connection_path, answer_or_error,
  connection_answer, forward, forward_granted, reissue, connection,
}

abbrev pub host_names : Request → Bytes
host_names r = query_get (parse_query r.raw_query) (codes "host_names")

abbrev pub volume_names : Request → HostMapping → Bytes
volume_names r hm =
    query_get (query_set (parse_query r.raw_query) (codes "host_names") hm.array_host)
      (codes "volume_names")

module _ (rew : Rewriter) (st : Shim) where
  learn_wire : (name : Bytes) → (learn_realm_host rew name st).wire ≡ st.wire
  unfolding learn_realm_host
  learn_wire name = ground arith

  learn_granted : (name : Bytes) → (learn_realm_host rew name st).granted ≡ st.granted
  unfolding learn_realm_host
  learn_granted name = ground arith

-- the array host answered, and px gets what `connection_answer` makes of it
pub record IsForwarded (a : ArraySession) (r : Request) (hm : HostMapping) (name : Bytes)
    (out : Option Synth × Shim) : Type 0 where
  pub reply : Reply
  pub last :
      out.1.wire.sent
      ≡ call_with a r.method (connection_path r hm) (nil_if_empty r.body) out.1.wire.auth
        ∷ earlier out.1.wire.sent
  pub answered :
      a.answer
        (earlier out.1.wire.sent)
        (call_with a r.method (connection_path r hm) (nil_if_empty r.body) out.1.wire.auth)
      ≡ some reply
  pub result : out.0 ≡ some (connection_answer r.method hm name (volume_names r hm) reply)

ensure_grant :
    (a : ArraySession) (host realm : Bytes) (st : Shim)
    → host ≢ []
    → realm ≢ []
    → (ensure_realm_access a host realm st).0 ≡ some tt
    → has_grant (grant_key host realm) (ensure_realm_access a host realm st).1.granted ≡ true
unfolding ensure_realm_access request_grant store_grant has_grant
ensure_grant a host realm st nh nr h =
    ground (arith, same_iff host [], same_iff realm [], same_refl (grant_key host realm))

module _ (a : ArraySession) (r : Request) (hm : HostMapping) (name : Bytes) where
  forward-IsTruthful : (st : Shim) → IsTruthful a st → IsTruthful a (forward a r hm name st).1
  unfolding forward
  forward-IsTruthful st h =
      on_wire-IsTruthful a r.method (connection_path r hm) (nil_if_empty r.body) st h

  granted-IsTruthful :
      (g : Option (Unit {0})) (st : Shim)
      → IsTruthful a st
      → IsTruthful a (forward_granted a r hm name g st).1
  unfolding forward_granted
  granted-IsTruthful none st h = h
  granted-IsTruthful (some _) st h = forward-IsTruthful st h

  reissue-IsTruthful : (st : Shim) → IsTruthful a st → IsTruthful a (reissue a r hm name st).1
  unfolding reissue
  reissue-IsTruthful st h = elim (Bool-cases (is_post r.method)) [
    | inl e ↦ rw e (
        granted-IsTruthful (ensure_realm_access a hm.array_host (realm_of name) st).0 _
          (ensure-IsTruthful a hm.array_host (realm_of name) st h))
    | inr e ↦ rw e (forward-IsTruthful st h)
  ]

  forward_outcome :
      (st : Shim)
      → ((forward a r hm name st).0 ≡ some upstream_error)
        ⊎ IsForwarded a r hm name (forward a r hm name st)
  unfolding forward answer_or_error on_wire
  forward_outcome st =
      elim (Option-cases
        (issue a r.method (connection_path r hm) (nil_if_empty r.body) st.wire).0) [
          | inl e ↦ inl (rw e)
          | inr (reply, e) ↦
              let (last, answered, _) =
                issue_answer a r.method (connection_path r hm) (nil_if_empty r.body) st.wire reply
                  e in
              inr (record { reply = reply; last = last; answered = answered; result = rw e })
        ]

  granted_outcome :
      (g : Option (Unit {0})) (st : Shim)
      → ((forward_granted a r hm name g st).0 ≡ some grant_error)
        ⊎ ((forward_granted a r hm name g st).0 ≡ some upstream_error)
        ⊎ IsForwarded a r hm name (forward_granted a r hm name g st)
  unfolding forward_granted
  granted_outcome none st = inl refl
  granted_outcome (some _) st = inr (forward_outcome st)

  reissue_outcome :
      (st : Shim)
      → ((is_post r.method ≡ true) × ((reissue a r hm name st).0 ≡ some grant_error))
        ⊎ ((reissue a r hm name st).0 ≡ some upstream_error)
        ⊎ IsForwarded a r hm name (reissue a r hm name st)
  unfolding reissue
  reissue_outcome st = elim (Bool-cases (is_post r.method)) [
    | inl e ↦
        rw e
          (elim (granted_outcome (ensure_realm_access a hm.array_host (realm_of name) st).0
            (ensure_realm_access a hm.array_host (realm_of name) st).1) [
              | inl x ↦ inl (refl, x)
              | inr x ↦ inr x
            ])
    | inr e ↦ rw e (inr (forward_outcome st))
  ]

  reissue_grant :
      (st : Shim)
      → r.method ≡ post
      → hm.array_host ≢ []
      → realm_of name ≢ []
      → (reissue a r hm name st).0 ≢ some grant_error
      → has_grant (grant_key hm.array_host (realm_of name)) (reissue a r hm name st).1.granted
        ≡ true
  unfolding reissue forward_granted forward is_post
  reissue_grant st p nh nr ne =
      rw p (ground (arith, ensure_grant a hm.array_host (realm_of name) st nh nr, p))

module _ (rew : Rewriter) (a : ArraySession) (r : Request) (configured : rew.arr ≡ some a) where
  -- `connection` keeps the cache of grants truthful.
  pub connection-IsTruthful : (st : Shim) → IsTruthful a st → IsTruthful a (connection rew r st).1
  unfolding connection
  connection-IsTruthful st h =
      elim (Bool-cases (same (host_names r) [] || not (is_realm_host (host_names r)))) [
        | inl e ↦ rw e h
        | inr e ↦ elim (Option-cases (resolve rew.by_node (host_names r))) [
          | inl m ↦ rw e (rw m h)
          | inr (hm, m) ↦ rw e (
              rw (m, configured)
                (reissue-IsTruthful a r hm (host_names r) (learn_realm_host rew (host_names r) st)
                  (rw (learn_wire rew st (host_names r), learn_granted rew st (host_names r)) h)))
        ]
      ]

  -- The shim lets a request through exactly if it names no realm host or none that is mapped.
  pub connection_passes :
      (st : Shim)
      → ((connection rew r st).0 ≡ none) ↔ (
          ((same (host_names r) [] || not (is_realm_host (host_names r))) ≡ true)
          ⊎ (resolve rew.by_node (host_names r) ≡ none))
  unfolding connection reissue forward_granted forward
  connection_passes st = (λ h. ground (arith, configured), λ h. ground (arith, configured))

  connection-reissue :
      (hm : HostMapping) (st : Shim)
      → (same (host_names r) [] || not (is_realm_host (host_names r))) ≡ false
      → resolve rew.by_node (host_names r) ≡ some hm
      → connection rew r st ≡ reissue a r hm (host_names r) (learn_realm_host rew (host_names r) st)
  unfolding connection
  connection-reissue hm st e m = rw e (rw m (simp configured))

  -- With a session with the array configured, a request for a mapped realm host has one of three
  -- outcomes: the grant was refused, which only a POST can meet; the array could not be reached; or the array answered a last call, with the
  -- session's token, the method and the body of the request, and the host name replaced in the query.
  pub connection_outcome :
      (hm : HostMapping) (st : Shim)
      → (same (host_names r) [] || not (is_realm_host (host_names r))) ≡ false
      → resolve rew.by_node (host_names r) ≡ some hm
      → ((is_post r.method ≡ true) × ((connection rew r st).0 ≡ some grant_error))
        ⊎ ((connection rew r st).0 ≡ some upstream_error)
        ⊎ IsForwarded a r hm (host_names r) (connection rew r st)
  connection_outcome hm st e m =
      rw (connection-reissue hm st e m)
        (reissue_outcome a r hm (host_names r) (learn_realm_host rew (host_names r) st))

  -- With a session with the array configured, a POST for a mapped realm host, with a non-empty array host
  -- and realm, that is not answered by the grant error leaves their grant in the cache.
  pub connection_grant :
      (hm : HostMapping) (st : Shim)
      → r.method ≡ post
      → (same (host_names r) [] || not (is_realm_host (host_names r))) ≡ false
      → resolve rew.by_node (host_names r) ≡ some hm
      → hm.array_host ≢ []
      → realm_of (host_names r) ≢ []
      → (connection rew r st).0 ≢ some grant_error
      → has_grant
          (grant_key hm.array_host (realm_of (host_names r)))
          (connection rew r st).1.granted
        ≡ true
  connection_grant hm st p e m nh nr ne = rw (connection-reissue hm st e m) (
      reissue_grant a r hm (host_names r) (learn_realm_host rew (host_names r) st) p nh nr
        (rw (connection-reissue hm st e m) at ne))
