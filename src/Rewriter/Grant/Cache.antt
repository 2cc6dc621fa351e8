-- ===== src/Rewriter/Grant/Cache.antt =====
-- The cache of grants: when it saves a call, and that it holds only what the array has agreed to.
use px_smt_multirealm_shim.Common.{
  zero, ◌≡◌, ◌≢◌, ◌⊎◌, inl, inr, refl, true, Option, none, some, List, [], ◌∷◌, ◌++◌, arith, All,
  Bool-cases, Option-cases,
}
use px_smt_multirealm_shim.Bytes.{Bytes}
use px_smt_multirealm_shim.Bytes.Search.{same_refl}
use px_smt_multirealm_shim.Http.{Method, post}
use px_smt_multirealm_shim.Array.{Call, Reply, ArraySession, Wire, login, issue}
use px_smt_multirealm_shim.Array.Session.{issue_answer}
use px_smt_multirealm_shim.Rewriter.{Shim, on_wire}
use px_smt_multirealm_shim.Rewriter.Grant.{
  resource_access_path, grant_key, has_grant, grant_body, is_grant_reply, store_grant,
  request_grant, ensure_realm_access,
}

-- A key names one host and one realm, as long as no host name holds a NUL byte.
pub grant_key_injective :
    (h h' r r' : Bytes)
    → All (λ c. c ≢ zero) h
    → All (λ c. c ≢ zero) h'
    → grant_key h r ≡ grant_key h' r'
    → (h ≡ h') × (r ≡ r')
unfolding grant_key
grant_key_injective [] [] r r' n n' e = ground arith
grant_key_injective [] (d ∷ h') r r' n n' e = ground arith
grant_key_injective (c ∷ h) [] r r' n n' e = ground arith
grant_key_injective (c ∷ h) (d ∷ h') r r' n n' e = ground (arith, grant_key_injective h h' r r')

module _ (a : ArraySession) where
  -- the call that was answered, when `before` were the calls made until then
  pub record IsGrant (key : Bytes) (c : Call) (before : List Call) : Type 0 where
    pub host : Bytes
    pub realm : Bytes
    pub reply : Reply
    pub names : key ≡ grant_key host realm
    pub asks : c.body ≡ some (grant_body host realm)
    pub goes : c.url ≡ a.base ++ resource_access_path
    pub answered : a.answer before c ≡ some reply
    pub agreed : is_grant_reply reply ≡ true

  abbrev pub Confirmed : Bytes → List Call → Type 0
  Confirmed key [] = ⊥
  Confirmed key (c ∷ before) = IsGrant key c before ⊎ Confirmed key before

  -- every key of the cache was agreed to by the array in a call that was sent
  abbrev pub IsTruthful : Shim → Type 0
  IsTruthful st = All (λ key. Confirmed key st.wire.sent) st.granted

  issue-Confirmed :
      (m : Method) (p : Bytes) (b : Option Bytes) (key : Bytes) (w : Wire)
      → Confirmed key w.sent
      → Confirmed key (issue a m p b w).1.sent
  unfolding issue
  issue-Confirmed m p b key w h = ground arith

  issue-All :
      (m : Method) (p : Bytes) (b : Option Bytes) (w : Wire) (keys : List Bytes)
      → All (λ key. Confirmed key w.sent) keys
      → All (λ key. Confirmed key (issue a m p b w).1.sent) keys
  issue-All m p b w [] h = tt
  issue-All m p b w (key ∷ keys) (hk, h) =
      (issue-Confirmed m p b key w hk, issue-All m p b w keys h)

  -- A call of any kind keeps the cache truthful.
  pub on_wire-IsTruthful :
      (m : Method) (p : Bytes) (b : Option Bytes) (st : Shim)
      → IsTruthful st
      → IsTruthful (on_wire (issue a m p b) st).1
  unfolding on_wire
  on_wire-IsTruthful m p b st h = issue-All m p b st.wire st.granted h

  login-Confirmed :
      (key : Bytes) (w : Wire) → Confirmed key w.sent → Confirmed key (login a w).1.sent
  unfolding login
  login-Confirmed key w h = ground arith

  login-All :
      (w : Wire) (keys : List Bytes)
      → All (λ key. Confirmed key w.sent) keys
      → All (λ key. Confirmed key (login a w).1.sent) keys
  login-All w [] h = tt
  login-All w (key ∷ keys) (hk, h) = (login-Confirmed key w hk, login-All w keys h)

  -- So does a login by itself.
  pub login-IsTruthful : (st : Shim) → IsTruthful st → IsTruthful (on_wire (login a) st).1
  unfolding on_wire
  login-IsTruthful st h = login-All st.wire st.granted h

  module _ (host realm : Bytes) where
    issue_grant :
        (w : Wire) (r : Reply)
        → (issue a post resource_access_path (some (grant_body host realm)) w).0 ≡ some r
        → is_grant_reply r ≡ true
        → Confirmed
            (grant_key host realm)
            (issue a post resource_access_path (some (grant_body host realm)) w).1.sent
    issue_grant w r e ok =
        let (last, answered, _) = issue_answer a post resource_access_path _ w r e in
        rw last (
          inl (record {
            host = host;
            realm = realm;
            reply = r;
            names = refl;
            asks = refl;
            goes = refl;
            answered = answered;
            agreed = ok;
          }))

    request-IsTruthful : (st : Shim) → IsTruthful st → IsTruthful (request_grant a host realm st).1
    unfolding request_grant on_wire store_grant
    request-IsTruthful st h =
        elim (Option-cases
          (issue a post resource_access_path (some (grant_body host realm)) st.wire).0) [
            | inl e ↦ rw e (on_wire-IsTruthful post _ _ st h)
            | inr (r, e) ↦ elim (Bool-cases (is_grant_reply r)) [
              | inl ok ↦ rw e (rw ok (issue_grant st.wire r e ok, on_wire-IsTruthful post _ _ st h))
              | inr bad ↦ rw e (rw bad (on_wire-IsTruthful post _ _ st h))
            ]
          ]

    -- Granting a realm keeps the cache truthful, whatever the array answers.
    pub ensure-IsTruthful :
        (st : Shim) → IsTruthful st → IsTruthful (ensure_realm_access a host realm st).1
    unfolding ensure_realm_access
    ensure-IsTruthful st h = ground (arith, request-IsTruthful st)

    -- After a success the same grant is free: nothing is sent and nothing changes.
    pub ensure_once :
        (st : Shim)
        → (ensure_realm_access a host realm st).0 ≡ some tt
        → ensure_realm_access a host realm (ensure_realm_access a host realm st).1
          ≡ (some tt, (ensure_realm_access a host realm st).1)
    unfolding ensure_realm_access request_grant store_grant has_grant
    ensure_once st h = ground (arith, same_refl (grant_key host realm))

    -- A refused grant leaves the cache as it was, and so the next POST asks again.
    pub ensure_refused :
        (st : Shim)
        → (ensure_realm_access a host realm st).0 ≡ none
        → (ensure_realm_access a host realm st).1.granted ≡ st.granted
    unfolding ensure_realm_access request_grant store_grant on_wire
    ensure_refused st h = ground arith
