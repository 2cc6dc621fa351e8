-- ===== src/Array/Session.antt =====
-- What `arraySession.do` sends to the array, and what it hands back.
use px_smt_multirealm_shim.Common.{
  ◌+◌, ◌≤◌, ◌≡◌, false, Option, some, List, ◌∷◌, [], ◌++◌, arith, length, All, inl, inr,
  Option-cases,
}
use px_smt_multirealm_shim.Bytes.{Bytes, same}
use px_smt_multirealm_shim.Http.{Method}
use px_smt_multirealm_shim.Array.{
  Credential, api_token, auth_token, Call, Reply, ArraySession, Wire, login_call, login, issue,
}

abbrev pub HasToken : Credential → Type 0
HasToken (api_token t) = Unit
HasToken (auth_token t) = same t [] ≡ false

-- no call carries an empty session token
abbrev pub IsAuthenticated : Wire → Type 0
IsAuthenticated w = All (λ (c : Call). HasToken c.credential) w.sent

-- the calls before the last one
abbrev pub earlier : List Call → List Call
earlier [] = []
earlier (_ ∷ cs) = cs

module _ (a : ArraySession) where
  -- a login keeps the old calls, and stores only a token that is not empty
  pub login-IsAuthenticated : (w : Wire) → IsAuthenticated w → IsAuthenticated (login a w).1
  unfolding login
  login-IsAuthenticated w h = ground arith

  login_token : (w : Wire) → (login a w).0 ≡ some tt → same (login a w).1.auth [] ≡ false
  unfolding login
  login_token w h = ground arith

  module _ (method : Method) (path : Bytes) (body : Option Bytes) where
    abbrev pub call_with : Bytes → Call
    call_with tok = record {
      method = method;
      url = a.base ++ path;
      credential = auth_token tok;
      body = body;
    }

    -- Whatever the array answers, no call that is sent carries an empty session token.
    pub issue-IsAuthenticated :
        (w : Wire) → IsAuthenticated w → IsAuthenticated (issue a method path body w).1
    unfolding issue
    issue-IsAuthenticated w h = ground arith

    -- The reply is what the array answered to the last call sent, which has the method, the path and
    -- the body that were asked for, and a token.
    pub issue_answer :
        (w : Wire) (r : Reply)
        → (issue a method path body w).0 ≡ some r
        → let w' = (issue a method path body w).1 in
          (w'.sent ≡ call_with w'.auth ∷ earlier w'.sent)
          × (a.answer (earlier w'.sent) (call_with w'.auth) ≡ some r)
          × (same w'.auth [] ≡ false)
    unfolding issue
    issue_answer w r h = ground arith

    -- A reply 401 comes back only after a second try: the last call but one is a login, and the last
    -- is the call with the token of that login's reply, which is not empty.
    pub issue_unauthorized :
        (w : Wire) (r : Reply)
        → (issue a method path body w).0 ≡ some r
        → r.status ≡ 401
        → let w' = (issue a method path body w).1 in
          let before = earlier (earlier w'.sent) in
          (again : Reply) × (a.answer before (login_call a) ≡ some again)
          × (w'.sent ≡ call_with again.auth ∷ login_call a ∷ before)
          × (same again.auth [] ≡ false)
    unfolding issue
    issue_unauthorized w r h e =
        let before = earlier (earlier (issue a method path body w).1.sent) in
        elim (Option-cases (a.answer before (login_call a))) [
          | inl n ↦ absurd (ground (arith, h, e, n))
          | inr (again, n) ↦ (again, n, ground (arith, h, e, n), ground (arith, h, e, n))
        ]

    -- At most four calls are sent: a login, the call, and on a 401 both once more.
    pub issue_budget : (w : Wire) → length (issue a method path body w).1.sent ≤ length w.sent + 4
    unfolding issue
    issue_budget w = ground arith
