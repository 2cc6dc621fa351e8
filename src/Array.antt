-- ===== src/Array.antt =====
-- internal/proxy/array.go: the session with the array by the array-level token.
-- The array is a function of the calls made before and of the call at hand: none is a transport
-- error. So it may answer the same call differently each time.
pub mod Session
use px_smt_multirealm_shim.Common.{
  ℕ, Bool, true, false, Option, none, some, List, ◌∷◌, [], ◌++◌, ◌==◌, if◌then◌else◌,
}
use px_smt_multirealm_shim.Common.Exec.{Exec, pure, fail, ◌>>=◌, ◌>>◌}
use px_smt_multirealm_shim.Bytes.{Bytes, codes, same}
use px_smt_multirealm_shim.Http.{Method, post}

-- the header `api-token` of a login, or `x-auth-token`
pub data Credential : Type 0 where
  api_token : Bytes → Credential
  auth_token : Bytes → Credential

pub record Call : Type 0 where
  pub method : Method
  pub url : Bytes
  pub credential : Credential
  pub body : Option Bytes

-- `auth` is the header `x-auth-token`, "" if it is absent
pub record Reply : Type 0 where
  pub status : ℕ
  pub auth : Bytes
  pub body : Bytes

pub record ArraySession : Type 0 where
  pub base : Bytes
  pub api : Bytes
  pub answer : List Call → Call → Option Reply

-- `arraySession.auth`, and the calls made so far, the last one first
pub record Wire : Type 0 where
  pub auth : Bytes
  pub sent : List Call

unfoldable pub send : ArraySession → Call → Exec Wire Reply
send a c w = (a.answer w.sent c, record w { sent = c ∷ w.sent })

unfoldable pub store_auth : Bytes → Exec Wire (Unit {0})
store_auth tok w = (some tt, record w { auth = tok })

abbrev pub login_call : ArraySession → Call
login_call a = record {
  method = post;
  url = a.base ++ codes "/api/2.36/login";
  credential = api_token a.api;
  body = none;
}

unfoldable pub login : ArraySession → Exec Wire (Unit {0})
unfolding send store_auth same ◌>>=◌
login a = do resp ← send a (login_call a); if same resp.auth [] then fail else store_auth resp.auth

-- the closure `call` of `do`
unfoldable pub call : ArraySession → Method → Bytes → Option Bytes → Exec Wire Reply
unfolding send
call a method path body w =
    send a
      (record {
        method = method;
        url = a.base ++ path;
        credential = auth_token w.auth;
        body = body;
      })
      w

-- a login if there is no token yet
unfoldable pub ensure_login : ArraySession → Exec Wire (Unit {0})
unfolding login same
ensure_login a w = if same w.auth [] then login a w else (some tt, w)

-- `arraySession.do`
unfoldable pub issue : ArraySession → Method → Bytes → Option Bytes → Exec Wire Reply
unfolding ensure_login login call ◌>>=◌
issue a method path body = do
  ensure_login a
  resp ← call a method path body
  if resp.status == 401 then (do login a; call a method path body) else pure resp
