-- ===== src/Startup/Served.antt =====
-- From the environment to the requests: what holds of a shim that listens, and of all that it handles.
use px_smt_multirealm_shim.Common.{
  ◌≡◌, ◌≢◌, ◌⊎◌, ap, ◌∙◌, inl, inr, Option, some, List, [], ◌∷◌, Option-cases, arith,
}
use px_smt_multirealm_shim.Bytes.{Bytes, codes, same_iff}
use px_smt_multirealm_shim.Http.{Request, Response}
use px_smt_multirealm_shim.Json.{Json}
use px_smt_multirealm_shim.Config.Env.{Url, Config, loaded, from_env}
use px_smt_multirealm_shim.Config.Env.Valid.{IsValid, from_env-IsValid, load_cases}
use px_smt_multirealm_shim.Config.Cert.{Crypto, load_or_generate_cert, IsIssuedFor, cert_source}
use px_smt_multirealm_shim.Array.{Call, Reply, ArraySession}
use px_smt_multirealm_shim.Rewriter.{Rewriter, Shim, new_rewriter, validate, on_wire}
use px_smt_multirealm_shim.Rewriter.Grant.Cache.{login-IsTruthful}
use px_smt_multirealm_shim.Array.Session.{login-IsAuthenticated}
use px_smt_multirealm_shim.Proxy.{fresh, serve, Arrival}
use px_smt_multirealm_shim.Proxy.Invariant.{IsSound}
use px_smt_multirealm_shim.Proxy.Serving.{serve-IsSound}
use px_smt_multirealm_shim.Startup.{
  Start, listening, rewriter_config, upstream_of, start_with, start, run_shim,
}

module _ {Key Serial Der Cert : Type 0} (crypto : Crypto Key Serial Der Cert)
    (answer : List Call → Call → Option Reply) (env : Bytes → Bytes)
    (read_file : Bytes → Option Bytes) (unmarshal : Bytes → Option Json)
    (parse_url : Bytes → Option Url) where
  listening_made :
      (cfg : Config) (rew : Rewriter) (cert : Cert)
      → start crypto answer env read_file unmarshal parse_url ≡ listening cfg rew cert
      → (from_env env read_file unmarshal parse_url ≡ loaded cfg)
        × (load_or_generate_cert crypto cfg ≡ some cert)
        × (rew ≡ new_rewriter answer (rewriter_config cfg))
  unfolding start start_with
  listening_made cfg rew cert h = elim (load_cases (from_env env read_file unmarshal parse_url)) [
    | inl (e, he) ↦ absurd (ground (arith, rw (start, he) at h))
    | inr (c, hc) ↦ elim (Option-cases (load_or_generate_cert crypto c)) [
      | inl n ↦ absurd (ground (arith, rw (start, hc, n, start_with) at h))
      | inr (x, hx) ↦
          let same_start : ◌≡◌ {A = Start Cert}
              (listening c (new_rewriter answer (rewriter_config c)) x) (listening cfg rew cert) =
            rw (start, hc, hx, start_with) at h in
          (cc (hc, same_start), cc (hx, same_start), cc same_start)
    ]
  ]

  -- A shim that listens has a valid configuration, and a certificate from the two files, or one made for
  -- localhost, px-shim and the configured names.
  pub started-IsReady :
      (cfg : Config) (rew : Rewriter) (cert : Cert)
      → start crypto answer env read_file unmarshal parse_url ≡ listening cfg rew cert
      → IsValid cfg
        × ((crypto.load_pair cfg.cert_file cfg.key_file ≡ some cert)
            ⊎ IsIssuedFor crypto (codes "localhost" ∷ codes "px-shim" ∷ cfg.cert_sans) cert)
  started-IsReady cfg rew cert h =
      let (read, certified, _) = listening_made cfg rew cert h in
      (
        from_env-IsValid env read_file unmarshal parse_url cfg read,
        cert_source crypto cfg cert certified,
      )

  -- the session with the array that the configuration describes
  abbrev pub session : Config → ArraySession
  session cfg = record { base = cfg.upstream_url.text; api = cfg.array_token; answer = answer }

  new_rewriter-session :
      (cfg : Config)
      → cfg.array_token ≢ []
      → (new_rewriter answer (rewriter_config cfg)).arr ≡ some (session cfg)
  unfolding new_rewriter rewriter_config
  new_rewriter-session cfg h = ground (arith, h, same_iff cfg.array_token [])

  validate-IsSound :
      (rew : Rewriter) (a : ArraySession) (st : Shim)
      → rew.arr ≡ some a
      → IsSound a st
      → IsSound a (validate rew st)
  unfolding validate on_wire
  validate-IsSound rew a st e h = rw e (record {
    truthful = login-IsTruthful a st h.truthful;
    authenticated = login-IsAuthenticated a st.wire h.authenticated;
  })

  -- A shim that listens, with a token for the array, has through any sequence of requests, and the login
  -- at startup between any two of them, only grants in its cache that the array agreed to, and sends no
  -- call with an empty session token.
  pub started-IsSound :
      (cfg : Config) (rew : Rewriter) (cert : Cert)
      → start crypto answer env read_file unmarshal parse_url ≡ listening cfg rew cert
      → cfg.array_token ≢ []
      → (respond respond_closed : Request → Option Response) (before after : List Arrival)
      → IsSound
          (session cfg)
          (run_shim unmarshal rew (upstream_of cfg respond respond_closed) before after)
  unfolding run_shim
  started-IsSound cfg rew cert h token respond respond_closed before after =
      let (_, _, made) = listening_made cfg rew cert h in
      let u = upstream_of cfg respond respond_closed in
      let configured : rew.arr ≡ some (session cfg) =
        ap (λ (r : Rewriter). r.arr) made ∙ new_rewriter-session cfg token in
      let served = serve unmarshal rew u before fresh in
      serve-IsSound unmarshal rew (session cfg) configured u after (validate rew served) (
        validate-IsSound rew (session cfg) served configured (
          serve-IsSound unmarshal rew (session cfg) configured u before fresh
            (record { truthful = tt; authenticated = tt })))
