-- ===== src/Startup.antt =====
-- cmd/px-smt-multirealm-shim/main.go: what `main` does up to `ListenAndServeTLS`, and in Shutdown how it
-- ends. `proxy.New` returns no error.
pub mod Shutdown
pub mod Served
use px_smt_multirealm_shim.Common.{Option, none, some, List}
use px_smt_multirealm_shim.Bytes.{Bytes}
use px_smt_multirealm_shim.Http.{Request, Response}
use px_smt_multirealm_shim.Json.{Json}
use px_smt_multirealm_shim.Config.Env.{Url, Config, EnvError, Loaded, loaded, failed, from_env}
use px_smt_multirealm_shim.Config.Cert.{Crypto, load_or_generate_cert}
use px_smt_multirealm_shim.Array.{Call, Reply}
use px_smt_multirealm_shim.Rewriter
use px_smt_multirealm_shim.Rewriter.{Rewriter, Shim, new_rewriter, validate}
use px_smt_multirealm_shim.Proxy.{Upstream, Arrival, fresh, serve}

-- `log.Fatalf` before there is a listener, or the server that listens
pub data Start (Cert : Type 0) : Type 0 where
  config_failed : EnvError → Start Cert
  cert_failed : Start Cert
  listening : Config → Rewriter → Cert → Start Cert

-- what `NewRewriter` reads of the configuration
unfoldable pub rewriter_config : Config → Rewriter.Config
rewriter_config cfg = record {
  rewrite_enabled = cfg.rewrite_enabled;
  array_identity = cfg.array_identity;
  upstream_url = cfg.upstream_url.text;
  array_token = cfg.array_token;
  hosts = cfg.hosts;
}

-- what the handler of `New` reads of it, with a transport
unfoldable pub upstream_of :
    Config → (Request → Option Response) → (Request → Option Response) → Upstream
upstream_of cfg respond respond_closed = record {
  upstream_host = cfg.upstream_host;
  url_host = cfg.upstream_url.host;
  log_bodies = cfg.log_bodies;
  respond = respond;
  respond_closed = respond_closed;
}

module _ {Key Serial Der Cert : Type 0} (crypto : Crypto Key Serial Der Cert)
    (answer : List Call → Call → Option Reply) (env : Bytes → Bytes)
    (read_file : Bytes → Option Bytes) (unmarshal : Bytes → Option Json)
    (parse_url : Bytes → Option Url) where
  unfoldable pub start_with : Config → Option Cert → Start Cert
  unfolding new_rewriter rewriter_config
  start_with cfg none = cert_failed
  start_with cfg (some cert) = listening cfg (new_rewriter answer (rewriter_config cfg)) cert

  -- `main`
  unfoldable pub start : Start Cert
  unfolding start_with load_or_generate_cert from_env
  start = elim (from_env env read_file unmarshal parse_url) [
    | failed e ↦ config_failed e
    | loaded cfg ↦ start_with cfg (load_or_generate_cert crypto cfg)
  ]

-- The shim after the requests before the login at startup, this login, and those behind it.
unfoldable pub run_shim :
    (Bytes → Option Json) → Rewriter → Upstream → List Arrival → List Arrival → Shim
unfolding serve validate
run_shim unmarshal rew u before after =
    serve unmarshal rew u after (validate rew (serve unmarshal rew u before fresh))
