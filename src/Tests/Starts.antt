-- ===== src/Tests/Starts.antt =====
-- A start of the shim, and a shutdown with one open request.
use mathlib.Core.Option.{bind}
use px_smt_multirealm_shim.Common.{
  ◌≡◌, ◌≢◌, ◌⊎◌, refl, true, false, Option, none, some, List, [], ◌∷◌, arith, if◌then◌else◌,
}
use px_smt_multirealm_shim.Bytes.{Bytes, codes, same}
use px_smt_multirealm_shim.Http.{full}
use px_smt_multirealm_shim.Config.Env.{Config, configure}
use px_smt_multirealm_shim.Config.Env.Valid.{IsValid}
use px_smt_multirealm_shim.Config.Cert.{Template, Crypto, IsIssuedFor}
use px_smt_multirealm_shim.Array.{Call, Reply}
use px_smt_multirealm_shim.Rewriter.{Rewriter, new_rewriter}
use px_smt_multirealm_shim.Proxy.{Arrival}
use px_smt_multirealm_shim.Proxy.Invariant.{IsSound}
use px_smt_multirealm_shim.Startup.{listening, rewriter_config, upstream_of, start, run_shim}
use px_smt_multirealm_shim.Startup.Served.{started-IsReady, session, started-IsSound}
use px_smt_multirealm_shim.Startup.Shutdown
use px_smt_multirealm_shim.Startup.Shutdown.{State}
use px_smt_multirealm_shim.Startup.Shutdown.Drained.{Reach-drained}
use px_smt_multirealm_shim.Tests.Data.{
  agreed, create, list_volumes, arrival, answers_volumes, answers_nothing,
}
use px_smt_multirealm_shim.Tests.Settings.{no_file, no_json, one_url, default_url}

-- keys and serials without content; a certificate is the names that it was made for
abbrev crypto : Crypto (Unit {0}) (Unit {0}) (List Bytes) (List Bytes)
crypto = record {
  load_pair = λ (c k : Bytes). none;
  key = some tt;
  serial = some tt;
  now = 100000;
  add_years = λ t n. t;
  create = λ (t : Template (Unit {0})) (k : Unit {0}). some t.dns_names;
  key_pair = λ (der : List Bytes) (k : Unit {0}). some der;
}

abbrev token_env : Bytes → Bytes
token_env k = if same k (codes "SHIM_ARRAY_TOKEN") then codes "key" else []

abbrev answering : List Call → Call → Option Reply
answering before c = some agreed

abbrev cfg : Config
cfg = configure token_env no_file no_json one_url [] default_url

abbrev rew : Rewriter
rew = new_rewriter answering (rewriter_config cfg)

abbrev names : List Bytes
names = codes "localhost" ∷ codes "px-shim" ∷ []

started : start crypto answering token_env no_file no_json one_url ≡ listening cfg rew names
unfolding start same configure bind
started = refl

started-IsReady_example :
    IsValid cfg
    × ((crypto.load_pair cfg.cert_file cfg.key_file ≡ some names)
        ⊎ IsIssuedFor crypto (codes "localhost" ∷ codes "px-shim" ∷ cfg.cert_sans) names)
started-IsReady_example =
    started-IsReady crypto answering token_env no_file no_json one_url cfg rew names started

has_token : cfg.array_token ≢ []
unfolding configure same
has_token e = ground (arith, e)

abbrev opening : Arrival
opening = arrival rew.by_node answers_nothing create (full (codes "{}"))

abbrev listing_volumes : Arrival
listing_volumes = arrival rew.by_node answers_volumes list_volumes (full (codes ""))

started-IsSound_example : IsSound (session crypto answering token_env no_file no_json one_url cfg) (
    run_shim no_json rew
      (upstream_of cfg answers_volumes answers_nothing)
      (opening ∷ [])
      (listing_volumes ∷ opening ∷ []))
started-IsSound_example =
    started-IsSound crypto answering token_env no_file no_json one_url cfg rew names started
      has_token answers_volumes answers_nothing (opening ∷ []) (listing_volumes ∷ opening ∷ [])

-- a request arrives, the signal comes, and the request is answered before `main` returns
abbrev ended : State
ended = record {
  main = Shutdown.returned;
  closer = Shutdown.closed;
  in_flight = 0;
  expired = false;
}

ended_reached : Shutdown.Reach ended
ended_reached =
    Shutdown.next
      (Shutdown.next
        (Shutdown.next
          (Shutdown.next
            (Shutdown.next (Shutdown.next Shutdown.here (Shutdown.arrive refl refl))
              (Shutdown.signal refl))
            (Shutdown.server_closed refl refl))
          (Shutdown.answered 0 refl))
        (Shutdown.drained refl refl))
      (Shutdown.finish refl refl)

Reach-drained_example : (ended.expired ≡ true) ⊎ (ended.in_flight ≡ 0)
Reach-drained_example = Reach-drained ended_reached refl
