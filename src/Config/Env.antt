-- ===== src/Config/Env.antt =====
-- internal/config/config.go: `FromEnv`, the configuration of the shim from its environment.
-- Parameters: `env` is `os.Getenv`, empty for a variable that is not set; `read_file` is `os.ReadFile`,
-- `unmarshal` the parser of JSON texts and `parse_url` is `url.Parse`, each none for an error.
pub mod Valid
use px_smt_multirealm_shim.Common.{
  ℕ, Bool, true, false, ◌||◌, Option, none, some, List, [], ◌∷◌, any, if◌then◌else◌,
}
use px_smt_multirealm_shim.Bytes.{Bytes, codes, same}
use px_smt_multirealm_shim.Bytes.Number.{ℤ, pos, atoi}
use px_smt_multirealm_shim.Json.{Json, Fields}
use px_smt_multirealm_shim.Json.Decode.{members, decode_field, decode_string, decode_slice}
use px_smt_multirealm_shim.Config.{HostMapping, split_csv, sanitize_api_token}

-- the parts of a `url.URL` that the program reads
pub record Url : Type 0 where
  pub text : Bytes
  pub scheme : Bytes
  pub host : Bytes

pub record Config : Type 0 where
  pub listen_addr : Bytes
  pub upstream_url : Url
  pub upstream_host : Bytes
  pub insecure_upstream : Bool
  pub log_bodies : Bool
  pub max_log_body_bytes : ℤ
  pub cert_file : Bytes
  pub key_file : Bytes
  pub cert_sans : List Bytes
  pub rewrite_enabled : Bool
  pub array_identity : Bool
  pub array_token : Bytes
  pub hosts : List HostMapping

-- the errors that `FromEnv` returns, and its result
pub data EnvError : Type 0 where
  file_unreadable file_malformed url_malformed url_relative : EnvError

pub data Loaded (A : Type 0) : Type 0 where
  loaded : A → Loaded A
  failed : EnvError → Loaded A

unfoldable pub env_default : Bytes → Bytes → Bytes
unfolding same
env_default v default = if same v [] then default else v

-- `strconv.ParseBool`
unfoldable pub parse_bool : Bytes → Option Bool
unfolding same
parse_bool v =
    if any (same v)
      (codes "1" ∷ codes "t" ∷ codes "T" ∷ codes "true" ∷ codes "TRUE" ∷ codes "True" ∷ [])
    then some true
    else if any (same v)
        (codes "0" ∷ codes "f" ∷ codes "F" ∷ codes "false" ∷ codes "FALSE" ∷ codes "False" ∷ [])
    then some false
    else none

-- the value where it can be read
unfoldable pub value_or : {A : Type 0} → A → Option A → A
value_or default none = default
value_or default (some x) = x

unfoldable pub env_bool : Bytes → Bool → Bool
unfolding same parse_bool value_or
env_bool v default = if same v [] then default else value_or default (parse_bool v)

unfoldable pub env_int : Bytes → ℤ → ℤ
unfolding same atoi value_or
env_int v default = if same v [] then default else value_or default (atoi v)

-- One string of an object, "" if it is absent; keys are compared in lower case.
unfoldable pub with_string : {A : Type 0} → Bytes → Fields → (Bytes → Option A) → Option A
unfolding decode_field decode_string
with_string key fs k = elim (decode_field decode_string key fs []) [ none ↦ none | some s ↦ k s ]

unfoldable pub decode_host_fields : Fields → Option HostMapping
unfolding with_string
decode_host_fields fs = with_string (codes "node") fs λ node.
    with_string (codes "arrayhost") fs λ array_host. with_string (codes "iqns") fs λ iqns.
      with_string (codes "wwns") fs λ wwns. with_string (codes "nqns") fs λ nqns.
        with_string (codes "iqn") fs λ legacy_iqn. some (record {
          node = node;
          array_host = array_host;
          iqns = iqns;
          wwns = wwns;
          nqns = nqns;
          legacy_iqn = legacy_iqn;
        })

unfoldable pub decode_host : Json → Option HostMapping
unfolding members decode_host_fields
decode_host v = elim (members v) [ none ↦ none | some fs ↦ decode_host_fields fs ]

-- `json.Unmarshal` into `shimFile`
unfoldable pub decode_file : Option Json → Option (List HostMapping)
unfolding members decode_field decode_slice decode_host
decode_file none = none
decode_file (some v) = elim (members v) [
  | none ↦ none
  | some fs ↦ decode_field (decode_slice decode_host) (codes "hosts") fs []
]

module _ (env : Bytes → Bytes) (read_file : Bytes → Option Bytes) (unmarshal : Bytes → Option Json)
    (parse_url : Bytes → Option Url) where
  -- the hosts of the file, if there is one
  unfoldable pub load_hosts : Loaded (List HostMapping)
  unfolding same decode_file
  load_hosts =
      let path = env (codes "SHIM_CONFIG_FILE") in
      if same path [] then loaded [] else elim (read_file path) [
        | none ↦ failed file_unreadable
        | some raw ↦ elim (decode_file (unmarshal raw)) [
          | none ↦ failed file_malformed
          | some hosts ↦ loaded hosts
        ]
      ]

  unfoldable pub load_url : Loaded Url
  unfolding same env_default
  load_url =
      elim (parse_url
        (env_default (env (codes "SHIM_UPSTREAM_URL")) (codes "https://flasharray.example"))) [
          | none ↦ failed url_malformed
          | some u ↦ if same u.scheme [] || same u.host [] then failed url_relative else loaded u
        ]

  unfoldable pub configure : List HostMapping → Url → Config
  unfolding env_default env_bool env_int sanitize_api_token split_csv
  configure hosts u = record {
    listen_addr = env_default (env (codes "SHIM_LISTEN_ADDR")) (codes ":9443");
    upstream_url = u;
    upstream_host = env (codes "SHIM_UPSTREAM_HOST");
    insecure_upstream = env_bool (env (codes "SHIM_UPSTREAM_INSECURE")) true;
    log_bodies = env_bool (env (codes "SHIM_LOG_BODIES")) true;
    max_log_body_bytes = env_int (env (codes "SHIM_MAX_LOG_BODY")) (pos 65536);
    cert_file = env (codes "SHIM_CERT_FILE");
    key_file = env (codes "SHIM_KEY_FILE");
    cert_sans = split_csv (env (codes "SHIM_CERT_SANS"));
    rewrite_enabled = env_bool (env (codes "SHIM_REWRITE")) true;
    array_identity = env_bool (env (codes "SHIM_ARRAY_IDENTITY")) true;
    array_token = sanitize_api_token (env (codes "SHIM_ARRAY_TOKEN"));
    hosts = hosts;
  }

  -- `FromEnv`: the file is read first, then the URL.
  unfoldable pub from_env : Loaded Config
  unfolding load_hosts load_url configure
  from_env = elim load_hosts [
    | failed e ↦ failed e
    | loaded hosts ↦ elim load_url [ failed e ↦ failed e | loaded u ↦ loaded (configure hosts u) ]
  ]
