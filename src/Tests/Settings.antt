-- ===== src/Tests/Settings.antt =====
-- The settings of both programs at concrete environments.
use px_smt_multirealm_shim.Common.{◌-◌, ◌*◌, ◌^◌, ◌≡◌, refl, Option, none, some, [], arith}
use px_smt_multirealm_shim.Bytes.{Bytes, codes}
use px_smt_multirealm_shim.Bytes.Number.{pos, negsuc, atoi}
use px_smt_multirealm_shim.Json.{Json}
use px_smt_multirealm_shim.Config.Env.{Url, loaded, configure, from_env}
use px_smt_multirealm_shim.Cleaner.Settings.{load_config}
use px_smt_multirealm_shim.Cleaner.Settings.Usable.{load_config_wraps}

abbrev no_env : Bytes → Bytes
no_env k = []

abbrev pub no_file : Bytes → Option Bytes
no_file path = none

abbrev pub no_json : Bytes → Option Json
no_json s = none

abbrev pub default_url : Url
default_url = record {
  text = codes "https://flasharray.example";
  scheme = codes "https";
  host = codes "flasharray.example";
}

abbrev pub one_url : Bytes → Option Url
one_url s = some default_url

configured :
    from_env no_env no_file no_json one_url
    ≡ loaded (configure no_env no_file no_json one_url [] default_url)
unfolding from_env
configured = refl

-- the same large number in every variable
abbrev large_env : Bytes → Bytes
large_env k = codes "9223372037"

large_number : atoi (large_env (codes "FADA_POLL_SECONDS")) ≡ some (pos 9223372037)
unfolding atoi
large_number = refl

load_config_wraps_example :
    (load_config large_env).poll_every ≡ negsuc (2 ^ 64 - 1 - 9223372037 * 1000000000)
load_config_wraps_example =
    load_config_wraps large_env 9223372037 large_number (omega arith) (omega arith)
