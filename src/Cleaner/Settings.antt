-- ===== src/Cleaner/Settings.antt =====
-- `loadConfig`: the settings of the cleaner from the environment.
-- `env` is `os.Getenv`: empty for a variable that is not set. Durations are in nanoseconds.
pub mod Usable
use px_smt_multirealm_shim.Common.{
  ℕ, zero, suc, ◌-◌, ◌*◌, ◌%◌, ◌^◌, Bool, ◌||◌, false, [], Option, none, some, ltb, if◌then◌else◌,
}
use px_smt_multirealm_shim.Bytes.{Bytes, codes, same}
use px_smt_multirealm_shim.Bytes.Number.{ℤ, pos, negsuc, atoi}
use px_smt_multirealm_shim.Cleaner.{Config}

-- `config`; the fields of a scan are in `scan`.
pub record Settings : Type 0 where
  pub poll_every : ℤ
  pub heartbeat : ℤ
  pub scan : Config
  pub node_name : Bytes

-- a number of 64 bits, read with its sign
unfoldable pub to_int64 : ℕ → ℤ
to_int64 d = if ltb d (2 ^ 63) then pos d else negsuc (2 ^ 64 - 1 - d)

-- `time.Duration(n) * time.Second`
unfoldable pub seconds : ℕ → ℤ
unfolding to_int64
seconds n = to_int64 ((n * 1000000000) % 2 ^ 64)

unfoldable pub seconds_or : ℤ → Option ℤ → ℤ
unfolding seconds
seconds_or default (some (pos (suc n))) = seconds (suc n)
seconds_or default _ = default

-- A setting in seconds: the default, unless the variable holds a positive number.
unfoldable pub duration_of : ℤ → Bytes → ℤ
unfolding seconds_or atoi same
duration_of default v = if same v [] then default else seconds_or default (atoi v)

unfoldable pub count_or : ℕ → Option ℤ → ℕ
count_or default (some (pos (suc n))) = suc n
count_or default _ = default

unfoldable pub polls_of : ℕ → Bytes → ℕ
unfolding count_or atoi same
polls_of default v = if same v [] then default else count_or default (atoi v)

unfoldable pub text_or : Bytes → Bytes → Bytes
unfolding same
text_or default v = if same v [] then default else v

unfoldable pub is_on : Bytes → Bool
unfolding same
is_on v = same v (codes "true") || same v (codes "1")

unfoldable pub load_config : (Bytes → Bytes) → Settings
unfolding duration_of polls_of text_or is_on
load_config env = record {
  poll_every = duration_of (pos 8000000000) (env (codes "FADA_POLL_SECONDS"));
  heartbeat = duration_of (pos 300000000000) (env (codes "FADA_HEARTBEAT_SECONDS"));
  scan = record {
    grace_polls = polls_of 2 (env (codes "FADA_GRACE_POLLS"));
    vendor = text_or (codes "PURE") (env (codes "FADA_VENDOR"));
    dry_run = is_on (env (codes "FADA_DRY_RUN"));
  };
  node_name = env (codes "NODE_NAME");
}
