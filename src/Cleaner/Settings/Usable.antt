-- ===== src/Cleaner/Settings/Usable.antt =====
-- What holds of the settings in every environment, and where a duration wraps around.
use px_smt_multirealm_shim.Common.{
  ℕ, zero, suc, ◌-◌, ◌*◌, ◌^◌, ◌<◌, ◌≤◌, ◌≡◌, ◌≢◌, refl, Option, none, some, [], arith,
}
use px_smt_multirealm_shim.Bytes.{Bytes, codes, same_iff}
use px_smt_multirealm_shim.Bytes.Number.{ℤ, pos, negsuc, atoi}
use px_smt_multirealm_shim.Cleaner.Settings.{
  to_int64, seconds, seconds_or, duration_of, count_or, polls_of, text_or, load_config,
}

count_or_positive : (d : ℕ) (n : Option ℤ) → 1 ≤ d → 1 ≤ count_or d n
unfolding count_or
count_or_positive d none h = h
count_or_positive d (some (pos zero)) h = h
count_or_positive d (some (pos (suc n))) h = omega arith
count_or_positive d (some (negsuc n)) h = h

atoi_empty : atoi [] ≡ none
unfolding atoi
atoi_empty = refl

-- Whatever the environment holds, the grace is at least one poll, and the vendor is not empty, which
-- would match the maps of every vendor.
pub load_config_usable :
    (env : Bytes → Bytes)
    → (1 ≤ (load_config env).scan.grace_polls) × ((load_config env).scan.vendor ≢ [])
unfolding load_config polls_of text_or
load_config_usable env =
    let grace = env (codes "FADA_GRACE_POLLS") in
    let vendor = env (codes "FADA_VENDOR") in
    (
      ground (arith, count_or_positive 2 (atoi grace) (omega arith)),
      λ e. ground (arith, same_iff vendor []),
    )

-- A poll interval of more seconds than a duration can hold, and less than twice as many, becomes a
-- negative duration.
pub load_config_wraps :
    (env : Bytes → Bytes) (n : ℕ)
    → atoi (env (codes "FADA_POLL_SECONDS")) ≡ some (pos n)
    → 9223372036 < n
    → n < 18446744074
    → (load_config env).poll_every ≡ negsuc (2 ^ 64 - 1 - n * 1000000000)
unfolding load_config duration_of seconds_or seconds to_int64
load_config_wraps env zero h lo hi = absurd (omega arith)
load_config_wraps env (suc n) h lo hi =
    let v = env (codes "FADA_POLL_SECONDS") in ground (arith, same_iff v [], atoi_empty)
