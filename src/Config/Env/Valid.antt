-- ===== src/Config/Env/Valid.antt =====
-- What holds of every configuration that `FromEnv` returns.
use px_smt_multirealm_shim.Common.{
  ◌≡◌, ◌≢◌, ◌⊎◌, inl, inr, refl, subst, true, false, Option, some, List, [], ◌∷◌, arith, All,
}
use px_smt_multirealm_shim.Bytes.{Bytes, codes, same, same_iff}
use px_smt_multirealm_shim.Bytes.Split.{trim_space, split}
use px_smt_multirealm_shim.Json.{Json}
use px_smt_multirealm_shim.Config.{
  HostMapping, is_control, sanitize_api_token, keep_trimmed, split_csv,
}
use px_smt_multirealm_shim.Config.Env.{
  Url, Config, EnvError, Loaded, loaded, failed, load_hosts, load_url, configure, from_env,
  env_default, env_bool,
}

-- no byte that net/http would refuse in a header
abbrev pub IsClean : Bytes → Type 0
IsClean = All (λ c. is_control c ≡ false)

sanitize_api_token-IsClean : (s : Bytes) → IsClean (sanitize_api_token s)
unfolding sanitize_api_token
sanitize_api_token-IsClean [] = tt
sanitize_api_token-IsClean (c ∷ s) = ground (arith, sanitize_api_token-IsClean s)

keep_trimmed-All : (ps : List Bytes) → All (λ p. p ≢ []) (keep_trimmed ps)
unfolding keep_trimmed
keep_trimmed-All [] = tt
keep_trimmed-All (p ∷ ps) = ground (arith, keep_trimmed-All ps, same_iff (trim_space p) [])

pub load_cases :
    {A : Type 0} (l : Loaded A) → ((e : EnvError) × (l ≡ failed e)) ⊎ ((x : A) × (l ≡ loaded x))
load_cases (failed e) = inl (e, refl)
load_cases (loaded x) = inr (x, refl)

failed_not_loaded : {A : Type 0} {e : EnvError} {x : A} → failed e ≡ loaded x → ⊥
failed_not_loaded h = ground (arith, h)

loaded_injective : {A : Type 0} {x y : A} → loaded x ≡ loaded y → x ≡ y
loaded_injective h = cc

-- The upstream URL is absolute, the token is clean, and no name of the certificate is empty.
pub record IsValid (c : Config) : Type 0 where
  pub absolute : (c.upstream_url.scheme ≢ []) × (c.upstream_url.host ≢ [])
  pub clean : IsClean c.array_token
  pub named : All (λ s. s ≢ []) c.cert_sans

module _ (env : Bytes → Bytes) (read_file : Bytes → Option Bytes) (unmarshal : Bytes → Option Json)
    (parse_url : Bytes → Option Url) where
  load_url_absolute :
      (u : Url)
      → load_url env read_file unmarshal parse_url ≡ loaded u
      → (u.scheme ≢ []) × (u.host ≢ [])
  unfolding load_url
  load_url_absolute u h = ground (arith, same_iff u.scheme [], same_iff u.host [])

  configure-IsValid :
      (hosts : List HostMapping) (u : Url)
      → (u.scheme ≢ []) × (u.host ≢ [])
      → IsValid (configure env read_file unmarshal parse_url hosts u)
  unfolding configure split_csv
  configure-IsValid hosts u h = record {
    absolute = h;
    clean = sanitize_api_token-IsClean (env (codes "SHIM_ARRAY_TOKEN"));
    named = keep_trimmed-All (split (env (codes "SHIM_CERT_SANS")) b',');
  }

  -- Every configuration that is returned has an absolute upstream URL, a token without a byte that
  -- net/http refuses in a header, and no empty name for the certificate.
  pub from_env-IsValid :
      (c : Config) → from_env env read_file unmarshal parse_url ≡ loaded c → IsValid c
  unfolding from_env
  from_env-IsValid c h = elim (load_cases (load_hosts env read_file unmarshal parse_url)) [
    | inl (e, he) ↦ absurd (failed_not_loaded (rw (from_env, he) at h))
    | inr (hosts, hh) ↦ elim (load_cases (load_url env read_file unmarshal parse_url)) [
      | inl (e, he) ↦ absurd (failed_not_loaded (rw (from_env, hh, he) at h))
      | inr (u, hu) ↦
          let made : configure env read_file unmarshal parse_url hosts u ≡ c =
            loaded_injective (rw (from_env, hh, hu) at h) in
          subst IsValid made (configure-IsValid hosts u (load_url_absolute u hu))
    ]
  ]

  no_hosts :
      env (codes "SHIM_CONFIG_FILE") ≡ [] → load_hosts env read_file unmarshal parse_url ≡ loaded []
  unfolding load_hosts same
  no_hosts h = rw h refl

  load_url_default :
      (u : Url)
      → env (codes "SHIM_UPSTREAM_URL") ≡ []
      → parse_url (codes "https://flasharray.example") ≡ some u
      → u.scheme ≢ []
      → u.host ≢ []
      → load_url env read_file unmarshal parse_url ≡ loaded u
  unfolding load_url env_default same
  load_url_default u h hp hs hh =
      rw (load_url, h) (rw hp (ground (arith, same_iff u.scheme [], same_iff u.host [])))

  -- In an empty environment, where the default URL can be parsed and is absolute, the shim gets the
  -- documented defaults: port 9443, both rewrites on, no token and no hosts.
  pub from_env_defaults :
      (u : Url)
      → ((k : Bytes) → env k ≡ [])
      → parse_url (codes "https://flasharray.example") ≡ some u
      → u.scheme ≢ []
      → u.host ≢ []
      → (c : Config) × (from_env env read_file unmarshal parse_url ≡ loaded c)
        × (c.listen_addr ≡ codes ":9443")
        × (c.rewrite_enabled ≡ true)
        × (c.array_identity ≡ true)
        × (c.array_token ≡ [])
        × (c.hosts ≡ [])
  unfolding from_env configure env_default env_bool same sanitize_api_token
  from_env_defaults u he hp hs hh = (
    configure env read_file unmarshal parse_url [] u,
    rw
        (
          from_env,
          no_hosts (he (codes "SHIM_CONFIG_FILE")),
          load_url_default u (he (codes "SHIM_UPSTREAM_URL")) hp hs hh,
        )
        refl,
    rw (he (codes "SHIM_LISTEN_ADDR")) refl,
    rw (he (codes "SHIM_REWRITE")) refl,
    rw (he (codes "SHIM_ARRAY_IDENTITY")) refl,
    rw (he (codes "SHIM_ARRAY_TOKEN")) refl,
    refl,
  )
