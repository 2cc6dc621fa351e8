-- ===== src/Proxy/Log/Headers/Order.antt =====
-- The lines do not depend on the order in which Go visits the map.
use mathlib.Core.List.{Permᴰ}
use px_smt_multirealm_shim.Common.{◌≡◌, refl, ◌∙◌, true, false, ◌⊎◌, inl, inr, List, [], ◌∷◌, arith}
use px_smt_multirealm_shim.Bytes.{Bytes}
use px_smt_multirealm_shim.Json.{lt_bytes}
use px_smt_multirealm_shim.Proxy.Log.Headers.{insert_key, sort_keys, log_headers}

-- of two different keys exactly one is the lesser
lt_trichotomy :
    (s t : Bytes)
    → (s ≡ t)
      ⊎ ((lt_bytes s t ≡ true) × (lt_bytes t s ≡ false))
      ⊎ ((lt_bytes s t ≡ false) × (lt_bytes t s ≡ true))
unfolding lt_bytes
lt_trichotomy [] [] = inl refl
lt_trichotomy [] (d ∷ t) = inr (inl (refl, refl))
lt_trichotomy (c ∷ s) [] = inr (inr (refl, refl))
lt_trichotomy (c ∷ s) (d ∷ t) = ground (arith, lt_trichotomy s t)

-- what is not greater than the lesser of two is less than the other
lt_trans : (j a b : Bytes) → lt_bytes j a ≡ true → lt_bytes j b ≡ false → lt_bytes b a ≡ true
unfolding lt_bytes
lt_trans [] [] b h k = ground (arith, h)
lt_trans [] (c ∷ a) [] h k = refl
lt_trans [] (c ∷ a) (d ∷ b) h k = ground (arith, k)
lt_trans (e ∷ j) [] b h k = ground (arith, h)
lt_trans (e ∷ j) (c ∷ a) [] h k = refl
lt_trans (e ∷ j) (c ∷ a) (d ∷ b) h k = ground (arith, h, k, lt_trans j a b)

insert_comm :
    (a b : Bytes) (ks : List Bytes)
    → insert_key a (insert_key b ks) ≡ insert_key b (insert_key a ks)
unfolding insert_key
insert_comm a b [] = ground (arith, lt_trichotomy a b)
insert_comm a b (j ∷ ks) =
    ground (arith, lt_trichotomy a b, lt_trans j a b, lt_trans j b a, insert_comm a b ks)

sort-perm : {ks ls : List Bytes} → Permᴰ ks ls → sort_keys ks ≡ sort_keys ls
unfolding sort_keys
sort-perm Permᴰ.nil = refl
sort-perm (Permᴰ.cons e p) = rw (e, sort-perm p) refl
sort-perm (Permᴰ.swap {a' = a'} {b'} {l} e f) = rw (e, f) (insert_comm b' a' (sort_keys l))
sort-perm (Permᴰ.trans p q) = sort-perm p ∙ sort-perm q

-- Two orders of one set of keys give the same lines.
pub log_headers-perm :
    (id dir : Bytes) (values : Bytes → List Bytes) {ks ls : List Bytes}
    → Permᴰ ks ls
    → log_headers id dir (record { keys = ks; values = values })
      ≡ log_headers id dir (record { keys = ls; values = values })
unfolding log_headers
log_headers-perm id dir values p = rw (sort-perm p) refl
