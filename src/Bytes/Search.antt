-- ===== src/Bytes/Search.antt =====
-- Laws of `index` and `has_prefix`.
use px_smt_multirealm_shim.Common.{
  ℕ, suc, ◌+◌, ◌≡◌, ◌≢◌, refl, true, some, [], ◌∷◌, ◌++◌, arith, length, drop, All,
}
use px_smt_multirealm_shim.Bytes.{Bytes, codes, same, same_iff, has_prefix, index}

pub same_refl : (s : Bytes) → same s s ≡ true
same_refl s = (same_iff s s).1 refl

pub has_prefix-append : (p s : Bytes) → has_prefix (p ++ s) p ≡ true
unfolding has_prefix
has_prefix-append [] [] = refl
has_prefix-append [] (c ∷ s) = refl
has_prefix-append (c ∷ p) s = ground (arith, has_prefix-append p s)

abbrev pub colon : ℕ
colon = b':'

-- Without a colon in front, the first "::" is found where it stands.
pub index-separator :
    (realm after : Bytes)
    → All (λ c. c ≢ colon) realm
    → index (realm ++ codes "::" ++ after) (codes "::") ≡ some (length realm)
unfolding index has_prefix
index-separator [] after h = ground arith
index-separator (c ∷ realm) after (hc, h) = ground (arith, index-separator realm after h)

pub drop-separator :
    (realm after : Bytes) → drop (length realm + 2) (realm ++ codes "::" ++ after) ≡ after
drop-separator realm after =
    let e : length realm + 2 ≡ suc (suc (length realm)) = omega arith in rw e (skip realm)
  where
    skip : (r : Bytes) → drop (suc (suc (length r))) (r ++ codes "::" ++ after) ≡ after
    skip [] = refl
    skip (c ∷ r) = skip r
