-- ===== src/Rewriter/Resolve.antt =====
-- Which mapping a realm host resolves to, and how far that depends on the order of the map.
use mathlib.Core.List.{Permᴰ}
use px_smt_multirealm_shim.Common.{
  ◌≡◌, ◌≢◌, refl, ◌∙◌, Bool, true, false, ◌||◌, none, some, [], ◌∷◌, ◌++◌, arith, All,
  if◌then◌else◌, take-append, append_assoc,
}
use px_smt_multirealm_shim.Bytes.{Bytes, codes, same}
use px_smt_multirealm_shim.Bytes.Assoc.{Assoc, lookup, lookup-insert}
use px_smt_multirealm_shim.Bytes.Search.{has_prefix-append, colon, index-separator, drop-separator}
use px_smt_multirealm_shim.Config.{HostMapping}
use px_smt_multirealm_shim.Rewriter.{
  Rewriter, Shim, realm_sep, matches, first_match, resolve, realm_of, is_double_prefixed,
  learn_realm_host,
}

-- a name within a realm
abbrev pub in_realm : Bytes → Bytes → Bytes
in_realm realm after = realm ++ realm_sep ++ after

abbrev pub NoColon : Bytes → Type 0
NoColon = All (λ c. c ≢ colon)

-- every entry that matches leads to the one mapping
abbrev pub IsUnambiguous : Bytes → HostMapping → Assoc HostMapping → Type 0
IsUnambiguous after h = All (λ (e : Bytes × HostMapping). matches after e.0 e.1 ≡ true → e.1 ≡ h)

any_match : Bytes → Assoc HostMapping → Bool
any_match after [] = false
any_match after ((node, h) ∷ m) = matches after node h || any_match after m

any_match-perm :
    (after : Bytes) {m m' : Assoc HostMapping} → Permᴰ m m' → any_match after m ≡ any_match after m'
unfolding any_match
any_match-perm after Permᴰ.nil = refl
any_match-perm after (Permᴰ.cons e p) = rw (e, any_match-perm after p)
any_match-perm after (Permᴰ.swap e f) = rw (e, f) (ground arith)
any_match-perm after (Permᴰ.trans p q) = any_match-perm after p ∙ any_match-perm after q

first_match-any :
    (after : Bytes) (h : HostMapping) (m : Assoc HostMapping)
    → IsUnambiguous after h m
    → first_match after m ≡ (if any_match after m then some h else none)
unfolding first_match any_match
first_match-any after h [] u = refl
first_match-any after h ((node, k) ∷ m) (uk, u) = ground (arith, first_match-any after h m u)

-- A name of the realm is resolved by what stands behind the separator.
pub resolve-in_realm :
    (realm after : Bytes) (m : Assoc HostMapping)
    → NoColon realm
    → resolve m (in_realm realm after) ≡ first_match after m
unfolding resolve
resolve-in_realm realm after m h =
    rw (index-separator realm after h, drop-separator realm after, resolve)

realm_of-in_realm : (realm after : Bytes) → NoColon realm → realm_of (in_realm realm after) ≡ realm
unfolding realm_of
realm_of-in_realm realm after h =
    rw (index-separator realm after h, realm_of)
      (rw append_assoc (take-append realm (realm_sep ++ after)))

-- Where a name of the realm is unambiguous, the order of the map does not matter.
pub resolve-perm :
    (realm after : Bytes) (h : HostMapping) (m m' : Assoc HostMapping)
    → NoColon realm
    → IsUnambiguous after h m
    → IsUnambiguous after h m'
    → Permᴰ m m'
    → resolve m (in_realm realm after) ≡ resolve m' (in_realm realm after)
resolve-perm realm after h m m' hr u u' p = rw (
  resolve-in_realm realm after m hr,
  resolve-in_realm realm after m' hr,
  first_match-any after h m u,
  first_match-any after h m' u',
  any_match-perm after p,
)

-- the name of a node that extends another by a dash
abbrev pub extended : Bytes → Bytes → Bytes
extended node more = node ++ codes "-" ++ more

matches-extended :
    (node suffix : Bytes) (h : HostMapping) → matches (extended node suffix) node h ≡ true
unfolding matches
matches-extended node suffix h = rw (has_prefix-append (node ++ codes "-") suffix) (ground arith)

extended-extended :
    (node more suffix : Bytes)
    → extended (extended node more) suffix ≡ extended node (extended more suffix)
extended-extended node more suffix = simp append_assoc

-- With a node "a" and a node "a-b" in the map, a host of "a-b" goes to whichever of the two the map
-- iteration visits first.
pub resolve_order_dependent :
    (realm node more suffix : Bytes) (h h' : HostMapping)
    → NoColon realm
    → (resolve
          ((node, h) ∷ (extended node more, h') ∷ [])
          (in_realm realm (extended (extended node more) suffix))
        ≡ some h)
      × (resolve
            ((extended node more, h') ∷ (node, h) ∷ [])
            (in_realm realm (extended (extended node more) suffix))
          ≡ some h')
unfolding first_match
resolve_order_dependent realm node more suffix h h' hr = (
  rw (
    resolve-in_realm realm (extended (extended node more) suffix) _ hr,
    extended-extended node more suffix,
    matches-extended node (extended more suffix) h,
  ),
  rw (
    resolve-in_realm realm (extended (extended node more) suffix) _ hr,
    matches-extended (extended node more) suffix h',
  ),
)

-- px's own name for a node becomes the name that its array host maps back to; the double-prefixed
-- name, which holds the array host itself, is not learned. Names of other array hosts stay.
pub learn-in_realm :
    (rw : Rewriter) (realm after k : Bytes) (hm : HostMapping) (st : Shim)
    → NoColon realm
    → resolve rw.by_node (in_realm realm after) ≡ some hm
    → lookup k (learn_realm_host rw (in_realm realm after) st).by_array_host ≡ (
        if same after hm.array_host
        then lookup k st.by_array_host
        else if same hm.array_host k
        then some (in_realm realm after)
        else lookup k st.by_array_host)
unfolding learn_realm_host is_double_prefixed
learn-in_realm rew realm after k hm st hr e =
    rw (e, learn_realm_host)
      (rw (index-separator realm after hr, drop-separator realm after, is_double_prefixed)
        (ground (arith, lookup-insert hm.array_host k (in_realm realm after) st.by_array_host)))
