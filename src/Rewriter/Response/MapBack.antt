-- ===== src/Rewriter/Response/MapBack.antt =====
-- `mapConnHostsBack` on a listing of connections: px reads its own host names.
use px_smt_multirealm_shim.Common.{
  ◌≡◌, refl, sym, subst, false, some, Bool-cases, inl, inr, List, [], ◌∷◌, map, arith, All,
}
use px_smt_multirealm_shim.Bytes.{Bytes, same, same_iff}
use px_smt_multirealm_shim.Bytes.Assoc.{Assoc, lookup}
use px_smt_multirealm_shim.Bytes.Quoted.{
  NoQuote, Piece, IsPlain, render, rename, replace_all-quoted,
}
use px_smt_multirealm_shim.Rewriter.Response.{map_conn_hosts_back}

-- the names of the map, one renaming after the other
abbrev pub rename_all : Assoc Bytes → List Piece → List Piece
rename_all [] ps = ps
rename_all ((k, v) ∷ m) ps = rename_all m (map (rename k v) ps)

-- no quote in the names, and pieces that are plain for each of them
abbrev pub ArePlain : List Piece → Assoc Bytes → Type 0
ArePlain ps = All (λ (e : Bytes × Bytes). NoQuote e.0 × NoQuote e.1 × All (IsPlain e.0) ps)

pub rename-IsPlain :
    (j k v : Bytes) (ps : List Piece)
    → NoQuote v
    → All (IsPlain j) ps
    → All (IsPlain j) (map (rename k v) ps)
unfolding rename
rename-IsPlain j k v [] hv h = tt
rename-IsPlain j k v (p ∷ ps) hv (hp, h) = (ground arith, rename-IsPlain j k v ps hv h)

rename-ArePlain :
    (k v : Bytes) (ps : List Piece) (m : Assoc Bytes)
    → NoQuote v
    → ArePlain ps m
    → ArePlain (map (rename k v) ps) m
rename-ArePlain k v ps [] hv h = tt
rename-ArePlain k v ps ((j, w) ∷ m) hv ((hj, hw, hp), h) =
    ((hj, hw, rename-IsPlain j k v ps hv hp), rename-ArePlain k v ps m hv h)

-- A listing is changed only in the quoted texts that are array hosts, each to px's name for it.
pub map_back-render :
    (m : Assoc Bytes) (ps : List Piece) (end : Bytes)
    → ArePlain ps m
    → NoQuote end
    → map_conn_hosts_back m (render ps end) ≡ render (rename_all m ps) end
unfolding map_conn_hosts_back
map_back-render [] ps end h he = refl
map_back-render ((k, v) ∷ m) ps end ((hk, hv, hp), h) he =
    rw (replace_all-quoted k v ps end hk hp he)
      (map_back-render m (map (rename k v) ps) end (rename-ArePlain k v ps m hv h) he)

-- no name of px is itself an array host
abbrev pub NoneIs : Bytes → Assoc Bytes → Type 0
NoneIs k = All (λ (e : Bytes × Bytes). same e.1 k ≡ false)

abbrev pub LacksText : Bytes → List Piece → Type 0
LacksText t = All (λ (p : Piece). same p.text t ≡ false)

rename-keeps :
    (t k v : Bytes) (ps : List Piece)
    → same v t ≡ false
    → LacksText t ps
    → LacksText t (map (rename k v) ps)
unfolding rename
rename-keeps t k v [] hv h = tt
rename-keeps t k v (p ∷ ps) hv (hp, h) = (ground arith, rename-keeps t k v ps hv h)

rename_all-keeps :
    (t : Bytes) (m : Assoc Bytes) (ps : List Piece)
    → NoneIs t m
    → LacksText t ps
    → LacksText t (rename_all m ps)
rename_all-keeps t [] ps hm h = h
rename_all-keeps t ((k, v) ∷ m) ps (hv, hm) h =
    rename_all-keeps t m (map (rename k v) ps) hm (rename-keeps t k v ps hv h)

rename-removes :
    (k v : Bytes) (ps : List Piece) → same v k ≡ false → LacksText k (map (rename k v) ps)
unfolding rename
rename-removes k v [] h = tt
rename-removes k v (p ∷ ps) h = (ground arith, rename-removes k v ps h)

-- An array host whose name px has learned is gone from the listing.
pub map_back-LacksText :
    (k v : Bytes) (m : Assoc Bytes) (ps : List Piece)
    → lookup k m ≡ some v
    → NoneIs k m
    → LacksText k (rename_all m ps)
unfolding lookup
map_back-LacksText k v [] ps h hm = cc
map_back-LacksText k v ((j, w) ∷ m) ps h (hw, hm) = elim (Bool-cases (same j k)) [
  | inl e ↦
      let j≡k : j ≡ k = (same_iff j k).0 e in
      rename_all-keeps k m (map (rename j w) ps) hm
        (subst (λ x. LacksText k (map (rename x w) ps)) (sym j≡k) (rename-removes k w ps hw))
  | inr e ↦ map_back-LacksText k v m (map (rename j w) ps) (rw e at h) hm
]
