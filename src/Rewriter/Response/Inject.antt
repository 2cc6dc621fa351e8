-- ===== src/Rewriter/Response/Inject.antt =====
-- The initiators that GET /hosts shows for px's own hosts.
use px_smt_multirealm_shim.Common.{
  ◌≡◌, refl, Option, none, some, List, [], ◌∷◌, arith, if◌then◌else◌, ◌&&◌, ◌⊎◌, ap,
}
use px_smt_multirealm_shim.Bytes.{Bytes, codes, same, same_iff}
use px_smt_multirealm_shim.Json.{
  Json, str, arr, obj, Items, cons, nil, Fields, field, end, member, set_member, strings, marshal,
}
use px_smt_multirealm_shim.Config.{HostMapping, Initiator, initiators}
use px_smt_multirealm_shim.Rewriter.{Rewriter, resolve}
use px_smt_multirealm_shim.Rewriter.Response.{is_unset, name_of}
use px_smt_multirealm_shim.Http.{Response, Body, full}

pub member-set_member :
    (k j : Bytes) (v : Json) (fs : Fields)
    → member j (set_member k v fs) ≡ (if same k j then some v else member j fs)
unfolding member set_member
member-set_member k j v end = refl
member-set_member k j v (field i w fs) =
    ground (arith, same_iff k j, same_iff i k, same_iff i j, member-set_member k j v fs)

-- a list of texts, each identifier as it is and in their order
abbrev pub identifiers : List Bytes → Items
identifiers [] = nil
identifiers (v ∷ vs) = cons (str v) (identifiers vs)

strings-identifiers : (vs : List Bytes) → strings vs ≡ identifiers vs
unfolding strings
strings-identifiers [] = refl
strings-identifiers (v ∷ vs) = ap (cons (str v)) (strings-identifiers vs)

-- the value that px gets for a field: its own, or, if that is unset, all identifiers of the transport
abbrev pub served_member : List Initiator → Bytes → Option Json → Option Json
served_member [] k v = v
served_member (i ∷ is) k v =
    if same i.field k && is_unset v then some (arr (identifiers i.vals)) else served_member is k v

module _ (rew : Rewriter) where
  -- the value of a field in an object with the name of this host, if any
  abbrev pub served_by : Option HostMapping → Bytes → Option Json → Option Json
  served_by none k v = v
  served_by (some hm) k v = served_member (initiators hm) k v

  -- In an object every field has the value of the description; all else is as it was.
  abbrev pub IsServed : Json → Json → Type 0
  IsServed (obj m) (obj m') =
      (k : Bytes) → member k m' ≡ served_by (resolve rew.by_node (name_of m)) k (member k m)
  IsServed (obj m) _ = ⊥
  IsServed it it' = it' ≡ it

  abbrev pub AreServed : Items → Items → Type 0
  AreServed nil nil = Unit
  AreServed nil (cons _ _) = ⊥
  AreServed (cons it its) nil = ⊥
  AreServed (cons it its) (cons it' its') = IsServed it it' × AreServed its its'

  -- px gets these items: in a body that is written anew, or the array's own body where no item changed
  abbrev pub Gives : Bytes → Fields → Items → Items → Body → Type 0
  Gives b fs its its' body =
      (body ≡ full (marshal (obj (set_member (codes "items") (arr its') fs))))
      ⊎ ((body ≡ full b) × (its' ≡ its))
