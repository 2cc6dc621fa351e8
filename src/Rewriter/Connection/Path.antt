-- ===== src/Rewriter/Connection/Path.antt =====
-- The query that goes to the array instead of px's.
use px_smt_multirealm_shim.Common.{◌≡◌, refl, false, [], ◌∷◌, ◌++◌, arith, if◌then◌else◌}
use px_smt_multirealm_shim.Bytes.{Bytes, codes, same, same_iff}
use px_smt_multirealm_shim.Http.{Request}
use px_smt_multirealm_shim.Url.{Values, parse_query, query_get, query_del, query_set, encode}
use px_smt_multirealm_shim.Url.RoundTrip.{AreBytes, AreBytePairs, get-parse-encode}
use px_smt_multirealm_shim.Config.{HostMapping}
use px_smt_multirealm_shim.Rewriter.Connection.{connection_path}

get-del :
    (q : Values) (k x : Bytes) → same k x ≡ false → query_get (query_del q k) x ≡ query_get q x
unfolding query_get query_del
get-del [] k x h = refl
get-del ((j, w) ∷ q) k x h =
    ground (arith, get-del q k x h, same_iff j k, same_iff j x, same_iff k x)

get-set :
    (q : Values) (k v x : Bytes)
    → query_get (query_set q k v) x ≡ (if same k x then v else query_get q x)
unfolding query_get query_set
get-set q k v x = ground (arith, get-del q k x)

del-All : (q : Values) (k : Bytes) → AreBytePairs q → AreBytePairs (query_del q k)
unfolding query_del
del-All [] k h = tt
del-All ((j, w) ∷ q) k (hj, h) = ground (arith, del-All q k)

set-All :
    (q : Values) (v : Bytes)
    → AreBytePairs q
    → AreBytes v
    → AreBytePairs (query_set q (codes "host_names") v)
unfolding query_set
set-All q v hq hv = ((omega arith, hv), del-All q (codes "host_names") hq)

-- The path of the call is px's, and its query names the array host; every other key has the first
-- value that px gave it.
pub connection_path_query :
    (r : Request) (hm : HostMapping) (k : Bytes)
    → AreBytePairs (parse_query r.raw_query)
    → AreBytes hm.array_host
    → (query : Bytes) × (connection_path r hm ≡ r.path ++ b'?' ∷ query)
      × (query_get (parse_query query) k ≡ (
          if same (codes "host_names") k
          then hm.array_host
          else query_get (parse_query r.raw_query) k))
unfolding connection_path
connection_path_query r hm k hq hh = (
  encode (query_set (parse_query r.raw_query) (codes "host_names") hm.array_host),
  refl,
  rw (
    get-parse-encode (query_set (parse_query r.raw_query) (codes "host_names") hm.array_host) k
        (set-All (parse_query r.raw_query) hm.array_host hq hh),
    get-set (parse_query r.raw_query) (codes "host_names") hm.array_host k,
  ),
)
