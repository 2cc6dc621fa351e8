-- ===== src/Tests/Responses.antt =====
-- Responses and whole requests at concrete inputs.
use mathlib.Core.List.{Permᴰ}
use px_smt_multirealm_shim.Common.{◌≡◌, refl, false, Option, some, List, [], ◌∷◌, arith}
use px_smt_multirealm_shim.Bytes.{Bytes, codes, same, has_suffix}
use px_smt_multirealm_shim.Bytes.Assoc.{Assoc}
use px_smt_multirealm_shim.Bytes.Quoted.{Piece, render}
use px_smt_multirealm_shim.Json.{Json, null, str, arr, obj, Items, cons, nil, Fields, field, end}
use px_smt_multirealm_shim.Config.{HostMapping}
use px_smt_multirealm_shim.Http.{Request, full, broken}
use px_smt_multirealm_shim.Rewriter.{
  Rewriter, learn_realm_host, resolve, matches, is_double_prefixed,
}
use px_smt_multirealm_shim.Rewriter.Response.{map_conn_hosts_back}
use px_smt_multirealm_shim.Rewriter.Response.MapBack.{rename_all, ArePlain, map_back-render}
use px_smt_multirealm_shim.Proxy.{handle, fresh, serve, Arrival}
use px_smt_multirealm_shim.Proxy.Transparent.{IsUnchanged, handle-IsUnchanged}
use px_smt_multirealm_shim.Proxy.Invariant.{IsSound}
use px_smt_multirealm_shim.Proxy.Serving.{serve-IsSound}
use px_smt_multirealm_shim.Proxy.Learned.{IsLearned, serve-IsLearned}
use px_smt_multirealm_shim.Tests.Data.{
  volumes_response, array_a, rewriter_a, px_name, create, list_volumes, upstream_a, parse_nothing,
  host_a, arrival, answers_volumes, answers_nothing,
}

-- a second host, and both orders of the two
abbrev host_d : HostMapping
host_d = record host_a { node = codes "n2"; array_host = codes "n2-arr" }

abbrev two_hosts : Rewriter
two_hosts = record rewriter_a { by_node = (codes "n1", host_a) ∷ (codes "n2", host_d) ∷ [] }

abbrev turned_hosts : Assoc HostMapping
turned_hosts = (codes "n2", host_d) ∷ (codes "n1", host_a) ∷ []

-- the body of the second breaks off, and at the third the hosts are visited in the other order
abbrev three_requests : List Arrival
three_requests =
    arrival two_hosts.by_node answers_volumes create (full (codes "{}"))
    ∷ arrival two_hosts.by_node answers_nothing list_volumes (broken (codes ""))
    ∷ arrival turned_hosts answers_nothing create (full (codes "{}"))
    ∷ []

as_listed : Permᴰ two_hosts.by_node two_hosts.by_node
as_listed = Permᴰ.cons refl (Permᴰ.cons refl Permᴰ.nil)

serve-IsSound_example :
    IsSound array_a (serve parse_nothing two_hosts upstream_a three_requests fresh)
serve-IsSound_example =
    serve-IsSound parse_nothing two_hosts array_a refl upstream_a three_requests fresh
      (record { truthful = tt; authenticated = tt })

serve-IsLearned_example :
    IsLearned two_hosts.by_node (serve parse_nothing two_hosts upstream_a three_requests fresh)
serve-IsLearned_example =
    serve-IsLearned parse_nothing two_hosts upstream_a three_requests fresh
      (as_listed, (as_listed, (Permᴰ.swap refl refl, tt))) tt

one_learned :
    (learn_realm_host rewriter_a px_name fresh).by_array_host ≡ (codes "n1-arr", px_name) ∷ []
unfolding learn_realm_host same resolve matches is_double_prefixed
one_learned = refl

abbrev disabled : Rewriter
disabled = record rewriter_a { enabled = false }

not_hosts : has_suffix list_volumes.path (codes "/hosts") ≡ false
unfolding has_suffix
not_hosts = refl

not_connections : has_suffix list_volumes.path (codes "/connections") ≡ false
unfolding has_suffix
not_connections = refl

handle-IsUnchanged_example :
    IsUnchanged
      (some volumes_response)
      (handle parse_nothing rewriter_a upstream_a list_volumes fresh).0
    × ((handle parse_nothing rewriter_a upstream_a list_volumes fresh).1 ≡ fresh)
handle-IsUnchanged_example =
    handle-IsUnchanged parse_nothing rewriter_a upstream_a list_volumes fresh refl not_hosts
      not_connections

abbrev listed : Items
listed =
    cons (obj (field (codes "name") (str px_name) (field (codes "iqns") (arr nil) end)))
      (cons null nil)

abbrev hosts_payload : Fields
hosts_payload = field (codes "items") (arr listed) end

abbrev parse_hosts : Bytes → Option Json
parse_hosts s = some (obj hosts_payload)

abbrev list_hosts : Request
list_hosts = record list_volumes { path = codes "/api/2.4/hosts" }

abbrev learned : Assoc Bytes
learned = (codes "n1-arr", px_name) ∷ []

abbrev listing : List Piece
listing =
    record { gap = codes "[{"; text = codes "n1-arr" }
    ∷ record { gap = codes ","; text = codes "n2-arr" }
    ∷ []

listing-ArePlain : ArePlain listing learned
unfolding same
listing-ArePlain = (
  (
    ground arith,
    ground arith,
    (
      record { gap_plain = ground arith; text_plain = ground arith; gap_differs = refl },
      (record { gap_plain = ground arith; text_plain = ground arith; gap_differs = refl }, tt),
    ),
  ),
  tt,
)

map_back-render_example :
    map_conn_hosts_back learned (render listing (codes "}]"))
    ≡ render (rename_all learned listing) (codes "}]")
map_back-render_example =
    map_back-render learned listing (codes "}]") listing-ArePlain (ground arith)
