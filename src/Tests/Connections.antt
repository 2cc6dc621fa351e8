-- ===== src/Tests/Connections.antt =====
-- Connections of px at concrete inputs: the session, the grants, the call and its answer.
use mathlib.Core.List.{Permᴰ}
use px_smt_multirealm_shim.Common.{
  ℕ, ◌≡◌, ◌≢◌, ◌⊎◌, refl, ap, true, false, not, ◌||◌, Option, none, some, List, [], ◌∷◌, ◌++◌, map,
  arith, All, if◌then◌else◌,
}
use px_smt_multirealm_shim.Bytes.{Bytes, codes, same}
use px_smt_multirealm_shim.Bytes.Assoc.{lookup}
use px_smt_multirealm_shim.Bytes.Quoted.{Piece, IsPlain, render, rename}
use px_smt_multirealm_shim.Http.{post, Synth}
use px_smt_multirealm_shim.Url.{parse_query, query_get}
use px_smt_multirealm_shim.Url.RoundTrip.{AreBytePairs}
use px_smt_multirealm_shim.Config.{HostMapping}
use px_smt_multirealm_shim.Array.{Reply, Wire, login_call, issue}
use px_smt_multirealm_shim.Array.Session.{earlier, call_with, issue_answer, issue_unauthorized}
use px_smt_multirealm_shim.Rewriter.{is_realm_host, matches, resolve, realm_of, learn_realm_host}
use px_smt_multirealm_shim.Rewriter.Resolve.{
  in_realm, IsUnambiguous, extended, resolve-perm, resolve_order_dependent, learn-in_realm,
}
use px_smt_multirealm_shim.Rewriter.Grant.{grant_key, has_grant, ensure_realm_access}
use px_smt_multirealm_shim.Rewriter.Grant.Cache.{ensure_once}
use px_smt_multirealm_shim.Rewriter.Connection.{
  is_post, grant_error, upstream_error, is_already_connected, connection_answer, connection_path,
  connection,
}
use px_smt_multirealm_shim.Rewriter.Connection.Calls.{
  host_names, IsForwarded, connection_outcome, connection_grant,
}
use px_smt_multirealm_shim.Rewriter.Connection.Hidden.{LacksText, connection_hides}
use px_smt_multirealm_shim.Rewriter.Connection.Path.{connection_path_query}
use px_smt_multirealm_shim.Proxy.{fresh}
use px_smt_multirealm_shim.Rewriter.Connection.{reissue}
use px_smt_multirealm_shim.Rewriter.Connection.{answer_or_error}
use px_smt_multirealm_shim.Rewriter.Grant.{is_grant_reply}
use px_smt_multirealm_shim.Tests.Data.{
  host_a, agreed, array_a, refusing, rewriter_a, px_name, create,
}

names_mapped : resolve rewriter_a.by_node (host_names create) ≡ some host_a
unfolding resolve query_get parse_query matches
names_mapped = refl

names_realm : (same (host_names create) [] || not (is_realm_host (host_names create))) ≡ false
unfolding is_realm_host same query_get parse_query
names_realm = refl

connection_outcome_example :
    ((is_post create.method ≡ true) × ((connection rewriter_a create fresh).0 ≡ some grant_error))
    ⊎ ((connection rewriter_a create fresh).0 ≡ some upstream_error)
    ⊎ IsForwarded array_a create host_a (host_names create) (connection rewriter_a create fresh)
connection_outcome_example =
    connection_outcome rewriter_a array_a create refl host_a fresh names_realm names_mapped

-- the grant and the connection are made
created :
    (connection rewriter_a create fresh).0
    ≡ some (record { status = 200; body = codes "{\"host\":\"pod::n1-7f\"}" })
unfolding connection same query_get parse_query is_realm_host resolve matches reissue is_post
    ensure_realm_access realm_of has_grant learn_realm_host issue is_grant_reply answer_or_error
created = refl

realm_named : realm_of (host_names create) ≡ codes "pod"
unfolding realm_of query_get parse_query
realm_named = refl

named_realm : realm_of (host_names create) ≢ []
named_realm e = ground (arith, realm_named, e)

abbrev status_of : Option Synth → ℕ
status_of none = 0
status_of (some s) = s.status

not_refused : (connection rewriter_a create fresh).0 ≢ some grant_error
not_refused e = omega (arith, ap status_of created, ap status_of e)

connection_grant_example :
    has_grant
      (grant_key host_a.array_host (realm_of (host_names create)))
      (connection rewriter_a create fresh).1.granted
    ≡ true
connection_grant_example =
    connection_grant rewriter_a array_a create refl host_a fresh refl names_realm names_mapped
      (λ e. ground arith) named_realm not_refused

abbrev shown : List Piece
shown =
    record { gap = codes "{"; text = codes "host" }
    ∷ record { gap = codes ":"; text = codes "n1-arr" }
    ∷ []

shown-IsPlain : All (IsPlain host_a.array_host) shown
unfolding same
shown-IsPlain = (
  record { gap_plain = ground arith; text_plain = ground arith; gap_differs = refl },
  (record { gap_plain = ground arith; text_plain = ground arith; gap_differs = refl }, tt),
)

shown_renders : agreed.body ≡ render shown (codes "}")
unfolding render
shown_renders = refl

shown_fresh : is_already_connected post agreed ≡ false
unfolding is_already_connected
shown_fresh = refl

connection_hides_example :
    (connection_answer post host_a px_name (codes "v") agreed ≡ record {
      status = 200;
      body = render (map (rename host_a.array_host px_name) shown) (codes "}");
    })
    × LacksText host_a.array_host (map (rename host_a.array_host px_name) shown)
connection_hides_example =
    connection_hides post host_a px_name (codes "v") agreed shown (codes "}") shown_renders
      shown_fresh (ground arith) shown-IsPlain (ground arith) (λ e. ground arith)

query_bytes : AreBytePairs (parse_query create.raw_query)
unfolding parse_query
query_bytes = ground arith

connection_path_query_example :
    (query : Bytes) × (connection_path create host_a ≡ create.path ++ b'?' ∷ query)
    × (query_get (parse_query query) (codes "host_names") ≡ (
        if same (codes "host_names") (codes "host_names")
        then host_a.array_host
        else query_get (parse_query create.raw_query) (codes "host_names")))
connection_path_query_example =
    connection_path_query create host_a (codes "host_names") query_bytes (ground arith)

granted_once : (ensure_realm_access array_a (codes "n1-arr") (codes "pod") fresh).0 ≡ some tt
unfolding ensure_realm_access same has_grant issue is_grant_reply
granted_once = refl

ensure_once_example :
    ensure_realm_access array_a
      (codes "n1-arr")
      (codes "pod")
      (ensure_realm_access array_a (codes "n1-arr") (codes "pod") fresh).1
    ≡ (some tt, (ensure_realm_access array_a (codes "n1-arr") (codes "pod") fresh).1)
ensure_once_example = ensure_once array_a (codes "n1-arr") (codes "pod") fresh granted_once

refused : (ensure_realm_access refusing (codes "n1-arr") (codes "pod") fresh).0 ≡ none
unfolding ensure_realm_access same has_grant issue is_grant_reply
refused = refl

abbrev issued : Option Reply × Wire
issued = issue array_a post (codes "/x") none fresh.wire

issued_reply : issued.0 ≡ some agreed
unfolding issue
issued_reply = refl

issue_answer_example :
    (issued.1.sent ≡ call_with array_a post (codes "/x") none issued.1.auth ∷ earlier issued.1.sent)
    × (array_a.answer
          (earlier issued.1.sent)
          (call_with array_a post (codes "/x") none issued.1.auth)
        ≡ some agreed)
    × (same issued.1.auth [] ≡ false)
issue_answer_example = issue_answer array_a post (codes "/x") none fresh.wire agreed issued_reply

abbrev denied : Reply
denied = record { status = 401; auth = codes ""; body = codes "{}" }

denied_reply : (issue refusing post (codes "/x") none fresh.wire).0 ≡ some denied
unfolding issue
denied_reply = refl

abbrev refused_twice : Wire
refused_twice = (issue refusing post (codes "/x") none fresh.wire).1

issue_unauthorized_example :
    (again : Reply) × (refusing.answer (earlier (earlier refused_twice.sent)) (login_call refusing)
      ≡ some again)
    × (refused_twice.sent
        ≡ call_with refusing post (codes "/x") none again.auth
          ∷ login_call refusing
          ∷ earlier (earlier refused_twice.sent))
    × (same again.auth [] ≡ false)
issue_unauthorized_example =
    issue_unauthorized refusing post (codes "/x") none fresh.wire denied denied_reply refl

abbrev host_b : HostMapping
host_b = record host_a { node = codes "n1-b"; array_host = codes "n1-b" }

resolve_order_dependent_example :
    (resolve
        ((codes "n1", host_a) ∷ (extended (codes "n1") (codes "b"), host_b) ∷ [])
        (in_realm (codes "pod") (extended (extended (codes "n1") (codes "b")) (codes "7f")))
      ≡ some host_a)
    × (resolve
          ((extended (codes "n1") (codes "b"), host_b) ∷ (codes "n1", host_a) ∷ [])
          (in_realm (codes "pod") (extended (extended (codes "n1") (codes "b")) (codes "7f")))
        ≡ some host_b)
resolve_order_dependent_example =
    resolve_order_dependent (codes "pod") (codes "n1") (codes "b") (codes "7f") host_a host_b
      (ground arith)

abbrev host_c : HostMapping
host_c = record host_a { node = codes "n2"; array_host = codes "n2-arr" }

other_node : matches (codes "n1-7f") (codes "n2") host_c ≡ false
unfolding matches
other_node = refl

two_hosts : IsUnambiguous (codes "n1-7f") host_a ((codes "n1", host_a) ∷ (codes "n2", host_c) ∷ [])
two_hosts = (λ e. refl, (λ e. ground (arith, other_node), tt))

hosts_two : IsUnambiguous (codes "n1-7f") host_a ((codes "n2", host_c) ∷ (codes "n1", host_a) ∷ [])
hosts_two = (λ e. ground (arith, other_node), (λ e. refl, tt))

resolve-perm_example :
    resolve
      ((codes "n1", host_a) ∷ (codes "n2", host_c) ∷ [])
      (in_realm (codes "pod") (codes "n1-7f"))
    ≡ resolve
        ((codes "n2", host_c) ∷ (codes "n1", host_a) ∷ [])
        (in_realm (codes "pod") (codes "n1-7f"))
resolve-perm_example =
    resolve-perm (codes "pod") (codes "n1-7f") host_a _ _ (ground arith) two_hosts hosts_two
      (Permᴰ.swap refl refl)

learn-in_realm_example :
    lookup
      (codes "n1-arr")
      (learn_realm_host rewriter_a (in_realm (codes "pod") (codes "n1-7f")) fresh).by_array_host
    ≡ (if same (codes "n1-7f") host_a.array_host
        then lookup (codes "n1-arr") fresh.by_array_host
        else if same host_a.array_host (codes "n1-arr")
        then some (in_realm (codes "pod") (codes "n1-7f"))
        else lookup (codes "n1-arr") fresh.by_array_host)
unfolding query_get parse_query
learn-in_realm_example =
    learn-in_realm rewriter_a (codes "pod") (codes "n1-7f") (codes "n1-arr") host_a fresh
      (ground arith) names_mapped
