-- ===== src/Tests/Runs.antt =====
-- Runs of the configuration, and of the requests that the shim answers itself.
use px_smt_multirealm_shim.Common.{◌≡◌, refl, some, [], ◌∷◌, ◌++◌, none}
use px_smt_multirealm_shim.Bytes.{codes}
use px_smt_multirealm_shim.Http.{get, Request}
use px_smt_multirealm_shim.Config.{split_csv, sanitize_api_token}
use px_smt_multirealm_shim.Rewriter.Hosts.{get_host_synth}
use px_smt_multirealm_shim.Bytes.{same}
use px_smt_multirealm_shim.Bytes.{contains_any}
use px_smt_multirealm_shim.Url.{query_get}
use px_smt_multirealm_shim.Url.{parse_query}
use px_smt_multirealm_shim.Rewriter.{resolve}
use px_smt_multirealm_shim.Rewriter.{matches}
use px_smt_multirealm_shim.Rewriter.{is_double_prefixed}
use px_smt_multirealm_shim.Json.{marshal}
use px_smt_multirealm_shim.Rewriter.Hosts.{host_item}
use px_smt_multirealm_shim.Config.{keep_configured}
use px_smt_multirealm_shim.Config.{iqns_or_legacy}
use px_smt_multirealm_shim.Bytes.Number.{pos}
use px_smt_multirealm_shim.Proxy.Log.{ellipsis, shown_header, render_body}
use px_smt_multirealm_shim.Tests.Data.{rewriter_a, create}

split_list : split_csv (codes " a, ,b ,") ≡ codes "a" ∷ codes "b" ∷ []
unfolding split_csv
split_list = refl

clean_token : sanitize_api_token (codes "abc-123-token\r\n") ≡ codes "abc-123-token"
unfolding sanitize_api_token
clean_token = refl

abbrev get_host : Request
get_host = record create { method = get; raw_query = codes "names=pod%3A%3An1-arr" }

double_prefixed :
    get_host_synth rewriter_a get_host
    ≡ some (record {
      status = 200;
      body =
          codes
            "{\"items\":[{\"connection_count\":1,\"host_group\":{\"name\":null},\"iqns\":[\"iqn.a\",\"iqn.b\"],\"name\":\"pod::n1-arr\",\"nqns\":[\"nqn.a\"]}]}";
    })
unfolding get_host_synth same query_get parse_query contains_any resolve matches is_double_prefixed
    marshal host_item keep_configured iqns_or_legacy
double_prefixed = refl

shown_token :
    shown_header (codes "X-Auth-Token") (codes "0123456789")
    ≡ codes "<redacted len=10 " ++ ellipsis ++ codes "6789>"
unfolding shown_header
shown_token = refl

cut_body :
    render_body (λ b. none) (codes "abcdef") (codes "text/plain") (pos 2)
    ≡ codes "ab\n" ++ ellipsis ++ codes " [truncated 4 of 6 bytes]"
unfolding render_body
cut_body = refl
