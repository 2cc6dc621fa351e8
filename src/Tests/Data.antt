-- ===== src/Tests/Data.antt =====
-- A shim with one node of two transports, an array that agrees to everything, and requests of px.
use px_smt_multirealm_shim.Common.{true, false, Option, none, some, List, [], ◌∷◌}
use px_smt_multirealm_shim.Bytes.{Bytes, codes}
use px_smt_multirealm_shim.Http.{post, get, Request, Body, full, Response}
use px_smt_multirealm_shim.Json.{Json}
use px_smt_multirealm_shim.Config.{HostMapping}
use px_smt_multirealm_shim.Array.{Call, api_token, auth_token, Reply, ArraySession}
use px_smt_multirealm_shim.Rewriter.{Rewriter, Identity}
use px_smt_multirealm_shim.Bytes.Assoc.{Assoc}
use px_smt_multirealm_shim.Proxy.{Upstream, Arrival}

abbrev pub host_a : HostMapping
host_a = record {
  node = codes "n1";
  array_host = codes "n1-arr";
  iqns = codes "iqn.a, iqn.b";
  wwns = codes "";
  nqns = codes "nqn.a";
  legacy_iqn = codes "";
}

abbrev pub agreed : Reply
agreed = record { status = 200; auth = codes "tok"; body = codes "{\"host\":\"n1-arr\"}" }

abbrev pub array_a : ArraySession
array_a = record {
  base = codes "https://arr";
  api = codes "key";
  answer = λ (before : List Call) (c : Call). some agreed;
}

abbrev pub refusing : ArraySession
refusing = record {
  base = codes "https://arr";
  api = codes "key";
  answer = λ (before : List Call) (c : Call). elim c.credential [
    | api_token _ ↦ some agreed
    | auth_token _ ↦ some (record { status = 401; auth = codes ""; body = codes "{}" })
  ];
}

abbrev pub rewriter_a : Rewriter
rewriter_a = record {
  enabled = true;
  array_identity = false;
  by_node = (codes "n1", host_a) ∷ [];
  arr = some array_a;
}

abbrev pub px_name : Bytes
px_name = codes "pod::n1-7f"

abbrev pub create : Request
create = record {
  method = post;
  host = codes "r1.example";
  path = codes "/api/2.4/connections";
  raw_query = codes "host_names=pod::n1-7f";
  body = codes "{}";
}

abbrev pub list_volumes : Request
list_volumes = record {
  method = get;
  host = codes "r1.example";
  path = codes "/api/2.4/volumes";
  raw_query = codes "";
  body = codes "";
}

abbrev pub volumes_response : Response
volumes_response = record {
  status = 200;
  body = full (codes "{}");
  content_length = some 2;
  length_header = some (codes "2");
  content_type = none;
}

abbrev pub upstream_a : Upstream
upstream_a = record {
  upstream_host = codes "";
  url_host = codes "arr:443";
  log_bodies = true;
  respond = λ (r : Request). some volumes_response;
  respond_closed = λ (r : Request). none;
}

abbrev pub parse_nothing : Bytes → Option Json
parse_nothing s = none

abbrev pub real_array : Identity
real_array = record { name = codes "flash1"; id = codes "a1b2c3d4-e5f6-4711-8a9b-0123456789ab" }

-- a request at which the hosts are visited in this order, and the transport answers so
abbrev pub arrival : Assoc HostMapping → (Request → Option Response) → Request → Body → Arrival
arrival order respond r body = record {
  order = order;
  respond = respond;
  respond_closed = λ (q : Request). none;
  request = r;
  body = body;
}

abbrev pub answers_volumes : Request → Option Response
answers_volumes r = some volumes_response

abbrev pub answers_nothing : Request → Option Response
answers_nothing r = none
