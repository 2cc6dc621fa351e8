-- ===== src/Tests/Watches.antt =====
-- The cleaner's watch over three connections, and a scan that is not reported.
use px_smt_multirealm_shim.Common.{◌≡◌, refl, true, none, some, List, [], ◌∷◌, ◌*◌}
use px_smt_multirealm_shim.Bytes.{codes, same}
use px_smt_multirealm_shim.Bytes.Number.{pos}
use px_smt_multirealm_shim.Cleaner.Scan.{poll, is_event, ScanResult}
use px_smt_multirealm_shim.Cleaner.Summary.{Scanned, report, is_due, remembered}
use px_smt_multirealm_shim.Cleaner.Summary.Silence.{HasOne, Repeats, report_silent}
use px_smt_multirealm_shim.Cleaner.Loop.{initial, is_detach}
use px_smt_multirealm_shim.Cleaner.Watch.{
  ApiServer, Connection, unreachable, connected, WatchRequest, prepare, watch,
}
use px_smt_multirealm_shim.Cleaner.Watch.Tokens.{decoded, failures, with_token, watch_tokens}

abbrev api : ApiServer
api = record {
  token = some (codes "t");
  ca_cert = some (codes "c");
  host = codes "10.0.0.1";
  port = codes "443";
}

abbrev three : WatchRequest → List Connection
three req =
    unreachable
    ∷ connected 401 []
    ∷ connected 200 (record { event_type = codes "DELETED"; node_name = codes "w1" } ∷ [])
    ∷ []

watched : watch api (codes "w1") three initial ≡ (10, record initial { pending = true })
unfolding watch is_detach same
watched = refl

watch_tokens_example : watch api (codes "w1") three initial ≡ elim (prepare api) [
  | none ↦ (0, initial)
  | some req ↦ (failures (three req) * 5, with_token (codes "w1") (decoded (three req)) initial)
]
watch_tokens_example = watch_tokens api (codes "w1") three initial

abbrev quiet : ScanResult
quiet = record { ours = 2; idle = 1; stale = 0; flushed = 0 }

abbrev first : Scanned
first = record { trigger = poll; result = quiet; time = 100 }

abbrev second : Scanned
second = record { trigger = poll; result = quiet; time = 108 }

not_reported :
    (report
      (pos 300)
      second.trigger
      second.result
      second.time
      (remembered (pos 300) (first ∷ []))).0
    ≡ none
unfolding report remembered is_due is_event same
not_reported = refl

report_silent_example :
    (second.trigger ≡ poll)
    × (second.result.flushed ≡ 0)
    × HasOne (Repeats (pos 300) second) (first ∷ [])
report_silent_example = report_silent (pos 300) (first ∷ []) second not_reported
