-- ===== src/Cleaner/Watch.antt =====
-- cmd/fada-cleaner/main.go: `watchVolumeAttachments`. The API server's part is a list: how each connection
-- that is tried goes. The goroutine ends for ever only where the credentials are missing.
pub mod Tokens
use px_smt_multirealm_shim.Common.{
  ℕ, ◌+◌, Bool, true, false, ◌||◌, not, Option, none, some, List, [], ◌∷◌, ◌++◌, ◌==◌,
  if◌then◌else◌,
}
use px_smt_multirealm_shim.Bytes.{Bytes, codes, same}
use px_smt_multirealm_shim.Cleaner.Loop.{WatchEvent, State, notify}

-- the two files of the service account, none where they cannot be read, and the address of the server
pub record ApiServer : Type 0 where
  pub token : Option Bytes
  pub ca_cert : Option Bytes
  pub host : Bytes
  pub port : Bytes

-- the request that is made again and again
pub record WatchRequest : Type 0 where
  pub url : Bytes
  pub authorization : Bytes
  pub accept : Bytes
  pub root_ca : Bytes

unfoldable pub watch_request : Bytes → Bytes → Bytes → Bytes → WatchRequest
watch_request token ca_cert host port = record {
  url =
      codes "https://"
      ++ host
      ++ codes ":"
      ++ port
      ++ codes "/apis/storage.k8s.io/v1/volumeattachments?watch=true&timeoutSeconds=300";
  authorization = codes "Bearer " ++ token;
  accept = codes "application/json";
  root_ca = ca_cert;
}

-- none: the watch is disabled, and the agent only polls
unfoldable pub prepare : ApiServer → Option WatchRequest
unfolding same watch_request
prepare c = elim c.token [
  | none ↦ none
  | some token ↦ elim c.ca_cert [
    | none ↦ none
    | some ca_cert ↦
        if same c.host [] || same c.port []
        then none
        else some (watch_request token ca_cert c.host c.port)
  ]
]

-- an error, or a response with its status and the events that can be decoded before the stream ends
pub data Connection : Type 0 where
  unreachable : Connection
  connected : ℕ → List WatchEvent → Connection

unfoldable pub notify_all : Bytes → List WatchEvent → State → State
unfolding notify
notify_all node_name [] st = st
notify_all node_name (ev ∷ evs) st = notify_all node_name evs (notify node_name ev st)

-- the seconds that are waited before the next try, and the state
unfoldable pub watch_once : Bytes → Connection → State → ℕ × State
unfolding notify_all
watch_once node_name unreachable st = (5, st)
watch_once node_name (connected status evs) st =
    if status == 200 then (0, notify_all node_name evs st) else (5, st)

-- the first connections of the endless loop
unfoldable pub watch_loop : Bytes → List Connection → State → ℕ × State
unfolding watch_once
watch_loop node_name [] st = (0, st)
watch_loop node_name (c ∷ cs) st =
    let (pause, st') = watch_once node_name c st in
    let (rest, st'') = watch_loop node_name cs st' in (pause + rest, st'')

-- `watchVolumeAttachments`; the answers of the server depend on the request
unfoldable pub watch : ApiServer → Bytes → (WatchRequest → List Connection) → State → ℕ × State
unfolding prepare watch_loop
watch c node_name server st = elim (prepare c) [
  | none ↦ (0, st)
  | some req ↦ watch_loop node_name (server req) st
]
