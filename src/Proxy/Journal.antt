-- ===== src/Proxy/Journal.antt =====
-- internal/proxy/proxy.go and rewrite.go: the lines that are logged for one request, `nextID`,
-- `logRequest`, `logResponse` and `writeSynth`. The texts of errors are net/http's.
pub mod Secret
pub mod Ids
use px_smt_multirealm_shim.Common.{
  ℕ, zero, suc, ◌+◌, ◌-◌, Bool, true, false, ◌&&◌, not, Option, none, some, List, [], ◌∷◌, ◌++◌,
  length, if◌then◌else◌,
}
use px_smt_multirealm_shim.Bytes.{Bytes, codes, same}
use px_smt_multirealm_shim.Bytes.Number.{ℤ, decimal}
use px_smt_multirealm_shim.Http.{Body, full, broken}
use px_smt_multirealm_shim.Proxy.Log.{render_body}
use px_smt_multirealm_shim.Proxy.Log.Headers.{Header, bracketed, log_headers}

unfoldable pub zeros : ℕ → Bytes
zeros zero = []
zeros (suc n) = b'0' ∷ zeros n

-- `nextID`: `r%06d` of the counter
unfoldable pub request_id : ℕ → Bytes
unfolding decimal zeros
request_id n = b'r' ∷ (zeros (6 - length (decimal n)) ++ decimal n)

-- the fields of the configuration that the log reads; `indent` is `json.Indent`
pub record LogConfig : Type 0 where
  pub log_bodies : Bool
  pub max_log_body_bytes : ℤ
  pub indent : Bytes → Option Bytes

-- what the log reads of a request; `uri` is `r.URL.RequestURI()`
pub record Incoming : Type 0 where
  pub method : Bytes
  pub uri : Bytes
  pub path : Bytes
  pub host : Bytes
  pub remote : Bytes
  pub header : Header
  pub body : Bytes

-- `h.Get(key)` for a key in its canonical form
unfoldable pub header_get : Header → Bytes → Bytes
header_get h key = elim (h.values key) [ [] ↦ [] | v ∷ _ ↦ v ]

unfoldable pub body_lines : LogConfig → Bytes → Bytes → Bytes → Bytes → List Bytes
unfolding same render_body
body_lines cfg id dir body content_type =
    if cfg.log_bodies && not (same body [])
    then (bracketed id
        ++ dir
        ++ codes " body: "
        ++ render_body cfg.indent body content_type cfg.max_log_body_bytes)
      ∷ []
    else []

-- `logRequest`
unfoldable pub log_request : LogConfig → Bytes → Incoming → List Bytes
unfolding log_headers body_lines header_get
log_request cfg id r =
    (bracketed id
      ++ codes ">>> "
      ++ r.method
      ++ codes " "
      ++ r.uri
      ++ codes "  Host="
      ++ r.host
      ++ codes "  RemoteAddr="
      ++ r.remote)
    ∷ (log_headers id (codes ">>>") r.header
        ++ body_lines cfg id (codes ">>>") r.body (header_get r.header (codes "Content-Type")))

-- how a request ends: the shim's own answer, a response of the array with its status text and the
-- error of a body that breaks off, or an error of the transport
pub data Outcome : Type 0 where
  synthetic : ℕ → Bytes → Outcome
  responded : Bytes → Header → Body → Bytes → Outcome
  failed : Bytes → Outcome

-- the body of a response, as `logResponse` writes it
unfoldable pub response_body_lines : LogConfig → Bytes → Header → Body → Bytes → List Bytes
unfolding body_lines header_get
response_body_lines cfg id h (full b) error =
    body_lines cfg id (codes "<<<") b (header_get h (codes "Content-Type"))
response_body_lines cfg id h (broken _) error =
    if cfg.log_bodies then (bracketed id ++ codes "<<< body read error: " ++ error) ∷ [] else []

-- `writeSynth`
unfoldable pub synth_lines : LogConfig → Bytes → Incoming → ℕ → Bytes → List Bytes
unfolding body_lines decimal
synth_lines cfg id r status body =
    (bracketed id
      ++ codes "<<< "
      ++ r.method
      ++ codes " "
      ++ r.path
      ++ codes " -> "
      ++ decimal status
      ++ codes " (shim)")
    ∷ body_lines cfg id (codes "<<<") body (codes "application/json")

-- `writeSynth`, `logResponse` and the error handler
unfoldable pub log_outcome : LogConfig → Bytes → Incoming → Outcome → List Bytes
unfolding log_headers response_body_lines synth_lines
log_outcome cfg id r (synthetic status body) = synth_lines cfg id r status body
log_outcome cfg id r (responded status h body error) =
    (bracketed id ++ codes "<<< " ++ r.method ++ codes " " ++ r.path ++ codes " -> " ++ status)
    ∷ (log_headers id (codes "<<<") h ++ response_body_lines cfg id h body error)
log_outcome cfg id r (failed error) =
    (bracketed id
      ++ codes "UPSTREAM ERROR "
      ++ r.method
      ++ codes " "
      ++ r.path
      ++ codes ": "
      ++ error)
    ∷ []

-- all lines for the request that gets this number
unfoldable pub journal : LogConfig → ℕ → Incoming → Outcome → List Bytes
unfolding log_request log_outcome request_id
journal cfg n r outcome =
    log_request cfg (request_id n) r ++ log_outcome cfg (request_id n) r outcome
