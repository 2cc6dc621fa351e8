-- ===== src/Proxy/Log.antt =====
-- internal/proxy/log.go: what is written of a header and of a body. `indent` is `json.Indent`, none for
-- an error.
pub mod Headers
use px_smt_multirealm_shim.Common.{
  suc, ◌-◌, Option, none, some, List, [], ◌∷◌, ◌++◌, any, ltb, length, take, drop, if◌then◌else◌,
}
use px_smt_multirealm_shim.Bytes.{Bytes, codes, same, contains, to_lower}
use px_smt_multirealm_shim.Bytes.Number.{ℤ, pos, decimal}

abbrev pub sensitive_headers : List Bytes
sensitive_headers =
    codes "api-token"
    ∷ codes "x-auth-token"
    ∷ codes "authorization"
    ∷ codes "cookie"
    ∷ codes "set-cookie"
    ∷ []

-- the three bytes of an ellipsis in UTF-8
abbrev pub ellipsis : Bytes
ellipsis = 226 ∷ 128 ∷ 166 ∷ []

-- the last four bytes, or all of a shorter value
unfoldable pub tail_of : Bytes → Bytes
tail_of v = if ltb 4 (length v) then drop (length v - 4) v else v

unfoldable pub redact : Bytes → Bytes
unfolding same tail_of decimal
redact v =
    if same v []
    then []
    else codes "<redacted len="
      ++ decimal (length v)
      ++ codes " "
      ++ ellipsis
      ++ tail_of v
      ++ codes ">"

-- the value of a header as `logHeaders` writes it
unfoldable pub shown_header : Bytes → Bytes → Bytes
unfolding same to_lower redact
shown_header key value = if any (same (to_lower key)) sensitive_headers then redact value else value

unfoldable pub pretty : (Bytes → Option Bytes) → Bytes → Bytes → Bytes
unfolding contains to_lower
pretty indent body content_type =
    if contains (to_lower content_type) (codes "json")
    then elim (indent body) [ none ↦ body | some out ↦ out ]
    else body

unfoldable pub truncate : ℤ → Bytes → Bytes
unfolding decimal
truncate (pos (suc m)) out =
    if ltb (suc m) (length out)
    then take (suc m) out
      ++ codes "\n"
      ++ ellipsis
      ++ codes " [truncated "
      ++ decimal (length out - suc m)
      ++ codes " of "
      ++ decimal (length out)
      ++ codes " bytes]"
    else out
truncate _ out = out

-- `renderBody`
unfoldable pub render_body : (Bytes → Option Bytes) → Bytes → Bytes → ℤ → Bytes
unfolding pretty truncate
render_body indent body content_type max = truncate max (pretty indent body content_type)
