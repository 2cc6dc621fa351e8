-- ===== src/Identity.antt =====
-- internal/proxy/arrayident.go: an identity of its own for each realm FQDN.
-- `unmarshal` is the parser of JSON texts.
pub mod Synth
use Prim.Native.Nat.{bit_xor}
use px_smt_multirealm_shim.Common.{
  ℕ, zero, suc, ◌+◌, ◌*◌, ◌/◌, ◌%◌, ◌^◌, Bool, true, false, ◌||◌, ◌&&◌, Option, none, some, List,
  [], ◌∷◌, ◌++◌, ltb, leb, ◌==◌, if◌then◌else◌, take, length,
}
use px_smt_multirealm_shim.Common.Exec.{Exec}
use px_smt_multirealm_shim.Bytes.{Bytes, codes, same, index}
use px_smt_multirealm_shim.Bytes.Replace.{replace_all}
use px_smt_multirealm_shim.Bytes.Quoted.{quoted}
use px_smt_multirealm_shim.Http.{get}
use px_smt_multirealm_shim.Json.{Json, Fields, end, hex_digit}
use px_smt_multirealm_shim.Json.Decode.{members, decode_field, decode_string, decode_slice}
use px_smt_multirealm_shim.Array.{Reply, ArraySession, issue}
use px_smt_multirealm_shim.Rewriter.{Rewriter, Shim, Identity, on_wire}

-- FNV-1a on 64 bits, `fnv.New64a`
unfoldable pub fnv_from : ℕ → Bytes → ℕ
fnv_from h [] = h
fnv_from h (c ∷ s) = fnv_from ((bit_xor h c * 1099511628211) % 2 ^ 64) s

unfoldable pub fnv64a : Bytes → ℕ
unfolding fnv_from
fnv64a s = fnv_from 14695981039346656037 s

-- the last digits of a number in hexadecimal, with zeros in front
unfoldable pub hex_padded : ℕ → ℕ → Bytes → Bytes
unfolding hex_digit
hex_padded zero n out = out
hex_padded (suc k) n out = hex_padded k (n / 16) (hex_digit (n % 16) ∷ out)

-- the name up to the first dot, unless that stands in front
unfoldable pub label_of : Bytes → Bytes
unfolding index
label_of fqdn = elim (index fqdn (codes ".")) [
  | none ↦ fqdn
  | some i ↦ if ltb 0 i then take i fqdn else fqdn
]

unfoldable pub id_prefix : Bytes → Bytes
id_prefix id = if leb 24 (length id) then take 24 id else id

-- what `synth` returns once the real identity is known
unfoldable pub synth_identity : Identity → Bytes → Identity
synth_identity real fqdn = record {
  name = real.name ++ b'-' ∷ label_of fqdn;
  id = id_prefix real.id ++ hex_padded 12 (fnv64a fqdn % 2 ^ 48) [];
}

unfoldable pub decode_identity : Json → Option Identity
unfolding members decode_field decode_string
decode_identity v = elim (members v) [
  | none ↦ none
  | some fs ↦ elim (decode_field decode_string (codes "name") fs []) [
    | none ↦ none
    | some name ↦ elim (decode_field decode_string (codes "id") fs []) [
      | none ↦ none
      | some id ↦ some (record { name = name; id = id })
    ]
  ]
]

unfoldable pub first_identity : Option (List Identity) → Option Identity
first_identity none = none
first_identity (some []) = none
first_identity (some (i ∷ is)) = some i

-- the first of the `items` in the body of GET /arrays
unfoldable pub identity_of : Option Json → Option Identity
unfolding members decode_field decode_slice decode_identity first_identity
identity_of none = none
identity_of (some v) = elim (members v) [
  | none ↦ none
  | some fs ↦ first_identity (decode_field (decode_slice decode_identity) (codes "items") fs [])
]

unfoldable pub store_identity : Option Identity → Shim → Shim
store_identity none st = st
store_identity (some i) st = record st { known = some i }

unfoldable pub settle_identity : (Bytes → Option Json) → Option Reply → Shim → Shim
settle_identity unmarshal none st = st
settle_identity unmarshal (some r) st =
    if r.status == 200 then store_identity (identity_of (unmarshal r.body)) st else st

-- `ensure`
unfoldable pub discover : (Bytes → Option Json) → ArraySession → Shim → Shim
discover unmarshal a st =
    let (reply, st') = on_wire (issue a get (codes "/api/2.36/arrays") none) st in
    settle_identity unmarshal reply st'

unfoldable pub ensure_identity : (Bytes → Option Json) → Rewriter → Shim → Shim
ensure_identity unmarshal rw st = elim st.known [
  | some _ ↦ st
  | none ↦ elim rw.arr [ none ↦ st | some a ↦ discover unmarshal a st ]
]

-- real to synthetic, in a body
unfoldable pub hide_identity : Option Identity → Bytes → Bytes → Bytes
hide_identity none fqdn body = body
hide_identity (some real) fqdn body =
    let s = synth_identity real fqdn in
    replace_all (replace_all body (quoted real.id) (quoted s.id)) (quoted real.name) (quoted s.name)

-- synthetic to real, in a query
unfoldable pub reveal_identity : Option Identity → Bytes → Bytes → Bytes
reveal_identity none fqdn s = s
reveal_identity (some real) fqdn s =
    let t = synth_identity real fqdn in
    if same s [] then s else replace_all (replace_all s t.id real.id) t.name real.name

-- `rewriteResponseBody`
unfoldable pub rewrite_response_body :
    (Bytes → Option Json) → Rewriter → Bytes → Bytes → Shim → Bytes × Shim
rewrite_response_body unmarshal rw fqdn body st =
    let st' = ensure_identity unmarshal rw st in (hide_identity st'.known fqdn body, st')

-- `rewriteRequestString`
unfoldable pub rewrite_request_string :
    (Bytes → Option Json) → Rewriter → Bytes → Bytes → Shim → Bytes × Shim
rewrite_request_string unmarshal rw fqdn s st =
    let st' = ensure_identity unmarshal rw st in (reveal_identity st'.known fqdn s, st')
