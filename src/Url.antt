-- ===== src/Url.antt =====
-- Query strings as `net/url` reads and writes them.
pub mod RoundTrip
use px_smt_multirealm_shim.Common.{
  ℕ, zero, suc, ◌+◌, ◌-◌, ◌*◌, ◌/◌, ◌%◌, ◌≡◌, refl, Bool, true, false, ◌&&◌, ◌||◌, Option, none,
  some, List, [], ◌∷◌, ◌++◌, ltb, leb, ◌==◌, if◌then◌else◌,
}
use px_smt_multirealm_shim.Bytes.{Bytes, codes, same, contains}
use px_smt_multirealm_shim.Bytes.Split.{split}
use px_smt_multirealm_shim.Json.{lt_bytes}

-- The pairs of a query. The order of the values of one key matters, that of the keys does not.
abbrev pub Values : Type 0
Values = List (Bytes × Bytes)

unfoldable pub from_hex : ℕ → Option ℕ
from_hex c =
    if leb b'0' c && leb c b'9'
    then some (c - b'0')
    else if leb b'a' c && leb c b'f'
    then some (c - b'a' + 10)
    else if leb b'A' c && leb c b'F'
    then some (c - b'A' + 10)
    else none

unfoldable pub put : ℕ → Option Bytes → Option Bytes
put c none = none
put c (some s) = some (c ∷ s)

unfoldable pub put_hex : Option ℕ → Option ℕ → Option Bytes → Option Bytes
unfolding put
put_hex (some hi) (some lo) rest = put (hi * 16 + lo) rest
put_hex _ _ rest = none

-- `url.QueryUnescape`, with none for its error
unfoldable pub query_unescape : Bytes → Option Bytes
unfolding from_hex put put_hex
query_unescape [] = some []
query_unescape (c ∷ []) = if c == b'%' then none else put (if c == b'+' then b' ' else c) (some [])
query_unescape (c ∷ h ∷ []) =
    let rest = query_unescape (h ∷ []) in
    if c == b'%' then none else put (if c == b'+' then b' ' else c) rest
query_unescape (c ∷ h ∷ l ∷ s) =
    let hex = put_hex (from_hex h) (from_hex l) (query_unescape s) in
    let rest = query_unescape (h ∷ l ∷ s) in
    if c == b'%' then hex else put (if c == b'+' then b' ' else c) rest

-- what stands before the first `=`, and what stands behind it
unfoldable pub cut_equals : Bytes → Bytes × Bytes
cut_equals [] = ([], [])
cut_equals (c ∷ s) = let (k, v) = cut_equals s in if c == b'=' then ([], s) else (c ∷ k, v)

unfoldable pub add_pair : Option Bytes → Option Bytes → Values → Values
add_pair (some k) (some v) q = (k, v) ∷ q
add_pair _ _ q = q

-- `parseQuery`: an empty part, one with a semicolon and one with a bad escape are left out.
unfoldable pub parse_parts : List Bytes → Values
unfolding query_unescape cut_equals add_pair contains same
parse_parts [] = []
parse_parts (p ∷ ps) =
    let (k, v) = cut_equals p in
    let rest = parse_parts ps in
    if same p [] || contains p (b';' ∷ [])
    then rest
    else add_pair (query_unescape k) (query_unescape v) rest

-- `r.URL.Query()`
unfoldable pub parse_query : Bytes → Values
unfolding parse_parts split
parse_query raw = parse_parts (split raw b'&')

-- `q.Get(k)`: the first value, or "".
unfoldable pub query_get : Values → Bytes → Bytes
unfolding same
query_get [] k = []
query_get ((j, v) ∷ q) k = if same j k then v else query_get q k

unfoldable pub query_del : Values → Bytes → Values
unfolding same
query_del [] k = []
query_del ((j, v) ∷ q) k = let rest = query_del q k in if same j k then rest else (j, v) ∷ rest

-- `q.Set(k, v)`
unfoldable pub query_set : Values → Bytes → Bytes → Values
unfolding query_del
query_set q k v = (k, v) ∷ query_del q k

unfoldable pub hex_upper : ℕ → ℕ
hex_upper d = if ltb d 10 then b'0' + d else b'A' + (d - 10)

unfoldable pub is_unreserved : ℕ → Bool
is_unreserved c =
    (leb b'a' c && leb c b'z')
    || (leb b'A' c && leb c b'Z')
    || (leb b'0' c && leb c b'9')
    || c == b'-'
    || c == b'_'
    || c == b'.'
    || c == b'~'

unfoldable pub escape_query_byte : ℕ → Bytes
unfolding is_unreserved hex_upper
escape_query_byte c =
    if is_unreserved c
    then c ∷ []
    else if c == b' '
    then b'+' ∷ []
    else b'%' ∷ hex_upper (c / 16) ∷ hex_upper (c % 16) ∷ []

-- `url.QueryEscape`
unfoldable pub query_escape : Bytes → Bytes
unfolding escape_query_byte
query_escape [] = []
query_escape (c ∷ s) = escape_query_byte c ++ query_escape s

-- a stable sort by key
unfoldable pub insert_pair : Bytes → Bytes → Values → Values
unfolding lt_bytes
insert_pair k v [] = (k, v) ∷ []
insert_pair k v ((j, w) ∷ q) =
    if lt_bytes j k then (j, w) ∷ insert_pair k v q else (k, v) ∷ (j, w) ∷ q

unfoldable pub sort_pairs : Values → Values
unfolding insert_pair
sort_pairs [] = []
sort_pairs ((k, v) ∷ q) = insert_pair k v (sort_pairs q)

unfoldable pub write_pairs : Values → Bytes
unfolding query_escape
write_pairs [] = []
write_pairs ((k, v) ∷ []) = query_escape k ++ b'=' ∷ query_escape v
write_pairs ((k, v) ∷ (j, w) ∷ q) =
    query_escape k ++ b'=' ∷ (query_escape v ++ b'&' ∷ write_pairs ((j, w) ∷ q))

-- `q.Encode()`
unfoldable pub encode : Values → Bytes
unfolding sort_pairs write_pairs
encode q = write_pairs (sort_pairs q)

encode_example :
    encode (
      query_set
        (parse_query (codes "volume_names=p%3A%3Av&host_names=r::w-1"))
        (codes "host_names")
        (codes "a b"))
    ≡ codes "host_names=a+b&volume_names=p%3A%3Av"
unfolding encode query_set parse_query
encode_example = refl
