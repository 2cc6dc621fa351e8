-- ===== src/Url/RoundTrip.antt =====
-- `url.ParseQuery` reads back what `Values.Encode` writes.
use px_smt_multirealm_shim.Common.{
  ℕ, ◌/◌, ◌%◌, ◌<◌, ◌≡◌, ◌≢◌, refl, false, some, List, [], ◌∷◌, ◌++◌, ◌==◌, if◌then◌else◌, arith,
  All, All-append, append_assoc, sym,
}
use px_smt_multirealm_shim.Bytes.{Bytes, same, same_iff, contains, index, has_prefix}
use px_smt_multirealm_shim.Bytes.Split.{cut, split}
use px_smt_multirealm_shim.Json.{lt_bytes}
use px_smt_multirealm_shim.Url.{
  Values, query_get, from_hex, put, put_hex, query_unescape, cut_equals, add_pair, parse_parts,
  parse_query, hex_upper, is_unreserved, escape_query_byte, query_escape, insert_pair, sort_pairs,
  write_pairs, encode,
}

abbrev pub IsByte : ℕ → Type 0
IsByte c = c < 256

abbrev pub AreBytes : Bytes → Type 0
AreBytes = All IsByte

-- the bytes that separate or escape are written as escapes
abbrev IsSafe : ℕ → Type 0
IsSafe c = (c ≢ b'&') × (c ≢ b'=') × (c ≢ b';')

from_hex-hex_upper : (d : ℕ) → d < 16 → from_hex (hex_upper d) ≡ some d
unfolding from_hex hex_upper
from_hex-hex_upper d h = ground arith

hex_upper-IsSafe : (d : ℕ) → d < 16 → IsSafe (hex_upper d)
unfolding hex_upper
hex_upper-IsSafe d h = ground arith

escape_byte-IsSafe : (c : ℕ) → c < 256 → All IsSafe (escape_query_byte c)
unfolding escape_query_byte is_unreserved
escape_byte-IsSafe c h = ground (arith, hex_upper-IsSafe (c / 16), hex_upper-IsSafe (c % 16))

query_escape-IsSafe : (s : Bytes) → AreBytes s → All IsSafe (query_escape s)
unfolding query_escape
query_escape-IsSafe [] h = tt
query_escape-IsSafe (c ∷ s) (hc, h) =
    All-append IsSafe (escape_query_byte c) (query_escape s) (escape_byte-IsSafe c hc)
      (query_escape-IsSafe s h)

-- a byte that is no escape is read as it is
unescape_plain :
    (c : ℕ) (s : Bytes)
    → c ≢ b'%'
    → query_unescape (c ∷ s) ≡ put (if c == b'+' then b' ' else c) (query_unescape s)
unfolding query_unescape
unescape_plain c [] h = ground arith
unescape_plain c (d ∷ []) h = ground arith
unescape_plain c (d ∷ e ∷ s) h = ground arith

unescape_hex :
    (h l : ℕ) (s : Bytes)
    → query_unescape (b'%' ∷ h ∷ l ∷ s) ≡ put_hex (from_hex h) (from_hex l) (query_unescape s)
unfolding query_unescape
unescape_hex h l s = ground arith

unescape-byte :
    (c : ℕ) (s : Bytes)
    → c < 256
    → query_unescape (escape_query_byte c ++ s) ≡ put c (query_unescape s)
unfolding escape_query_byte is_unreserved put put_hex
unescape-byte c s h = ground (
  arith,
  unescape_plain c s,
  unescape_plain b'+' s,
  unescape_hex (hex_upper (c / 16)) (hex_upper (c % 16)) s,
  from_hex-hex_upper (c / 16),
  from_hex-hex_upper (c % 16),
)

-- Every text comes back from its escaped form.
pub query_unescape-escape : (s : Bytes) → AreBytes s → query_unescape (query_escape s) ≡ some s
unfolding query_escape put
query_unescape-escape [] h = unfold query_unescape in refl
query_unescape-escape (c ∷ s) (hc, h) =
    rw (unescape-byte c (query_escape s) hc, query_unescape-escape s h)

abbrev Lacks : ℕ → Bytes → Type 0
Lacks b = All (λ c. c ≢ b)

Lacks-of_safe : (s : Bytes) → All IsSafe s → Lacks b'&' s × Lacks b'=' s × Lacks b';' s
Lacks-of_safe [] h = (tt, tt, tt)
Lacks-of_safe (c ∷ s) (hc, h) =
    let (x, y, z) = Lacks-of_safe s h in ((hc.0, x), (hc.1, y), (hc.2, z))

cut-append :
    (sep : ℕ) (p rest : Bytes) → Lacks sep p → cut sep (p ++ sep ∷ rest) ≡ (p, split rest sep)
unfolding cut split
cut-append sep [] rest h = ground arith
cut-append sep (c ∷ p) rest h = ground (arith, cut-append sep p rest)

cut_whole : (sep : ℕ) (p : Bytes) → Lacks sep p → cut sep p ≡ (p, [])
unfolding cut
cut_whole sep [] h = refl
cut_whole sep (c ∷ p) h = ground (arith, cut_whole sep p)

cut_equals-append : (k v : Bytes) → Lacks b'=' k → cut_equals (k ++ b'=' ∷ v) ≡ (k, v)
unfolding cut_equals
cut_equals-append [] v h = ground arith
cut_equals-append (c ∷ k) v h = ground (arith, cut_equals-append k v)

not-contains : (s : Bytes) (b : ℕ) → Lacks b s → contains s (b ∷ []) ≡ false
unfolding contains index has_prefix
not-contains [] b h = refl
not-contains (c ∷ s) b h = ground (arith, not-contains s b)

pair_text : Bytes → Bytes → Bytes
pair_text k v = query_escape k ++ b'=' ∷ query_escape v

pair-Lacks :
    (k v : Bytes)
    → AreBytes k
    → AreBytes v
    → Lacks b'&' (pair_text k v) × Lacks b';' (pair_text k v)
unfolding pair_text
pair-Lacks k v hk hv =
    let (ka, ke, ks) = Lacks-of_safe (query_escape k) (query_escape-IsSafe k hk) in
    let (va, ve, vs) = Lacks-of_safe (query_escape v) (query_escape-IsSafe v hv) in
    (
      All-append _ (query_escape k) _ ka (omega arith, va),
      All-append _ (query_escape k) _ ks (omega arith, vs),
    )

ne-nil-append : (s r : Bytes) (c : ℕ) → same (s ++ c ∷ r) [] ≡ false
unfolding same
ne-nil-append [] r c = refl
ne-nil-append (d ∷ s) r c = refl

pair_text-ne-nil : (k v : Bytes) → same (pair_text k v) [] ≡ false
unfolding pair_text
pair_text-ne-nil k v = ne-nil-append (query_escape k) (query_escape v) b'='

cut_equals-pair :
    (k v : Bytes) → AreBytes k → cut_equals (pair_text k v) ≡ (query_escape k, query_escape v)
unfolding pair_text
cut_equals-pair k v hk =
    cut_equals-append (query_escape k) (query_escape v)
      (Lacks-of_safe (query_escape k) (query_escape-IsSafe k hk)).1

parse_parts-pair :
    (k v : Bytes) (ps : List Bytes)
    → AreBytes k
    → AreBytes v
    → parse_parts (pair_text k v ∷ ps) ≡ (k, v) ∷ parse_parts ps
unfolding parse_parts add_pair
parse_parts-pair k v ps hk hv = rw (
  pair_text-ne-nil k v,
  not-contains (pair_text k v) b';' (pair-Lacks k v hk hv).1,
  cut_equals-pair k v hk,
  query_unescape-escape k hk,
  query_unescape-escape v hv,
)

abbrev pub AreBytePairs : Values → Type 0
AreBytePairs = All (λ (e : Bytes × Bytes). AreBytes e.0 × AreBytes e.1)

parse_query-split : (s : Bytes) → parse_query s ≡ parse_parts (split s b'&')
unfolding parse_query
parse_query-split s = refl

parse_query-one : (p : Bytes) → Lacks b'&' p → parse_query p ≡ parse_parts (p ∷ [])
unfolding parse_query
parse_query-one p h = rw (cut_whole b'&' p h)

parse_query-more :
    (p rest : Bytes)
    → Lacks b'&' p
    → parse_query (p ++ b'&' ∷ rest) ≡ parse_parts (p ∷ split rest b'&')
unfolding parse_query
parse_query-more p rest h = rw (cut-append b'&' p rest h)

write-one : (k v : Bytes) → write_pairs ((k, v) ∷ []) ≡ pair_text k v
unfolding write_pairs pair_text
write-one k v = refl

write-more :
    (k v : Bytes) (e : Bytes × Bytes) (q : Values)
    → write_pairs ((k, v) ∷ e ∷ q) ≡ pair_text k v ++ b'&' ∷ write_pairs (e ∷ q)
unfolding write_pairs pair_text
write-more k v e q = sym (append_assoc (query_escape k) (b'=' ∷ query_escape v) _)

parse-write : (q : Values) → AreBytePairs q → parse_query (write_pairs q) ≡ q
parse-write [] h = unfold write_pairs parse_query in refl
parse-write ((k, v) ∷ []) ((hk, hv), _) =
    rw
      (
        write-one k v,
        parse_query-one (pair_text k v) (pair-Lacks k v hk hv).0,
        parse_parts-pair k v [] hk hv,
      )
      (unfold parse_parts in refl)
parse-write ((k, v) ∷ e ∷ q) ((hk, hv), h) = rw (
  write-more k v e q,
  parse_query-more (pair_text k v) (write_pairs (e ∷ q)) (pair-Lacks k v hk hv).0,
  parse_parts-pair k v (split (write_pairs (e ∷ q)) b'&') hk hv,
  ← parse_query-split (write_pairs (e ∷ q)),
  parse-write (e ∷ q) h,
)

insert_pair-All :
    (k v : Bytes) (q : Values)
    → AreBytes k
    → AreBytes v
    → AreBytePairs q
    → AreBytePairs (insert_pair k v q)
unfolding insert_pair
insert_pair-All k v [] hk hv h = ((hk, hv), tt)
insert_pair-All k v ((j, w) ∷ q) hk hv (h, hs) = ground (arith, insert_pair-All k v q)

sort_pairs-All : (q : Values) → AreBytePairs q → AreBytePairs (sort_pairs q)
unfolding sort_pairs
sort_pairs-All [] h = tt
sort_pairs-All ((k, v) ∷ q) ((hk, hv), h) =
    insert_pair-All k v (sort_pairs q) hk hv (sort_pairs-All q h)

lt_bytes_irrefl : (s : Bytes) → lt_bytes s s ≡ false
unfolding lt_bytes
lt_bytes_irrefl [] = refl
lt_bytes_irrefl (c ∷ s) = ground (arith, lt_bytes_irrefl s)

get-insert_pair :
    (k v x : Bytes) (q : Values)
    → query_get (insert_pair k v q) x ≡ (if same k x then v else query_get q x)
unfolding query_get insert_pair
get-insert_pair k v x [] = refl
get-insert_pair k v x ((j, w) ∷ q) =
    ground (arith, get-insert_pair k v x q, same_iff k x, same_iff j x, lt_bytes_irrefl k)

get-sort_pairs : (q : Values) (x : Bytes) → query_get (sort_pairs q) x ≡ query_get q x
unfolding sort_pairs query_get
get-sort_pairs [] x = refl
get-sort_pairs ((k, v) ∷ q) x = rw (get-insert_pair k v x (sort_pairs q), get-sort_pairs q x)

-- What `Encode` writes is read back as the same pairs, in the order of their keys.
pub parse-encode : (q : Values) → AreBytePairs q → parse_query (encode q) ≡ sort_pairs q
unfolding encode
parse-encode q h = parse-write (sort_pairs q) (sort_pairs-All q h)

-- Every key has the same first value before and after.
pub get-parse-encode :
    (q : Values) (x : Bytes) → AreBytePairs q → query_get (parse_query (encode q)) x ≡ query_get q x
get-parse-encode q x h = rw (parse-encode q h) (get-sort_pairs q x)
