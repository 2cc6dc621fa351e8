-- ===== src/Json.antt =====
-- JSON values as `encoding/json` holds them in `any`, and the text that `json.Marshal` writes.
pub mod Decode
use px_smt_multirealm_shim.Common.{
  ℕ, zero, suc, ◌+◌, ◌-◌, ◌/◌, ◌%◌, ◌≡◌, refl, Bool, true, false, ◌&&◌, ◌||◌, Option, none, some,
  List, [], ◌∷◌, ◌++◌, ltb, leb, ◌==◌, if◌then◌else◌,
}
use px_smt_multirealm_shim.Bytes.{Bytes, codes, same}

-- An object holds each key once; a number keeps its literal.
mutual
  pub data Json : Type 0 where
    null : Json
    bool : Bool → Json
    num : Bytes → Json
    str : Bytes → Json
    arr : Items → Json
    obj : Fields → Json

  pub data Items : Type 0 where
    nil : Items
    cons : Json → Items → Items

  pub data Fields : Type 0 where
    end : Fields
    field : Bytes → Json → Fields → Fields

-- m[k]
unfoldable pub member : Bytes → Fields → Option Json
member k end = none
member k (field j v fs) = if same j k then some v else member k fs

-- m[k] = v
unfoldable pub set_member : Bytes → Json → Fields → Fields
set_member k v end = field k v end
set_member k v (field j w fs) = if same j k then field j v fs else field j w (set_member k v fs)

-- a `[]string` as a JSON array
unfoldable pub strings : List Bytes → Items
strings [] = nil
strings (s ∷ ss) = cons (str s) (strings ss)

unfoldable pub hex_digit : ℕ → ℕ
hex_digit d = if ltb d 10 then b'0' + d else b'a' + (d - 10)

-- the escapes of the encoder for one ASCII byte; it also hides `<`, `>` and `&` from HTML
unfoldable pub escape_byte : ℕ → Bytes
unfolding hex_digit
escape_byte c =
    if c == b'"' || c == b'\\'
    then b'\\' ∷ c ∷ []
    else if c == 8
    then codes "\\b"
    else if c == 12
    then codes "\\f"
    else if c == 10
    then codes "\\n"
    else if c == 13
    then codes "\\r"
    else if c == 9
    then codes "\\t"
    else if ltb c 32 || c == b'<' || c == b'>' || c == b'&'
    then codes "\\u00" ++ hex_digit (c / 16) ∷ hex_digit (c % 16) ∷ []
    else c ∷ []

-- a byte in this range, and so many of UTF-8's later bytes behind it
unfoldable pub follows : ℕ → ℕ → ℕ → Bytes → Bool
follows lo hi k [] = false
follows lo hi zero (d ∷ s) = leb lo d && leb d hi
follows lo hi (suc k) (d ∷ s) = leb lo d && (leb d hi && follows 128 191 k s)

-- how many bytes of a character in UTF-8 follow its first, 0 if that begins no valid one
unfoldable pub rest_length : ℕ → Bytes → ℕ
unfolding follows
rest_length c s =
    if leb 194 c && leb c 223
    then (if follows 128 191 0 s then 1 else 0)
    else if c == 224
    then (if follows 160 191 1 s then 2 else 0)
    else if c == 237
    then (if follows 128 159 1 s then 2 else 0)
    else if leb 225 c && leb c 239
    then (if follows 128 191 1 s then 2 else 0)
    else if c == 240
    then (if follows 144 191 2 s then 3 else 0)
    else if leb 241 c && leb c 243
    then (if follows 128 191 2 s then 3 else 0)
    else if c == 244
    then (if follows 128 143 2 s then 3 else 0)
    else 0

-- U+2028 or U+2029 behind its first byte
unfoldable pub is_separator : Bytes → Bool
is_separator (d ∷ e ∷ _) = d == 128 && (e == 168 || e == 169)
is_separator _ = false

unfoldable pub separator_digit : Bytes → ℕ
separator_digit (_ ∷ e ∷ _) = b'8' + (e - 168)
separator_digit _ = b'8'

-- what is written for the character that begins with this byte, and how many bytes behind it are then
-- kept, and how many left out
unfoldable pub escape_rune : ℕ → Bytes → Bytes × ℕ × ℕ
unfolding escape_byte rest_length is_separator separator_digit
escape_rune c s =
    if ltb c 128
    then (escape_byte c, 0, 0)
    else if rest_length c s == 0
    then (codes "\\ufffd", 0, 0)
    else if c == 226 && is_separator s
    then (codes "\\u202" ++ separator_digit s ∷ [], 0, 2)
    else (c ∷ [], rest_length c s, 0)

unfoldable pub escape_from : ℕ → ℕ → Bytes → Bytes
unfolding escape_rune
escape_from keep drop [] = []
escape_from keep (suc drop) (c ∷ s) = escape_from keep drop s
escape_from (suc keep) zero (c ∷ s) = c ∷ escape_from keep zero s
escape_from zero zero (c ∷ s) =
    let (out, keep, drop) = escape_rune c s in out ++ escape_from keep drop s

unfoldable pub escape : Bytes → Bytes
unfolding escape_from
escape s = escape_from 0 0 s

unfoldable pub string_literal : Bytes → Bytes
unfolding escape
string_literal s = b'"' ∷ (escape s ++ b'"' ∷ [])

-- bytewise order, by which the encoder sorts the keys of a map
unfoldable pub lt_bytes : Bytes → Bytes → Bool
lt_bytes [] [] = false
lt_bytes [] (d ∷ t) = true
lt_bytes (c ∷ s) [] = false
lt_bytes (c ∷ s) (d ∷ t) = ltb c d || (c == d && lt_bytes s t)

-- The members of an object, already written, in the order of their keys.
unfoldable pub insert_member : Bytes → Bytes → List (Bytes × Bytes) → List (Bytes × Bytes)
unfolding lt_bytes
insert_member k v [] = (k, v) ∷ []
insert_member k v ((j, w) ∷ ms) =
    if lt_bytes j k then (j, w) ∷ insert_member k v ms else (k, v) ∷ (j, w) ∷ ms

unfoldable pub write_members : Bool → List (Bytes × Bytes) → Bytes
unfolding string_literal
write_members first [] = []
write_members first ((k, v) ∷ ms) =
    (if first then [] else b',' ∷ []) ++ string_literal k ++ b':' ∷ (v ++ write_members false ms)

-- `json.Marshal`
unfoldable mutual
  unfolding string_literal insert_member write_members

  pub marshal : Json → Bytes
  marshal null = codes "null"
  marshal (bool true) = codes "true"
  marshal (bool false) = codes "false"
  marshal (num n) = n
  marshal (str s) = string_literal s
  marshal (arr xs) = b'[' ∷ (marshal_items true xs ++ b']' ∷ [])
  marshal (obj fs) = b'{' ∷ (write_members true (marshal_fields fs) ++ b'}' ∷ [])

  pub marshal_items : Bool → Items → Bytes
  marshal_items first nil = []
  marshal_items first (cons x xs) =
      (if first then [] else b',' ∷ []) ++ marshal x ++ marshal_items false xs

  pub marshal_fields : Fields → List (Bytes × Bytes)
  marshal_fields end = []
  marshal_fields (field k v fs) = insert_member k (marshal v) (marshal_fields fs)

marshal_sorted :
    marshal (obj (field (codes "b") (bool true) (field (codes "a") (str (codes "<x")) end)))
    ≡ codes "{\"a\":\"\\u003cx\",\"b\":true}"
unfolding marshal
marshal_sorted = refl

-- U+2028, a byte that begins no character, and U+00E9
escaped_utf8 :
    escape (226 ∷ 128 ∷ 168 ∷ 255 ∷ 195 ∷ 169 ∷ []) ≡ codes "\\u2028\\ufffd" ++ 195 ∷ 169 ∷ []
unfolding escape
escaped_utf8 = refl
