-- ===== src/Json/Decode.antt =====
-- `json.Unmarshal` into the structs of the program, from a value that has been parsed.
-- Struct fields match keys without regard to case, the last match wins, and null changes nothing.
use px_smt_multirealm_shim.Common.{Option, none, some, List, [], ◌∷◌, if◌then◌else◌}
use px_smt_multirealm_shim.Bytes.{Bytes, same, to_lower}
use px_smt_multirealm_shim.Json.{Json, null, str, arr, obj, Items, nil, cons, Fields, field, end}

-- one field of a struct, through all the members of the object
unfoldable pub decode_field : {A : Type 0} → (Json → A → Option A) → Bytes → Fields → A → Option A
unfolding same to_lower
decode_field dec name end acc = some acc
decode_field dec name (field k v fs) acc =
    elim (if same (to_lower k) name then dec v acc else some acc) [
      | none ↦ none
      | some acc' ↦ decode_field dec name fs acc'
    ]

-- a Go `string`
unfoldable pub decode_string : Json → Bytes → Option Bytes
decode_string (str s) acc = some s
decode_string null acc = some acc
decode_string _ acc = none

unfoldable pub put_first : {A : Type 0} → Option A → Option (List A) → Option (List A)
put_first (some x) (some xs) = some (x ∷ xs)
put_first _ _ = none

unfoldable pub decode_items : {A : Type 0} → (Json → Option A) → Items → Option (List A)
unfolding put_first
decode_items dec nil = some []
decode_items dec (cons x xs) = put_first (dec x) (decode_items dec xs)

-- a slice; null is the empty one
unfoldable pub decode_slice : {A : Type 0} → (Json → Option A) → Json → List A → Option (List A)
unfolding decode_items
decode_slice dec (arr xs) acc = decode_items dec xs
decode_slice dec null acc = some []
decode_slice dec _ acc = none

-- a `[]string`
unfoldable pub decode_strings : Json → List Bytes → Option (List Bytes)
unfolding decode_slice decode_string
decode_strings = decode_slice (λ v. decode_string v [])

-- the members of a struct or a map; null leaves either empty
unfoldable pub members : Json → Option Fields
members (obj fs) = some fs
members null = some end
members _ = none
