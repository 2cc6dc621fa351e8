-- ===== src/Bytes/Split.antt =====
-- `strings.Split`, `strings.TrimSpace` and the comma-separated lists of `splitCSV`.
use px_smt_multirealm_shim.Common.{ℕ, Bool, ◌||◌, ◌&&◌, List, [], ◌∷◌, leb, ◌==◌, if◌then◌else◌}
use px_smt_multirealm_shim.Bytes.{Bytes, same}

-- The first part and the others.
unfoldable pub cut : ℕ → Bytes → Bytes × List Bytes
cut sep [] = ([], [])
cut sep (c ∷ s) =
    let (head, parts) = cut sep s in if c == sep then ([], head ∷ parts) else (c ∷ head, parts)

-- `strings.Split(s, sep)` at a separator of one byte
unfoldable pub split : Bytes → ℕ → List Bytes
unfolding cut
split s sep = let (head, parts) = cut sep s in head ∷ parts

-- the white space of ASCII: tab, line feed, vertical tab, form feed, carriage return, space
unfoldable pub is_space : ℕ → Bool
is_space c = (leb 9 c && leb c 13) || c == 32

unfoldable pub trim_left : Bytes → Bytes
unfolding is_space
trim_left [] = []
trim_left (c ∷ s) = if is_space c then trim_left s else c ∷ s

unfoldable pub trim_right : Bytes → Bytes
unfolding is_space
trim_right [] = []
trim_right (c ∷ s) = let rest = trim_right s in if same rest [] && is_space c then [] else c ∷ rest

unfoldable pub trim_space : Bytes → Bytes
unfolding trim_left trim_right same
trim_space s = trim_right (trim_left s)
