-- ===== src/Cleaner/Parse.antt =====
-- `parseMultipath`.
use px_smt_multirealm_shim.Common.{
  ℕ, ◌^◌, false, Option, none, some, List, [], ◌∷◌, ◌++◌, ltb, ◌==◌, if◌then◌else◌, length,
}
use px_smt_multirealm_shim.Bytes.{Bytes}
use px_smt_multirealm_shim.Cleaner.{MpMap}
use px_smt_multirealm_shim.Cleaner.Match.{match_alias, match_plain, find_path}

unfoldable pub push : ℕ → List Bytes → List Bytes
push c [] = (c ∷ []) ∷ []
push c (l ∷ ls) = (c ∷ l) ∷ ls

-- the lines without their line feeds; a last line without one counts if it is not empty
unfoldable pub raw_lines : Bytes → List Bytes
unfolding push
raw_lines [] = []
raw_lines (c ∷ s) = let rest = raw_lines s in if c == b'\n' then [] ∷ rest else push c rest

unfoldable pub drop_return : Bytes → Bytes
drop_return [] = []
drop_return (c ∷ []) = if c == b'\r' then [] else c ∷ []
drop_return (c ∷ d ∷ s) = c ∷ drop_return (d ∷ s)

-- A `bufio.Scanner` stops at a line of 64 KiB.
unfoldable pub scan_lines : List Bytes → List Bytes
unfolding drop_return
scan_lines [] = []
scan_lines (l ∷ ls) =
    let rest = scan_lines ls in if ltb (length l) (2 ^ 16) then drop_return l ∷ rest else []

unfoldable pub header : Bytes → Option MpMap
unfolding match_alias match_plain
header line = elim (match_alias line) [ some m ↦ some m | none ↦ match_plain line ]

-- `maps = append(maps, *cur)`, if there is a current map
unfoldable pub flush : Option MpMap → List MpMap → List MpMap
flush none ms = ms
flush (some m) ms = m ∷ ms

unfoldable pub add_path : Option Bytes → MpMap → MpMap
add_path none m = m
add_path (some dev) m = record m { paths = m.paths ++ dev ∷ [] }

unfoldable pub add_line : Bytes → Option MpMap → Option MpMap
unfolding find_path add_path
add_line line none = none
add_line line (some m) = some (add_path (find_path false line) m)

-- The maps that the lines add behind the current one.
unfoldable pub parse_lines : Option MpMap → List Bytes → List MpMap
parse_lines cur [] = flush cur []
parse_lines cur (l ∷ ls) = elim (header l) [
  | some m ↦ flush cur (parse_lines (some m) ls)
  | none ↦ parse_lines (add_line l cur) ls
]

unfoldable pub parse_multipath : Bytes → List MpMap
unfolding parse_lines header flush add_line scan_lines raw_lines
parse_multipath out = parse_lines none (scan_lines (raw_lines out))
