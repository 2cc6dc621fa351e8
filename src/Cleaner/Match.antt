-- ===== src/Cleaner/Match.antt =====
-- The three regular expressions, as matchers of a line. Each run of a class ends where the next part
-- of the expression cannot begin, so that the longest run is the only one that can match.
use px_smt_multirealm_shim.Common.{
  ℕ, Bool, true, ◌&&◌, ◌||◌, not, Option, none, some, [], ◌∷◌, ◌++◌, leb, ◌==◌, if◌then◌else◌,
  length,
}
use px_smt_multirealm_shim.Bytes.{Bytes, codes, to_lower}
use px_smt_multirealm_shim.Bytes.Number.{is_digit}
use px_smt_multirealm_shim.Cleaner.{MpMap}

infixl 10 ◌>>=◌
abbrev ◌>>=◌ : {A B : Type 0} → Option A → (A → Option B) → Option B
none >>= f = none
some a >>= f = f a

-- `\s`
unfoldable pub is_blank : ℕ → Bool
is_blank c = c == 9 || c == 10 || c == 12 || c == 13 || c == 32

unfoldable pub is_solid : ℕ → Bool
unfolding is_blank
is_solid c = not (is_blank c)

unfoldable pub is_hex : ℕ → Bool
is_hex c = (leb b'0' c && leb c b'9') || (leb b'a' c && leb c b'f') || (leb b'A' c && leb c b'F')

unfoldable pub is_lower : ℕ → Bool
is_lower c = leb b'a' c && leb c b'z'

-- `\w`
unfoldable pub is_word : ℕ → Bool
unfolding is_lower is_digit
is_word c = is_digit c || is_lower c || (leb b'A' c && leb c b'Z') || c == b'_'

-- the longest run of a class, and what stands behind it
unfoldable pub span : (ℕ → Bool) → Bytes → Bytes × Bytes
span p [] = ([], [])
span p (c ∷ s) = let (run, rest) = span p s in if p c then (c ∷ run, rest) else ([], c ∷ s)

-- a run of at least so many
unfoldable pub run_of : (ℕ → Bool) → ℕ → Bytes → Option (Bytes × Bytes)
unfolding span
run_of p n s = let (run, rest) = span p s in if leb n (length run) then some (run, rest) else none

unfoldable pub literal : Bytes → Bytes → Option Bytes
literal [] s = some s
literal (c ∷ t) [] = none
literal (c ∷ t) (d ∷ s) = let rest = literal t s in if c == d then rest else none

-- `dm-\d+\s+\S+`: the device, and the vendor
unfoldable pub match_device : Bytes → Option (Bytes × Bytes)
unfolding literal run_of is_digit is_blank is_solid
match_device s = do
  rest ← literal (codes "dm-") s
  number ← run_of is_digit 1 rest
  gap ← run_of is_blank 1 number.1
  vendor ← run_of is_solid 1 gap.1
  some (codes "dm-" ++ number.0, vendor.0)

-- `reHeaderAlias`
unfoldable pub match_alias : Bytes → Option MpMap
unfolding match_device is_hex to_lower
match_alias line = do
  name ← run_of is_solid 1 line
  gap ← run_of is_blank 1 name.1
  inner ← literal (codes "(") gap.1
  wwid ← run_of is_hex 20 inner
  outer ← literal (codes ")") wwid.1
  gap' ← run_of is_blank 1 outer
  device ← match_device gap'.1
  some (record {
    name = name.0;
    wwid = to_lower wwid.0;
    dm = device.0;
    vendor = device.1;
    paths = [];
  })

-- `reHeaderPlain`
unfoldable pub match_plain : Bytes → Option MpMap
unfolding match_device is_hex to_lower
match_plain line = do
  wwid ← run_of is_hex 20 line
  gap ← run_of is_blank 1 wwid.1
  device ← match_device gap.1
  some (record {
    name = wwid.0;
    wwid = to_lower wwid.0;
    dm = device.0;
    vendor = device.1;
    paths = [];
  })

-- `\b` behind a letter
unfoldable pub at_boundary : Bytes → Bool
unfolding is_word
at_boundary [] = true
at_boundary (c ∷ s) = not (is_word c)

-- `\d+:\d+:\d+:\d+\s+(sd[a-z]+)\b` where it begins
unfoldable pub match_path_here : Bytes → Option Bytes
unfolding literal run_of is_digit is_blank is_lower at_boundary
match_path_here s = do
  a ← run_of is_digit 1 s
  s1 ← literal (codes ":") a.1
  b ← run_of is_digit 1 s1
  s2 ← literal (codes ":") b.1
  c ← run_of is_digit 1 s2
  s3 ← literal (codes ":") c.1
  d ← run_of is_digit 1 s3
  gap ← run_of is_blank 1 d.1
  s4 ← literal (codes "sd") gap.1
  letters ← run_of is_lower 1 s4
  if at_boundary letters.1 then some (codes "sd" ++ letters.0) else none

unfoldable pub first_of_two : Option Bytes → Option Bytes → Option Bytes
first_of_two (some d) rest = some d
first_of_two none rest = rest

-- `rePath`, at the first place where it matches; the flag says that a word character stands in front.
unfoldable pub find_path : Bool → Bytes → Option Bytes
unfolding match_path_here is_word first_of_two
find_path inside [] = none
find_path inside (c ∷ s) =
    let rest = find_path (is_word c) s in
    if inside then rest else first_of_two (match_path_here (c ∷ s)) rest
