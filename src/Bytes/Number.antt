-- ===== src/Bytes/Number.antt =====
-- `strconv.Atoi` on a machine with 64-bit integers.
pub mod Digits
use px_smt_multirealm_shim.Common.{
  ℕ, zero, suc, ◌+◌, ◌-◌, ◌*◌, ◌^◌, ◌/◌, ◌%◌, Bool, ◌&&◌, Option, none, some, [], ◌∷◌, leb, ◌==◌,
  if◌then◌else◌,
}
use px_smt_multirealm_shim.Bytes.{Bytes}

-- `negsuc n` is -(n + 1).
pub data ℤ : Type 0 where
  pos : ℕ → ℤ
  negsuc : ℕ → ℤ

unfoldable pub is_digit : ℕ → Bool
is_digit c = leb b'0' c && leb c b'9'

-- the value of a row of digits behind `n`
unfoldable pub digits_from : ℕ → Bytes → Option ℕ
unfolding is_digit
digits_from n [] = some n
digits_from n (c ∷ s) =
    let rest = digits_from (n * 10 + (c - b'0')) s in if is_digit c then rest else none

-- one digit or more
unfoldable pub digits_of : Bytes → Option ℕ
unfolding digits_from
digits_of [] = none
digits_of (c ∷ s) = digits_from 0 (c ∷ s)

unfoldable pub to_positive : Option ℕ → Option ℤ
to_positive none = none
to_positive (some n) = if leb n (2 ^ 63 - 1) then some (pos n) else none

unfoldable pub negate : ℕ → ℤ
negate zero = pos zero
negate (suc n) = negsuc n

unfoldable pub to_negative : Option ℕ → Option ℤ
unfolding negate
to_negative none = none
to_negative (some n) = if leb n (2 ^ 63) then some (negate n) else none

-- none is the error
unfoldable pub atoi : Bytes → Option ℤ
unfolding digits_of to_positive to_negative
atoi [] = none
atoi (c ∷ s) =
    if c == b'-'
    then to_negative (digits_of s)
    else if c == b'+'
    then to_positive (digits_of s)
    else to_positive (digits_of (c ∷ s))

-- the digits behind `n`; a number that does not fit in 64 bits ends the reading
unfoldable pub scan_digits : ℕ → Bytes → Option ℕ
unfolding is_digit
scan_digits n [] = some n
scan_digits n (c ∷ s) =
    let next = n * 10 + (c - b'0') in
    let rest = scan_digits next s in
    if is_digit c then (if leb next (2 ^ 64 - 1) then rest else some (2 ^ 64 - 1)) else none

unfoldable pub scan_number : Bytes → Option ℕ
unfolding scan_digits
scan_number [] = none
scan_number (c ∷ s) = scan_digits 0 (c ∷ s)

unfoldable pub clamp_positive : Option ℕ → ℤ
clamp_positive none = pos 0
clamp_positive (some n) = pos (if leb n (2 ^ 63 - 1) then n else 2 ^ 63 - 1)

unfoldable pub clamp_negative : Option ℕ → ℤ
unfolding negate
clamp_negative none = pos 0
clamp_negative (some n) = negate (if leb n (2 ^ 63) then n else 2 ^ 63)

-- the value that `Atoi` returns beside the error: 0, or the bound that was passed
unfoldable pub atoi_value : Bytes → ℤ
unfolding scan_number clamp_positive clamp_negative
atoi_value [] = pos 0
atoi_value (c ∷ s) =
    if c == b'-'
    then clamp_negative (scan_number s)
    else if c == b'+'
    then clamp_positive (scan_number s)
    else clamp_positive (scan_number (c ∷ s))

-- the digits in front of those written; the first argument bounds their number
unfoldable pub write_digits : ℕ → ℕ → Bytes → Bytes
write_digits zero n out = out
write_digits (suc k) n out =
    let rest = write_digits k (n / 10) ((b'0' + n % 10) ∷ out) in
    if leb n 9 then (b'0' + n % 10) ∷ out else rest

-- `strconv.Itoa` and `%d`; a number has at most as many digits as its value and one
unfoldable pub decimal : ℕ → Bytes
unfolding write_digits
decimal n = write_digits (suc n) n []
