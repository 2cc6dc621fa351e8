-- ===== src/Bytes/Number/Digits.antt =====
-- A number written with `%d` reads back, and ends at the first byte that is no digit.
use mathlib.Core.Bool.{true≢false}
use px_smt_multirealm_shim.Common.{
  ℕ, zero, suc, ◌+◌, ◌-◌, ◌*◌, ◌/◌, ◌%◌, ◌≤◌, ◌<◌, ◌≡◌, refl, ◌∙◌, ap, inl, inr, Bool-cases, true,
  false, some, [], ◌∷◌, ◌++◌, All, leb, arith,
}
use px_smt_multirealm_shim.Bytes.{Bytes}
use px_smt_multirealm_shim.Bytes.Number.{is_digit, digits_from, write_digits, decimal}

digits-digit :
    (a d : ℕ) (s : Bytes) → d < 10 → digits_from a ((b'0' + d) ∷ s) ≡ digits_from (a * 10 + d) s
unfolding digits_from is_digit
digits-digit a d s h = let back : b'0' + d - b'0' ≡ d = omega arith in ground (arith, h, back)

written_digits :
    (k n : ℕ) (out : Bytes) → n < k → digits_from 0 (write_digits k n out) ≡ digits_from n out
unfolding write_digits
written_digits zero n out h = absurd (omega (arith, h))
written_digits (suc k) n out h = elim (Bool-cases (leb n 9)) [
  | inl e ↦
      let small : n ≤ 9 = ground (arith, e) in
      rw e (
        digits-digit 0 (n % 10) out (omega arith)
        ∙ ap (λ x. digits_from x out) (omega (arith, small)))
  | inr e ↦
      let large : 9 < n = ground (arith, e) in
      rw e (
        written_digits k (n / 10) ((b'0' + n % 10) ∷ out) (omega (arith, h, large))
        ∙ digits-digit (n / 10) (n % 10) out (omega arith)
        ∙ ap (λ x. digits_from x out) (omega arith))
]

pub decimal_reads : (n : ℕ) → digits_from 0 (decimal n) ≡ some n
unfolding decimal digits_from
decimal_reads n = written_digits (suc n) n [] (omega arith)

pub decimal_injective : (m n : ℕ) → decimal m ≡ decimal n → m ≡ n
decimal_injective m n h = cc (decimal_reads m, decimal_reads n, h)

abbrev pub AreDigits : Bytes → Type 0
AreDigits = All (λ c. is_digit c ≡ true)

digits-AreDigits : (n m : ℕ) (s : Bytes) → digits_from n s ≡ some m → AreDigits s
unfolding digits_from
digits-AreDigits n m [] h = tt
digits-AreDigits n m (c ∷ s) h =
    (ground (arith, h), digits-AreDigits (n * 10 + (c - b'0')) m s (ground (arith, h)))

pub decimal-AreDigits : (n : ℕ) → AreDigits (decimal n)
decimal-AreDigits n = digits-AreDigits 0 n (decimal n) (decimal_reads n)

-- two rows of digits, in front of a byte that is none
cut_digits :
    (sep : ℕ) (s s' t t' : Bytes)
    → is_digit sep ≡ false
    → AreDigits s
    → AreDigits s'
    → s ++ sep ∷ t ≡ s' ++ sep ∷ t'
    → (s ≡ s') × (t ≡ t')
cut_digits sep [] [] t t' n h h' e = (refl, cc e)
cut_digits sep [] (c ∷ s') t t' n h h' e = absurd (true≢false (cc (h'.0, n, e)))
cut_digits sep (c ∷ s) [] t t' n h h' e = absurd (true≢false (cc (h.0, n, e)))
cut_digits sep (c ∷ s) (d ∷ s') t t' n h h' e =
    let rest = cut_digits sep s s' t t' n h.1 h'.1 (cc e) in (cc (e, rest.0), rest.1)

-- two numbers, in front of a byte that is no digit
pub cut_number :
    (sep m n : ℕ) (t t' : Bytes)
    → is_digit sep ≡ false
    → decimal m ++ sep ∷ t ≡ decimal n ++ sep ∷ t'
    → (m ≡ n) × (t ≡ t')
cut_number sep m n t t' h e =
    let cut =
      cut_digits sep (decimal m) (decimal n) t t' h (decimal-AreDigits m) (decimal-AreDigits n) e in
    (decimal_injective m n cut.0, cut.1)
