-- ===== src/Bytes/Quoted.antt =====
-- `ReplaceAll` of one quoted text by another in a JSON body.
-- A body is a row of pieces: a gap of punctuation, and a text between two quotes.
use px_smt_multirealm_shim.Common.{
  ℕ, ◌-◌, ◌≡◌, ◌≢◌, refl, true, false, List, [], ◌∷◌, ◌++◌, map, arith, append_assoc, length, All,
  if◌then◌else◌, Bool-cases, inl, inr,
}
use px_smt_multirealm_shim.Bytes.{Bytes, same, same_iff, has_prefix}
use px_smt_multirealm_shim.Bytes.Replace.{replace_from, replace_all}

-- the double quote
abbrev pub quote : ℕ
quote = 34

abbrev pub quoted : Bytes → Bytes
quoted t = quote ∷ (t ++ quote ∷ [])

abbrev pub NoQuote : Bytes → Type 0
NoQuote = All (λ c. c ≢ quote)

pub record Piece : Type 0 where
  pub gap : Bytes
  pub text : Bytes

unfoldable pub render : List Piece → Bytes → Bytes
render [] end = end
render (p ∷ ps) end = p.gap ++ quote ∷ (p.text ++ quote ∷ render ps end)

unfoldable pub rename : Bytes → Bytes → Piece → Piece
rename old new p = if same p.text old then record p { text = new } else p

-- No quote inside the gap or the text, and the gap does not read like `old`.
pub record IsPlain (old : Bytes) (p : Piece) : Type 0 where
  pub gap_plain : NoQuote p.gap
  pub text_plain : NoQuote p.text
  pub gap_differs : same p.gap old ≡ false

has_prefix-closed :
    (t k r : Bytes)
    → NoQuote t
    → NoQuote k
    → has_prefix (t ++ quote ∷ r) (k ++ quote ∷ []) ≡ same t k
unfolding has_prefix same
has_prefix-closed [] [] r ht hk = ground arith
has_prefix-closed [] (d ∷ k) r ht hk = ground arith
has_prefix-closed (c ∷ t) [] r ht hk = ground arith
has_prefix-closed (c ∷ t) (d ∷ k) r ht hk = ground (arith, has_prefix-closed t k r)

has_prefix-open : (t k : Bytes) → NoQuote t → has_prefix t (k ++ quote ∷ []) ≡ false
unfolding has_prefix
has_prefix-open [] [] ht = refl
has_prefix-open [] (d ∷ k) ht = refl
has_prefix-open (c ∷ t) [] ht = ground arith
has_prefix-open (c ∷ t) (d ∷ k) ht = ground (arith, has_prefix-open t k)

module _ (k new : Bytes) where
  abbrev swap : ℕ → Bytes → Bytes
  swap = replace_from (quoted k) new

  swap_gap : (gap r : Bytes) → NoQuote gap → swap 0 (gap ++ r) ≡ gap ++ swap 0 r
  unfolding replace_from has_prefix
  swap_gap [] r h = refl
  swap_gap (c ∷ gap) r h = ground (arith, swap_gap gap r)

  swap_skip : (t r : Bytes) → swap (length t) (t ++ r) ≡ swap 0 r
  unfolding replace_from
  swap_skip [] r = refl
  swap_skip (c ∷ t) r = swap_skip t r

  swap_hit :
      (t rest : Bytes)
      → NoQuote t
      → NoQuote k
      → same t k ≡ true
      → swap 0 (quote ∷ (t ++ quote ∷ rest)) ≡ new ++ swap 0 rest
  unfolding replace_from has_prefix
  swap_hit t rest ht hk e =
      let t≡k : t ≡ k = (same_iff t k).0 e in
      let skip : length (quoted k) - 1 ≡ length (k ++ quote ∷ []) = omega arith in
      let join : t ++ quote ∷ rest ≡ (k ++ quote ∷ []) ++ rest = rw (t≡k, append_assoc) in
      rw (has_prefix-closed t k rest ht hk, e, skip, join, swap_skip (k ++ quote ∷ []) rest)

  swap_miss :
      (t rest : Bytes)
      → NoQuote t
      → NoQuote k
      → same t k ≡ false
      → has_prefix rest (k ++ quote ∷ []) ≡ false
      → swap 0 (quote ∷ (t ++ quote ∷ rest)) ≡ quote ∷ (t ++ quote ∷ swap 0 rest)
  unfolding replace_from has_prefix
  swap_miss t rest ht hk e next =
      rw (has_prefix-closed t k rest ht hk, e, swap_gap t (quote ∷ rest) ht, next)

  has_prefix-render :
      (ps : List Piece) (end : Bytes)
      → NoQuote k
      → All (IsPlain k) ps
      → NoQuote end
      → has_prefix (render ps end) (k ++ quote ∷ []) ≡ false
  unfolding render
  has_prefix-render [] end hk hp he = has_prefix-open end k he
  has_prefix-render (p ∷ ps) end hk (hp, hps) he =
      rw (has_prefix-closed p.gap k _ hp.gap_plain hk) hp.gap_differs

  swap_end : (end : Bytes) → NoQuote end → swap 0 end ≡ end
  unfolding replace_from has_prefix
  swap_end [] h = refl
  swap_end (c ∷ end) h = ground (arith, swap_end end)

module _ (k v : Bytes) (hk : NoQuote k) where
  swap-render :
      (ps : List Piece) (end : Bytes)
      → All (IsPlain k) ps
      → NoQuote end
      → replace_from (quoted k) (quoted v) 0 (render ps end) ≡ render (map (rename k v) ps) end
  unfolding render rename
  swap-render [] end hp he = swap_end k (quoted v) end he
  swap-render (p ∷ ps) end (hp, hps) he = elim (Bool-cases (same p.text k)) [
    | inl e ↦
        rw
          (
            swap_gap k (quoted v) p.gap _ hp.gap_plain,
            swap_hit k (quoted v) p.text _ hp.text_plain hk e,
            swap-render ps end hps he,
            e,
          )
          (rw (append_assoc))
    | inr e ↦ rw (
      swap_gap k (quoted v) p.gap _ hp.gap_plain,
      swap_miss k (quoted v) p.text _ hp.text_plain hk e
          (has_prefix-render k (quoted v) ps end hk hps he),
      swap-render ps end hps he,
      e,
    )
  ]

-- Replacing a quoted text renames exactly the pieces that hold it.
pub replace_all-quoted :
    (k v : Bytes) (ps : List Piece) (end : Bytes)
    → NoQuote k
    → All (IsPlain k) ps
    → NoQuote end
    → replace_all (render ps end) (quoted k) (quoted v) ≡ render (map (rename k v) ps) end
unfolding replace_all
replace_all-quoted k v ps end hk hp he = swap-render k v hk ps end hp he
