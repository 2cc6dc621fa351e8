-- ===== src/Proxy/Journal/Secret.antt =====
-- What the log tells of the headers that hold tokens and cookies.
use mathlib.Core.Path.{ap₂}
use px_smt_multirealm_shim.Common.{
  ℕ, ◌≡◌, refl, ap, Bool, true, false, inl, inr, Bool-cases, List, [], ◌∷◌, ◌++◌, any, length,
  arith,
}
use px_smt_multirealm_shim.Bytes.{Bytes, codes, same, to_lower}
use px_smt_multirealm_shim.Bytes.Number.{decimal}
use px_smt_multirealm_shim.Http.{Body, full, broken}
use px_smt_multirealm_shim.Proxy.Log.{sensitive_headers, ellipsis, tail_of, redact, shown_header}
use px_smt_multirealm_shim.Proxy.Log.Headers.{
  Header, joined, header_line, header_lines, log_headers,
}
use px_smt_multirealm_shim.Proxy.Journal.{
  LogConfig, Incoming, header_get, log_request, responded, response_body_lines, log_outcome,
  request_id, journal,
}

abbrev pub is_sensitive : Bytes → Bool
is_sensitive key = any (same (to_lower key)) sensitive_headers

-- two headers that differ in the values of sensitive keys only, and there not in length or last bytes
pub record AreAlike (h g : Header) : Type 0 where
  pub keys : h.keys ≡ g.keys
  pub plain : (k : Bytes) → is_sensitive k ≡ false → h.values k ≡ g.values k
  pub lengths :
      (k : Bytes)
      → is_sensitive k ≡ true
      → length (joined (h.values k)) ≡ length (joined (g.values k))
  pub tails :
      (k : Bytes)
      → is_sensitive k ≡ true
      → tail_of (joined (h.values k)) ≡ tail_of (joined (g.values k))

redact_alike : (v w : Bytes) → length v ≡ length w → tail_of v ≡ tail_of w → redact v ≡ redact w
unfolding redact same
redact_alike [] [] e t = refl
redact_alike [] (d ∷ w) e t = absurd (omega (arith, e))
redact_alike (c ∷ v) [] e t = absurd (omega (arith, e))
redact_alike (c ∷ v) (d ∷ w) e t =
    ap₂ (λ n s. codes "<redacted len=" ++ decimal n ++ codes " " ++ ellipsis ++ s ++ codes ">") e t

module _ {h g : Header} (alike : AreAlike h g) where
  shown_alike :
      (k : Bytes) → shown_header k (joined (h.values k)) ≡ shown_header k (joined (g.values k))
  unfolding shown_header
  shown_alike k = elim (Bool-cases (is_sensitive k)) [
    | inl e ↦ rw e (redact_alike _ _ (alike.lengths k e) (alike.tails k e))
    | inr e ↦ rw e (ap joined (alike.plain k e))
  ]

  lines_alike :
      (id dir : Bytes) (ks : List Bytes)
      → header_lines id dir h.values ks ≡ header_lines id dir g.values ks
  unfolding header_lines header_line
  lines_alike id dir [] = refl
  lines_alike id dir (k ∷ ks) = rw (shown_alike k, lines_alike id dir ks) refl

  headers_alike : (id dir : Bytes) → log_headers id dir h ≡ log_headers id dir g
  unfolding log_headers
  headers_alike id dir = rw alike.keys (lines_alike id dir _)

  get_alike : (k : Bytes) → is_sensitive k ≡ false → header_get h k ≡ header_get g k
  unfolding header_get
  get_alike k e = rw (alike.plain k e, header_get) refl

plain_type : is_sensitive (codes "Content-Type") ≡ false
unfolding same to_lower
plain_type = refl

response_alike :
    (cfg : LogConfig) (id : Bytes) {h g : Header} (body : Body) (error : Bytes)
    → AreAlike h g
    → response_body_lines cfg id h body error ≡ response_body_lines cfg id g body error
unfolding response_body_lines
response_alike cfg id (full b) error alike =
    rw (get_alike alike (codes "Content-Type") plain_type) refl
response_alike cfg id (broken _) error alike = refl

-- Of a token or cookie in a header, in a request and in the response to it, the log tells the length and
-- the last bytes, and nothing else.
pub journal_hides :
    (cfg : LogConfig) (n : ℕ) (r : Incoming) (status : Bytes) (body : Body) (error : Bytes)
    (h h' g g' : Header)
    → AreAlike h h'
    → AreAlike g g'
    → journal cfg n (record r { header = h }) (responded status g body error)
      ≡ journal cfg n (record r { header = h' }) (responded status g' body error)
unfolding journal log_request log_outcome
journal_hides cfg n r status body error h h' g g' a b =
    rw
      (
        headers_alike a (request_id n) (codes ">>>"),
        headers_alike b (request_id n) (codes "<<<"),
        get_alike a (codes "Content-Type") plain_type,
        response_alike cfg (request_id n) body error b,
      )
      refl
