-- ===== src/Tests/Logs.antt =====
-- The log lines of one request, and what px gets when bodies are logged.
use mathlib.Core.Bool.{true≢false}
use mathlib.Core.List.{Permᴰ}
use px_smt_multirealm_shim.Common.{
  ℕ, ◌≡◌, refl, sym, ◌∙◌, subst, inl, inr, Bool-cases, length, Bool, true, false, none, some, [],
  ◌∷◌, ◌++◌, if◌then◌else◌,
}
use px_smt_multirealm_shim.Bytes.{Bytes, codes, same, same_iff, to_lower}
use px_smt_multirealm_shim.Bytes.Number.{decimal, pos}
use px_smt_multirealm_shim.Http.{Request, full, broken, Response}
use px_smt_multirealm_shim.Rewriter.Response.Length.{IsSized}
use px_smt_multirealm_shim.Proxy.{Upstream, fresh, receive}
use px_smt_multirealm_shim.Proxy.Complete.{
  IsWhole, IsExact, IsFaithful, receive-IsWhole, receive-IsExact,
}
use px_smt_multirealm_shim.Proxy.Log.{ellipsis, tail_of, shown_header}
use px_smt_multirealm_shim.Proxy.Log.Headers.{Header, joined, log_headers}
use px_smt_multirealm_shim.Proxy.Journal.{LogConfig, Incoming, request_id, responded, journal}
use px_smt_multirealm_shim.Proxy.Journal.Secret.{is_sensitive, AreAlike, journal_hides}
use px_smt_multirealm_shim.Tests.Data.{
  rewriter_a, list_volumes, volumes_response, upstream_a, parse_nothing,
}

-- the body of the array breaks off, and no length was stated
abbrev breaking : Upstream
breaking = record upstream_a {
  respond = λ (r : Request).
      some (record volumes_response { body = broken (codes "{"); content_length = none });
}

receive-IsWhole_example :
    IsWhole (receive parse_nothing rewriter_a breaking list_volumes (full (codes "")) fresh).0
receive-IsWhole_example =
    receive-IsWhole parse_nothing rewriter_a breaking list_volumes (full (codes "")) fresh refl

two_bytes : codes "2" ≡ decimal 2
unfolding decimal
two_bytes = refl

upstream-IsFaithful : IsFaithful upstream_a.respond
upstream-IsFaithful r resp e =
    let same_response : volumes_response ≡ resp = cc e in
    subst (λ (x : Response). IsSized x) same_response (refl, two_bytes)

closed-IsFaithful : IsFaithful upstream_a.respond_closed
closed-IsFaithful r resp e = absurd (cc e)

receive-IsExact_example :
    IsExact (receive parse_nothing rewriter_a upstream_a list_volumes (full (codes "")) fresh).0
receive-IsExact_example =
    receive-IsExact parse_nothing rewriter_a upstream_a list_volumes (full (codes "")) fresh
      upstream-IsFaithful closed-IsFaithful

-- the token of one session, or of another
abbrev with_token : Bytes → Header
with_token token = record {
  keys = codes "X-Auth-Token" ∷ codes "Accept" ∷ [];
  values = λ (k : Bytes). if same k (codes "X-Auth-Token") then token ∷ [] else codes "*/*" ∷ [];
}

abbrev two_orders :
    Permᴰ (codes "X-Auth-Token" ∷ codes "Accept" ∷ []) (codes "Accept" ∷ codes "X-Auth-Token" ∷ [])
two_orders = Permᴰ.swap refl refl

both_shown :
    log_headers (codes "r1") (codes ">>>") (with_token (codes "0123456789"))
    ≡ codes "[r1] >>>   Accept: */*"
      ∷ (codes "[r1] >>>   X-Auth-Token: <redacted len=10 " ++ ellipsis ++ codes "6789>")
      ∷ []
unfolding log_headers same shown_header
both_shown = refl

seventh : request_id 7 ≡ codes "r000007"
unfolding request_id
seventh = refl

abbrev late : ℕ
late = 1000007

abbrev log_cfg : LogConfig
log_cfg = record { log_bodies = true; max_log_body_bytes = pos 100; indent = λ (b : Bytes). none }

abbrev arrived : Incoming
arrived = record {
  method = codes "GET";
  uri = codes "/api/2.4/volumes";
  path = codes "/api/2.4/volumes";
  host = codes "r1.example";
  remote = codes "10.0.0.1:5";
  header = with_token (codes "0123456789");
  body = codes "";
}

abbrev token_name : Bytes
token_name = codes "X-Auth-Token"

token_sensitive : is_sensitive token_name ≡ true
unfolding same to_lower
token_sensitive = refl

-- a key that is not the token's
other_plain : (k : Bytes) → is_sensitive k ≡ false → same k token_name ≡ false
other_plain k e = elim (Bool-cases (same k token_name)) [
  | inl s ↦
      let here : is_sensitive k ≡ true =
        subst (λ x. is_sensitive x ≡ true) (sym ((same_iff k token_name).0 s)) token_sensitive in
      absurd (true≢false (sym here ∙ e))
  | inr s ↦ s
]

abbrev token_or : Bytes → Bool → Bytes
token_or token b = joined (if b then token ∷ [] else codes "*/*" ∷ [])

lengths_agree :
    (b : Bool) → length (token_or (codes "0123456789") b) ≡ length (token_or (codes "abcdef6789") b)
unfolding joined
lengths_agree true = refl
lengths_agree false = refl

tails_agree :
    (b : Bool)
    → tail_of (token_or (codes "0123456789") b) ≡ tail_of (token_or (codes "abcdef6789") b)
unfolding joined tail_of
tails_agree true = refl
tails_agree false = refl

tokens-AreAlike : AreAlike (with_token (codes "0123456789")) (with_token (codes "abcdef6789"))
tokens-AreAlike = record {
  keys = refl;
  plain = λ k e. rw (other_plain k e) refl;
  lengths = λ k e. lengths_agree (same k token_name);
  tails = λ k e. tails_agree (same k token_name);
}

journal_hides_example :
    journal log_cfg 7 arrived
      (responded (codes "200 OK") (with_token (codes "0123456789")) (full (codes "{}")) [])
    ≡ journal log_cfg 7
        (record arrived { header = with_token (codes "abcdef6789") })
        (responded (codes "200 OK") (with_token (codes "abcdef6789")) (full (codes "{}")) [])
journal_hides_example =
    journal_hides log_cfg 7 arrived (codes "200 OK") (full (codes "{}")) []
      (with_token (codes "0123456789")) (with_token (codes "abcdef6789"))
      (with_token (codes "0123456789")) (with_token (codes "abcdef6789")) tokens-AreAlike
      tokens-AreAlike
