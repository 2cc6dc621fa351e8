-- ===== src/Identity/Synth.antt =====
-- The synthetic identities: their form, when two FQDNs share one, and what a body shows of them.
use native.Mathlib.Nat.{pow-suc}
use px_smt_multirealm_shim.Common.{
  ℕ, zero, suc, ◌+◌, ◌/◌, ◌%◌, ◌^◌, ◌<◌, ◌≤◌, ◌≡◌, ◌≢◌, ◌↔◌, refl, ap, subst, sym, ◌∙◌, some, List,
  [], ◌∷◌, ◌++◌, map, arith, All, length, length-append, take, take-append, append-left,
  append_assoc,
}
use px_smt_multirealm_shim.Bytes.{Bytes, codes, index, has_prefix}
use px_smt_multirealm_shim.Bytes.Replace.{replace_all}
use px_smt_multirealm_shim.Bytes.Quoted.{
  quoted, NoQuote, Piece, IsPlain, render, rename, replace_all-quoted,
}
use px_smt_multirealm_shim.Json.{hex_digit}
use px_smt_multirealm_shim.Rewriter.{Identity}
use px_smt_multirealm_shim.Rewriter.Response.MapBack.{rename-IsPlain}
use px_smt_multirealm_shim.Identity.{
  fnv64a, hex_padded, label_of, id_prefix, synth_identity, hide_identity,
}

hex_padded-append : (k n : ℕ) (out : Bytes) → hex_padded k n out ≡ hex_padded k n [] ++ out
unfolding hex_padded
hex_padded-append zero n out = refl
hex_padded-append (suc k) n out =
    hex_padded-append k (n / 16) (hex_digit (n % 16) ∷ out)
    ∙ sym (
        ap (λ s. s ++ out) (hex_padded-append k (n / 16) (hex_digit (n % 16) ∷ []))
        ∙ append_assoc (hex_padded k (n / 16) []) (hex_digit (n % 16) ∷ []) out)

length-hex_padded : (k n : ℕ) (out : Bytes) → length (hex_padded k n out) ≡ k + length out
unfolding hex_padded
length-hex_padded zero n out = omega arith
length-hex_padded (suc k) n out =
    omega (arith, length-hex_padded k (n / 16) (hex_digit (n % 16) ∷ out))

hex_digit_injective : (d e : ℕ) → d < 16 → e < 16 → hex_digit d ≡ hex_digit e → d ≡ e
unfolding hex_digit
hex_digit_injective d e hd he h = ground arith

hex_padded_injective :
    (k n m : ℕ) (out out' : Bytes)
    → n < 16 ^ k
    → m < 16 ^ k
    → hex_padded k n out ≡ hex_padded k m out'
    → (n ≡ m) × (out ≡ out')
unfolding hex_padded
hex_padded_injective zero n m out out' hn hm h = (omega arith, h)
hex_padded_injective (suc k) n m out out' hn hm h = ground (
  arith,
  pow-suc 16 k,
  hex_digit_injective (n % 16) (m % 16),
  hex_padded_injective k (n / 16) (m / 16) (hex_digit (n % 16) ∷ out) (hex_digit (m % 16) ∷ out'),
)

-- the part of the hash that an id shows
abbrev pub shown_hash : Bytes → ℕ
shown_hash fqdn = fnv64a fqdn % 2 ^ 48

length-take : (n : ℕ) (s : Bytes) → n ≤ length s → length (take n s) ≡ n
length-take zero s h = refl
length-take (suc n) [] h = elim h [ ]
length-take (suc n) (c ∷ s) h = ap suc (length-take n s (omega arith))

-- The id made for an array whose id is a UUID has the length of one: its first 24 bytes, and 12 more.
pub length-synth_id :
    (real : Identity) (fqdn : Bytes)
    → length real.id ≡ 36
    → (length (synth_identity real fqdn).id ≡ 36)
      × (take 24 (synth_identity real fqdn).id ≡ take 24 real.id)
unfolding synth_identity
length-synth_id real fqdn h =
    let short : id_prefix real.id ≡ take 24 real.id = unfold id_prefix in ground arith in
    let head : length (take 24 real.id) ≡ 24 = length-take 24 real.id (omega arith) in
    rw short (
      omega (
        arith,
        length-append (take 24 real.id) (hex_padded 12 (shown_hash fqdn) []),
        length-hex_padded 12 (shown_hash fqdn) [],
        head,
      ),
      subst (λ n. take n (take 24 real.id ++ hex_padded 12 (shown_hash fqdn) []) ≡ take 24 real.id)
          head (take-append (take 24 real.id) (hex_padded 12 (shown_hash fqdn) [])),
    )

-- Two FQDNs get one id exactly if the last 48 bits of their hashes agree.
pub synth_id_iff :
    (real : Identity) (f g : Bytes)
    → ((synth_identity real f).id ≡ (synth_identity real g).id) ↔ (shown_hash f ≡ shown_hash g)
unfolding synth_identity
synth_id_iff real f g = (
  λ h.
      (hex_padded_injective 12 (shown_hash f) (shown_hash g) [] [] (omega arith) (omega arith)
        (append-left (id_prefix real.id) h)).0,
  λ h. rw h,
)

index-dot :
    (label rest : Bytes)
    → All (λ c. c ≢ b'.') label
    → index (label ++ b'.' ∷ rest) (codes ".") ≡ some (length label)
unfolding index has_prefix
index-dot [] rest h = ground arith
index-dot (c ∷ label) rest (hc, h) = ground (arith, index-dot label rest)

label_of-dot :
    (label rest : Bytes)
    → All (λ c. c ≢ b'.') label
    → label ≢ []
    → label_of (label ++ b'.' ∷ rest) ≡ label
unfolding label_of
label_of-dot [] rest h ne = absurd (ne refl)
label_of-dot (c ∷ label) rest h ne =
    rw (index-dot (c ∷ label) rest h, label_of)
      (ground (arith, take-append (c ∷ label) (b'.' ∷ rest)))

-- FQDNs that differ only behind the first dot get the same array name.
pub synth_name_shared :
    (real : Identity) (label rest rest' : Bytes)
    → All (λ c. c ≢ b'.') label
    → label ≢ []
    → (synth_identity real (label ++ b'.' ∷ rest)).name
      ≡ (synth_identity real (label ++ b'.' ∷ rest')).name
unfolding synth_identity
synth_name_shared real label rest rest' h ne =
    rw (label_of-dot label rest h ne, label_of-dot label rest' h ne)

-- A body shows the synthetic id and name in the quoted texts that were the real ones, and is
-- otherwise as it was.
pub hide_identity-render :
    (real : Identity) (fqdn : Bytes) (ps : List Piece) (end : Bytes)
    → NoQuote real.id
    → NoQuote real.name
    → NoQuote (synth_identity real fqdn).id
    → All (IsPlain real.id) ps
    → All (IsPlain real.name) ps
    → NoQuote end
    → hide_identity (some real) fqdn (render ps end)
      ≡ render
          (map
            (rename real.name (synth_identity real fqdn).name)
            (map (rename real.id (synth_identity real fqdn).id) ps))
          end
unfolding hide_identity
hide_identity-render real fqdn ps end hi hn hs pi pn he =
    ap (λ (b : Bytes). replace_all b (quoted real.name) (quoted (synth_identity real fqdn).name))
      (replace_all-quoted real.id (synth_identity real fqdn).id ps end hi pi he)
    ∙ (replace_all-quoted real.name (synth_identity real fqdn).name _ end hn
        (rename-IsPlain real.name real.id (synth_identity real fqdn).id ps hs pn) he)
