-- ===== src/Stress/Report/Distinct.antt =====
-- The values that the instances of all pools hold.
use px_smt_multirealm_shim.Common.{
  ℕ, ◌+◌, ◌*◌, ◌≡◌, sym, ◌∙◌, ◌∷◌, ◌++◌, append_assoc, append-left, refl,
}
use px_smt_multirealm_shim.Bytes.{Bytes, codes}
use px_smt_multirealm_shim.Bytes.Number.{is_digit, decimal}
use px_smt_multirealm_shim.Bytes.Number.Digits.{cut_number}
use px_smt_multirealm_shim.Stress.{Options, Cluster}
use px_smt_multirealm_shim.Stress.Pool.{fresh_value}
use px_smt_multirealm_shim.Stress.Report.{ns_name}

-- what stands behind the prefix of the namespaces
unfoldable after_prefix : ℕ → ℕ → Bytes
after_prefix idx ord =
    codes "-"
    ++ decimal idx
    ++ b'-' ∷ (codes "ord" ++ decimal ord ++ b'-' ∷ decimal (ord * 7 + idx * 100 + 1))

fresh_value_parts :
    (w : Cluster) (o : Options) (idx ord : ℕ)
    → fresh_value w o (ns_name o idx) idx ord ≡ o.ns_prefix ++ after_prefix idx ord
unfolding fresh_value ns_name after_prefix
fresh_value_parts w o idx ord = simp append_assoc

after_prefix_distinct : (i j a b : ℕ) → after_prefix i a ≡ after_prefix j b → (i ≡ j) × (a ≡ b)
unfolding after_prefix is_digit
after_prefix_distinct i j a b e =
    let pools = cut_number b'-' i j _ _ refl (append-left (codes "-") e) in
    let ordinals = cut_number b'-' a b _ _ refl (append-left (codes "ord") pools.1) in
    (pools.0, ordinals.0)

-- Two instances that are given the same fresh value are one instance of one pool: a volume that is mixed
-- up with another's holds another value.
pub fresh_value_distinct :
    (w : Cluster) (o : Options) (i j a b : ℕ)
    → fresh_value w o (ns_name o i) i a ≡ fresh_value w o (ns_name o j) j b
    → (i ≡ j) × (a ≡ b)
fresh_value_distinct w o i j a b e =
    after_prefix_distinct i j a b
      (append-left o.ns_prefix (sym (fresh_value_parts w o i a) ∙ e ∙ fresh_value_parts w o j b))
