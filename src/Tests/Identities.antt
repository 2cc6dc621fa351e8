-- ===== src/Tests/Identities.antt =====
-- Synthetic identities at concrete inputs.
use px_smt_multirealm_shim.Common.{◌≡◌, ◌↔◌, refl, some, List, [], ◌∷◌, ◌++◌, map, arith, All}
use px_smt_multirealm_shim.Bytes.{Bytes, codes, same}
use px_smt_multirealm_shim.Bytes.Quoted.{NoQuote, Piece, IsPlain, render, rename}
use px_smt_multirealm_shim.Identity.{synth_identity, hide_identity}
use px_smt_multirealm_shim.Identity.Synth.{
  shown_hash, synth_id_iff, synth_name_shared, hide_identity-render,
}
use px_smt_multirealm_shim.Identity.{label_of}
use px_smt_multirealm_shim.Identity.{id_prefix}
use px_smt_multirealm_shim.Identity.{hex_padded}
use px_smt_multirealm_shim.Identity.{fnv64a}
use px_smt_multirealm_shim.Tests.Data.{real_array}

abbrev fqdn : Bytes
fqdn = codes "r1.example"

synth_id_iff_example :
    ((synth_identity real_array fqdn).id ≡ (synth_identity real_array (codes "r2.example")).id)
    ↔ (shown_hash fqdn ≡ shown_hash (codes "r2.example"))
synth_id_iff_example = synth_id_iff real_array fqdn (codes "r2.example")

synth_name_shared_example :
    (synth_identity real_array (codes "array" ++ b'.' ∷ codes "r1")).name
    ≡ (synth_identity real_array (codes "array" ++ b'.' ∷ codes "r2")).name
synth_name_shared_example =
    synth_name_shared real_array (codes "array") (codes "r1") (codes "r2") (ground arith)
      (λ e. ground arith)

-- the identity made for one FQDN
synthetic :
    synth_identity real_array fqdn
    ≡ record { name = codes "flash1-r1"; id = codes "a1b2c3d4-e5f6-4711-8a9b-c3fccac71e88" }
unfolding synth_identity label_of id_prefix hex_padded fnv64a
synthetic = refl

abbrev shown : List Piece
shown =
    record { gap = codes "{"; text = codes "name" }
    ∷ record { gap = codes ":"; text = codes "flash1" }
    ∷ []

shown_by_id : All (IsPlain real_array.id) shown
unfolding same
shown_by_id = (
  record { gap_plain = ground arith; text_plain = ground arith; gap_differs = refl },
  (record { gap_plain = ground arith; text_plain = ground arith; gap_differs = refl }, tt),
)

shown_by_name : All (IsPlain real_array.name) shown
unfolding same
shown_by_name = (
  record { gap_plain = ground arith; text_plain = ground arith; gap_differs = refl },
  (record { gap_plain = ground arith; text_plain = ground arith; gap_differs = refl }, tt),
)

synthetic_quote : NoQuote (synth_identity real_array fqdn).id
synthetic_quote = rw synthetic (ground arith)

hide_identity-render_example :
    hide_identity (some real_array) fqdn (render shown (codes "}"))
    ≡ render
        (map
          (rename real_array.name (synth_identity real_array fqdn).name)
          (map (rename real_array.id (synth_identity real_array fqdn).id) shown))
        (codes "}")
hide_identity-render_example =
    hide_identity-render real_array fqdn shown (codes "}") (ground arith) (ground arith)
      synthetic_quote shown_by_id shown_by_name (ground arith)
