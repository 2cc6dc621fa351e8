-- ===== src/Bytes/Replace.antt =====
-- `strings.ReplaceAll`: the occurrences of `old`, found from the left without overlap, become `new`.
use px_smt_multirealm_shim.Common.{ℕ, zero, suc, ◌-◌, [], ◌∷◌, ◌++◌, if◌then◌else◌, length}
use px_smt_multirealm_shim.Bytes.{Bytes, has_prefix}

-- The number is how many bytes of a match are still to be skipped.
unfoldable pub replace_from : Bytes → Bytes → ℕ → Bytes → Bytes
unfolding has_prefix
replace_from old new skip [] = []
replace_from old new (suc skip) (c ∷ s) = replace_from old new skip s
replace_from old new zero (c ∷ s) =
    let hit = new ++ replace_from old new (length old - 1) s in
    let miss = c ∷ replace_from old new zero s in if has_prefix (c ∷ s) old then hit else miss

-- An empty `old` matches before every byte and at the end.
unfoldable pub between : Bytes → Bytes → Bytes
between new [] = new
between new (c ∷ s) = new ++ c ∷ between new s

unfoldable pub replace_all : Bytes → Bytes → Bytes → Bytes
unfolding replace_from between
replace_all s [] new = between new s
replace_all s (c ∷ old) new = replace_from (c ∷ old) new 0 s
