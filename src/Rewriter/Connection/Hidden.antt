-- ===== src/Rewriter/Connection/Hidden.antt =====
-- What px reads in the answer to a connection call: its own host name, never the array's.
use px_smt_multirealm_shim.Common.{◌≡◌, ◌≢◌, true, false, List, [], ◌∷◌, map, arith, All}
use px_smt_multirealm_shim.Bytes.{Bytes, codes, same, same_iff, contains, to_lower}
use px_smt_multirealm_shim.Bytes.Quoted.{
  NoQuote, Piece, IsPlain, render, rename, replace_all-quoted,
}
use px_smt_multirealm_shim.Http.{Method, post}
use px_smt_multirealm_shim.Config.{HostMapping}
use px_smt_multirealm_shim.Array.{Reply}
use px_smt_multirealm_shim.Rewriter.Connection.{
  is_already_connected, connected_body, connection_answer,
}

abbrev pub LacksText : Bytes → List Piece → Type 0
LacksText t = All (λ (p : Piece). same p.text t ≡ false)

-- A renamed row of pieces no longer holds the old text.
pub rename-LacksText :
    (old new : Bytes) (ps : List Piece) → new ≢ old → LacksText old (map (rename old new) ps)
unfolding rename
rename-LacksText old new [] h = tt
rename-LacksText old new (p ∷ ps) h =
    (ground (arith, same_iff new old), rename-LacksText old new ps h)

module _ (method : Method) (hm : HostMapping) (name volumes : Bytes) (reply : Reply) where
  -- A reply that does not say "already connected", and whose body is a row of plain pieces, reaches px
  -- with the array's host name replaced by px's own, which differs, in every quoted text that is that
  -- name and in no other, and with its status; no quoted text is the array's name any more.
  pub connection_hides :
      (ps : List Piece) (end : Bytes)
      → reply.body ≡ render ps end
      → is_already_connected method reply ≡ false
      → NoQuote hm.array_host
      → All (IsPlain hm.array_host) ps
      → NoQuote end
      → name ≢ hm.array_host
      → (connection_answer method hm name volumes reply ≡ record {
        status = reply.status;
        body = render (map (rename hm.array_host name) ps) end;
      })
        × LacksText hm.array_host (map (rename hm.array_host name) ps)
  unfolding connection_answer
  connection_hides ps end e fresh hk hp he ne = (
    rw (fresh, e, replace_all-quoted hm.array_host name ps end hk hp he),
    rename-LacksText hm.array_host name ps ne,
  )

  -- A repeated POST succeeds: a 400 that says "already", in any case, becomes a 200.
  pub connection_retries :
      method ≡ post
      → reply.status ≡ 400
      → contains (to_lower reply.body) (codes "already") ≡ true
      → connection_answer method hm name volumes reply
        ≡ record { status = 200; body = connected_body name volumes }
  unfolding connection_answer
  connection_retries p s c = ground arith
