-- ===== src/Cleaner/Watch/Tokens.antt =====
-- What the watch does to the state of the main loop: nothing but the token.
use mathlib.Core.Path.{ap₂}
use px_smt_multirealm_shim.Common.{
  ℕ, ◌+◌, ◌*◌, ◌≡◌, refl, sym, ap, ◌∙◌, Bool, true, false, ◌||◌, Bool-cases, inl, inr, none, some,
  Option-cases, List, [], ◌∷◌, ◌++◌, ◌==◌, any, arith, if◌then◌else◌,
}
use px_smt_multirealm_shim.Bytes.{Bytes}
use px_smt_multirealm_shim.Cleaner.Loop.{WatchEvent, State, is_detach, notify}
use px_smt_multirealm_shim.Cleaner.Watch.{
  ApiServer, Connection, unreachable, connected, WatchRequest, prepare, notify_all, watch_once,
  watch_loop, watch,
}

-- the events that are decoded
abbrev pub decoded : List Connection → List WatchEvent
decoded [] = []
decoded (unreachable ∷ cs) = decoded cs
decoded (connected status evs ∷ cs) = if status == 200 then evs ++ decoded cs else decoded cs

-- the connections that fail
abbrev pub failures : List Connection → ℕ
failures [] = 0
failures (unreachable ∷ cs) = failures cs + 1
failures (connected status evs ∷ cs) = if status == 200 then failures cs else failures cs + 1

-- the state with a token, if one of these events is a detach event of the node
abbrev pub with_token : Bytes → List WatchEvent → State → State
with_token node_name evs st = record st { pending = any (is_detach node_name) evs || st.pending }

or_true : (b : Bool) → (b || true) ≡ true
or_true true = refl
or_true false = refl

any-append :
    (node_name : Bytes) (evs fs : List WatchEvent)
    → any (is_detach node_name) (evs ++ fs)
      ≡ (any (is_detach node_name) evs || any (is_detach node_name) fs)
any-append node_name [] fs = refl
any-append node_name (ev ∷ evs) fs = ground (arith, any-append node_name evs fs)

or_turn : (a b c : Bool) → (b || (a || c)) ≡ ((a || b) || c)
or_turn true true c = refl
or_turn true false c = refl
or_turn false true c = refl
or_turn false false c = refl

notify_all-token :
    (node_name : Bytes) (evs : List WatchEvent) (st : State)
    → notify_all node_name evs st ≡ with_token node_name evs st
unfolding notify_all notify
notify_all-token node_name [] st = refl
notify_all-token node_name (ev ∷ evs) st = elim (Bool-cases (is_detach node_name ev)) [
  | inl e ↦ rw e (
      notify_all-token node_name evs (record st { pending = true })
      ∙ ap (λ b. record st { pending = b }) (or_true (any (is_detach node_name) evs)))
  | inr e ↦ rw e (notify_all-token node_name evs st)
]

with_token-append :
    (node_name : Bytes) (evs fs : List WatchEvent) (st : State)
    → with_token node_name fs (with_token node_name evs st) ≡ with_token node_name (evs ++ fs) st
with_token-append node_name evs fs st =
    ap (λ b. record st { pending = b })
      (or_turn (any (is_detach node_name) evs) (any (is_detach node_name) fs) st.pending
        ∙ ap (λ b. b || st.pending) (sym (any-append node_name evs fs)))

loop_pause :
    (node_name : Bytes) (cs : List Connection) (st : State)
    → (watch_loop node_name cs st).0 ≡ failures cs * 5
unfolding watch_loop watch_once
loop_pause node_name [] st = refl
loop_pause node_name (unreachable ∷ cs) st = omega (arith, loop_pause node_name cs st)
loop_pause node_name (connected status evs ∷ cs) st = elim (Bool-cases (status == 200)) [
  | inl e ↦ rw e (omega (arith, loop_pause node_name cs (notify_all node_name evs st)))
  | inr e ↦ rw e (omega (arith, loop_pause node_name cs st))
]

loop_token :
    (node_name : Bytes) (cs : List Connection) (st : State)
    → (watch_loop node_name cs st).1 ≡ with_token node_name (decoded cs) st
unfolding watch_loop watch_once
loop_token node_name [] st = refl
loop_token node_name (unreachable ∷ cs) st = loop_token node_name cs st
loop_token node_name (connected status evs ∷ cs) st = elim (Bool-cases (status == 200)) [
  | inl e ↦ rw e (
      loop_token node_name cs (notify_all node_name evs st)
      ∙ ap (with_token node_name (decoded cs)) (notify_all-token node_name evs st)
      ∙ with_token-append node_name evs (decoded cs) st)
  | inr e ↦ rw e (loop_token node_name cs st)
]

-- The watch changes nothing of the state but the token, which is there afterwards exactly if it was before
-- or a detach event of the node was decoded from a connection with status 200; each failed connection
-- costs a pause of five seconds; without credentials it does nothing.
pub watch_tokens :
    (c : ApiServer) (node_name : Bytes) (server : WatchRequest → List Connection) (st : State)
    → watch c node_name server st ≡ elim (prepare c) [
      | none ↦ (0, st)
      | some req ↦ (failures (server req) * 5, with_token node_name (decoded (server req)) st)
    ]
unfolding watch
watch_tokens c node_name server st = elim (Option-cases (prepare c)) [
  | inl e ↦ rw (e, watch) refl
  | inr (req, e) ↦
      rw (e, watch)
        (ap₂ {C = ℕ × State} (λ n s. (n, s)) (loop_pause node_name (server req) st)
          (loop_token node_name (server req) st))
]
