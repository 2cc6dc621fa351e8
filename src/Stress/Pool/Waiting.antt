-- ===== src/Stress/Pool/Waiting.antt =====
-- `waitReady` ends, and what its success and its failure say.
use px_smt_multirealm_shim.Common.{
  ℕ, zero, suc, ◌+◌, ◌*◌, ◌/◌, ◌<◌, ◌≤◌, ◌≡◌, ◌⊎◌, inl, inr, refl, sym, ◌∙◌, none, some, [], ◌∷◌,
  ◌++◌, append_assoc, arith, Option-cases,
}
use px_smt_multirealm_shim.Common.Exec.{fail}
use px_smt_multirealm_shim.Bytes.{Bytes}
use px_smt_multirealm_shim.Stress.{Options, Cluster, PoolState, looked, slept, five_seconds}
use px_smt_multirealm_shim.Stress.Pool.{wait_until, wait_bound, wait_ready}
use px_smt_multirealm_shim.Stress.Pool.Turns.{
  some_not_none, commands, IsClock, Extends, IsReady, IsOver, polled, paused, Covers, next-Covers,
  not_covered, seen, turned, poll_shows, turn_cases,
}

module _ (w : Cluster) (o : Options) (ns : Bytes) (replicas : ℕ) where
  module _ (deadline : ℕ) where
    until-IsReady :
        (n : ℕ) (p : PoolState)
        → (wait_until w o ns replicas deadline n p).0 ≡ some tt
        → IsReady w o ns replicas (wait_until w o ns replicas deadline n p).1.events
    unfolding wait_until fail turned seen
    until-IsReady zero p h = absurd (some_not_none h)
    until-IsReady (suc n) p h = elim (turn_cases w o ns replicas deadline n p) [
      | inl (_, e) ↦ absurd (some_not_none (rw e at h))
      | inr (_, inl (r, e)) ↦ rw e (poll_shows w o ns replicas (seen w o ns replicas deadline p) r)
      | inr (_, inr (inl (_, e))) ↦ absurd (some_not_none (rw e at h))
      | inr (_, inr (inr (_, e))) ↦ rw e (until-IsReady n (paused w o ns replicas p) (rw e at h))
    ]

    until-Extends :
        (n : ℕ) (p : PoolState)
        → Extends p.events (wait_until w o ns replicas deadline n p).1.events
    unfolding wait_until seen turned fail
    until-Extends zero p = ([], refl)
    until-Extends (suc n) p = elim (turn_cases w o ns replicas deadline n p) [
      | inl (_, e) ↦ rw e (looked ∷ [], refl)
      | inr (_, inl (_, e)) ↦ rw e (polled w o ns replicas [], refl)
      | inr (_, inr (inl (_, e))) ↦ rw e (polled w o ns replicas [], refl)
      | inr (_, inr (inr (_, e))) ↦ rw e (
          let (rest, more) = until-Extends n (paused w o ns replicas p) in
          (
            rest ++ (slept ∷ polled w o ns replicas []),
            more ∙ sym (append_assoc rest (slept ∷ polled w o ns replicas []) p.events),
          ))
    ]

    until_fails :
        (n : ℕ) (p : PoolState)
        → IsClock w
        → Covers w o ns replicas deadline n p.events
        → (wait_until w o ns replicas deadline (suc n) p).0 ≡ none
        → IsOver w o ns replicas deadline p.stopped
            (wait_until w o ns replicas deadline (suc n) p).1.events
    unfolding seen turned
    until_fails zero p clock covers h = elim (turn_cases w o ns replicas deadline zero p) [
      | inl (ended, e) ↦ rw e (inl (refl, ended))
      | inr (_, inl (_, e)) ↦ absurd (some_not_none (sym (rw e at h)))
      | inr (_, inr (inl (late, e))) ↦ rw e (inr (refl, ground (arith, late)))
      | inr (running, inr (inr (early, e))) ↦ absurd (
          not_covered w o ns replicas deadline p.events clock covers (ground (arith, running))
            early)
    ]
    until_fails (suc n) p clock covers h = elim (turn_cases w o ns replicas deadline (suc n) p) [
      | inl (ended, e) ↦ rw e (inl (refl, ended))
      | inr (_, inl (_, e)) ↦ absurd (some_not_none (sym (rw e at h)))
      | inr (_, inr (inl (late, e))) ↦ rw e (inr (refl, ground (arith, late)))
      | inr (running, inr (inr (early, e))) ↦ rw e (
          until_fails n (paused w o ns replicas p) clock
            (next-Covers w o ns replicas deadline n p.events clock covers (ground (arith, running)))
            (rw e at h))
    ]

    until_bound :
        (n : ℕ) (p : PoolState)
        → commands (wait_until w o ns replicas deadline n p).1.events ≤ commands p.events + n
    unfolding wait_until seen turned fail
    until_bound zero p = omega arith
    until_bound (suc n) p = elim (turn_cases w o ns replicas deadline n p) [
      | inl (_, e) ↦ rw e (omega arith)
      | inr (_, inl (_, e)) ↦ rw e (omega arith)
      | inr (_, inr (inl (_, e))) ↦ rw e (omega arith)
      | inr (_, inr (inr (_, e))) ↦ rw e (omega (arith, until_bound n (paused w o ns replicas p)))
    ]

  pub ready-Extends : (p : PoolState) → Extends p.events (wait_ready w o ns replicas p).1.events
  unfolding wait_ready
  ready-Extends p = until-Extends (w.now p.events + o.ready_timeout) (wait_bound w o ns) p

  pub wait_ready-IsReady :
      (p : PoolState)
      → (wait_ready w o ns replicas p).0 ≡ some tt
      → IsReady w o ns replicas (wait_ready w o ns replicas p).1.events
  unfolding wait_ready
  wait_ready-IsReady p = until-IsReady (w.now p.events + o.ready_timeout) (wait_bound w o ns) p

  timeout_covered :
      (p : PoolState)
      → w.now p.events + o.ready_timeout
        < w.now p.events + (o.ready_timeout / five_seconds + 1) * five_seconds
  timeout_covered p = ground arith

  -- With a clock that does not go back, and pauses that last five seconds or end with the context, a
  -- wait succeeds with a last command that showed the number of replicas, or it fails, and then the
  -- context has ended or the clock is past the deadline behind the last command. It runs at most two
  -- commands more than there are five seconds in the timeout.
  pub wait_ready_ends :
      (p : PoolState)
      → IsClock w
      → (((wait_ready w o ns replicas p).0 ≡ some tt)
            × IsReady w o ns replicas (wait_ready w o ns replicas p).1.events
          ⊎ ((wait_ready w o ns replicas p).0 ≡ none)
            × IsOver w o ns replicas
                (w.now p.events + o.ready_timeout)
                p.stopped
                (wait_ready w o ns replicas p).1.events)
        × (commands (wait_ready w o ns replicas p).1.events
            ≤ commands p.events + (o.ready_timeout / five_seconds + 2))
  unfolding wait_ready
  wait_ready_ends p clock =
      let deadline = w.now p.events + o.ready_timeout in
      (
        elim (Option-cases (wait_ready w o ns replicas p).0) [
          | inl e ↦ inr (
            e,
            until_fails deadline (o.ready_timeout / five_seconds + 1) p clock
                (inl (timeout_covered p)) e,
          )
          | inr (_, e) ↦ inl (e, wait_ready-IsReady p e)
        ],
        omega (arith, until_bound deadline (wait_bound w o ns) p),
      )
