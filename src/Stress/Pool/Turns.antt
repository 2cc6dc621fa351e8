-- ===== src/Stress/Pool/Turns.antt =====
-- The turns of the loop of `waitReady`.
use px_smt_multirealm_shim.Common.{
  ℕ, suc, ◌+◌, ◌*◌, ◌<◌, ◌≤◌, ◌≡◌, ◌⊎◌, inl, inr, refl, Bool, true, false, ◌||◌, Bool-cases, none,
  some, List, [], ◌∷◌, ◌++◌, arith, ltb,
}
use px_smt_multirealm_shim.Common.Exec.{◌>>=◌}
use px_smt_multirealm_shim.Bytes.{Bytes}
use px_smt_multirealm_shim.Stress.{
  Options, Cluster, PoolState, Event, ran, looked, slept, run, context_ended, pause, is_late,
  five_seconds,
}
use px_smt_multirealm_shim.Stress.Pool.{
  is_ready, shows_ready, ready_command, poll_ready, wait_until,
}

-- an error is no success
pub some_not_none : {A : Type 0} {x : A} → none ≡ some x → ⊥
some_not_none h = ground (arith, h)

-- how many commands were run
abbrev pub commands : List Event → ℕ
commands [] = 0
commands (ran _ _ ∷ events) = commands events + 1
commands (looked ∷ events) = commands events
commands (slept ∷ events) = commands events

-- the clock does not go back, and a pause lasts five seconds or ends with the context
pub record IsClock (w : Cluster) : Type 0 where
  pub monotone : (e : Event) (events : List Event) → w.now events ≤ w.now (e ∷ events)
  pub pauses :
      (events : List Event)
      → (w.now events + five_seconds ≤ w.now (slept ∷ events))
        ⊎ (w.cancelled (slept ∷ events) ≡ true)

abbrev pub Extends : List Event → List Event → Type 0
Extends before after = (between : List Event) × (after ≡ between ++ before)

module _ (w : Cluster) (o : Options) (ns : Bytes) (replicas : ℕ) where
  -- the last event is a look at the stateful set, which showed the number of replicas
  abbrev pub IsReady : List Event → Type 0
  IsReady [] = ⊥
  IsReady (e ∷ before) =
      (e ≡ ran (ready_command w o ns) [])
      × ((w.ask before (ready_command w o ns) []).1 ≡ true)
      × (is_ready replicas (w.ask before (ready_command w o ns) []).0 ≡ true)

  unfoldable pub poll_result : PoolState → Bool
  poll_result p = shows_ready replicas (run w (ready_command w o ns) [] p).0

  pub poll_shows :
      (p : PoolState) → poll_result p ≡ true → IsReady (run w (ready_command w o ns) [] p).1.events
  unfolding poll_result shows_ready run
  poll_shows p h = ground arith

  poll_counts :
      (p : PoolState)
      → commands (run w (ready_command w o ns) [] p).1.events ≡ commands p.events + 1
  unfolding run
  poll_counts p = refl

  -- The last event is a look at a context that has ended, or a look at the stateful set behind the
  -- deadline.
  abbrev pub IsOver : ℕ → Bool → List Event → Type 0
  IsOver deadline stopped [] = ⊥
  IsOver deadline stopped (e ∷ before) =
      ((e ≡ looked) × ((stopped || w.cancelled before) ≡ true))
      ⊎ ((e ≡ ran (ready_command w o ns) []) × (deadline < w.now (e ∷ before)))

  -- the events of one turn of the loop
  abbrev pub polled : List Event → List Event
  polled events = ran (ready_command w o ns) [] ∷ looked ∷ events

  abbrev pub paused : PoolState → PoolState
  paused p = record p { events = slept ∷ polled p.events }

  module _ (deadline : ℕ) where
    -- so many pauses lead behind the deadline
    abbrev pub Covers : ℕ → List Event → Type 0
    Covers n events = (deadline < w.now events + n * five_seconds) ⊎ (w.cancelled events ≡ true)

    pub next-Covers :
        (n : ℕ) (events : List Event)
        → IsClock w
        → Covers (suc n) events
        → w.cancelled events ≡ false
        → Covers n (slept ∷ polled events)
    next-Covers n events clock h running = elim (clock.pauses (polled events)) [
      | inr c ↦ inr c
      | inl longer ↦ ground (
        arith,
        h,
        running,
        longer,
        clock.monotone looked events,
        clock.monotone (ran (ready_command w o ns) []) (looked ∷ events),
      )
    ]

    pub not_covered :
        (events : List Event)
        → IsClock w
        → Covers 0 events
        → w.cancelled events ≡ false
        → ltb deadline (w.now (polled events)) ≡ false
        → ⊥
    not_covered events clock h running early = ground (
      arith,
      h,
      running,
      clock.monotone looked events,
      clock.monotone (ran (ready_command w o ns) []) (looked ∷ events),
    )

    unfoldable pub seen : PoolState → PoolState
    seen p = record p { events = looked ∷ p.events }

    unfoldable pub turned : PoolState → PoolState
    turned p = record p { events = polled p.events }

    -- what one turn of the loop does
    pub turn_cases :
        (n : ℕ) (p : PoolState)
        → (((p.stopped || w.cancelled p.events) ≡ true)
            × (wait_until w o ns replicas deadline (suc n) p ≡ (none, seen p)))
          ⊎ (((p.stopped || w.cancelled p.events) ≡ false)
              × (((poll_result (seen p) ≡ true)
                    × (wait_until w o ns replicas deadline (suc n) p ≡ (some tt, turned p)))
                  ⊎ (((ltb deadline (w.now (polled p.events)) ≡ true)
                        × (wait_until w o ns replicas deadline (suc n) p ≡ (none, turned p)))
                      ⊎ ((ltb deadline (w.now (polled p.events)) ≡ false)
                          × (wait_until w o ns replicas deadline (suc n) p
                              ≡ wait_until w o ns replicas deadline n (paused p))))))
    unfolding wait_until context_ended poll_ready is_late pause run poll_result seen turned ◌>>=◌
    turn_cases n p = elim (Bool-cases (p.stopped || w.cancelled p.events)) [
      | inl e ↦ inl (e, rw e refl)
      | inr e ↦ elim (Bool-cases (poll_result (seen p))) [
        | inl r ↦ inr (e, inl (r, rw e (rw r refl)))
        | inr r ↦ elim (Bool-cases (ltb deadline (w.now (polled p.events)))) [
          | inl l ↦ inr (e, inr (inl (l, rw e (rw r (rw l refl)))))
          | inr l ↦ inr (e, inr (inr (l, rw e (rw r (rw l refl)))))
        ]
      ]
    ]
