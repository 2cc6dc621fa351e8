-- ===== src/Startup/Shutdown/Drained.antt =====
-- The requests that are open when the shim ends.
use px_smt_multirealm_shim.Common.{true, ◌≡◌, ◌≢◌, ◌⊎◌, inl, inr, refl, arith}
use px_smt_multirealm_shim.Startup.Shutdown.{
  waiting, returned, listening, closed, State, Step, arrive, answered, signal, server_closed,
  server_closed_late, fail, drained, expire, finish, Reach, here, next,
}

-- the order of the two goroutines, and what has been waited for
pub record IsOrderly (s : State) : Type 0 where
  pub waits : s.main ≡ waiting → s.closer ≢ listening
  pub returns : s.main ≡ returned → s.closer ≡ closed
  pub settles : s.closer ≡ closed → (s.expired ≡ true) ⊎ (s.in_flight ≡ 0)

Step-IsOrderly : {s t : State} → Step s t → IsOrderly s → IsOrderly t
Step-IsOrderly (arrive m c) h = record {
  waits = h.waits;
  returns = h.returns;
  settles = λ e. absurd (ground (arith, c, e));
}
Step-IsOrderly (answered n e) h = record {
  waits = h.waits;
  returns = h.returns;
  settles = λ c. ground (arith, e, h.settles c);
}
Step-IsOrderly (signal c) h = record {
  waits = λ m e. ground (arith, e);
  returns = λ m. ground (arith, c, h.returns m);
  settles = λ e. ground (arith, e);
}
Step-IsOrderly (server_closed m c) h = record {
  waits = λ e l. ground (arith, c, l);
  returns = λ e. ground (arith, e);
  settles = h.settles;
}
Step-IsOrderly (server_closed_late m c) h = record {
  waits = λ e l. ground (arith, c, l);
  returns = λ e. ground (arith, e);
  settles = h.settles;
}
Step-IsOrderly (fail m) h = record {
  waits = λ e. ground (arith, e);
  returns = λ e. ground (arith, e);
  settles = h.settles;
}
Step-IsOrderly (drained c z) h = record {
  waits = λ m e. ground (arith, e);
  returns = λ m. refl;
  settles = λ e. inr z;
}
Step-IsOrderly (expire c) h = record {
  waits = λ m e. ground (arith, e);
  returns = λ m. refl;
  settles = λ e. inl refl;
}
Step-IsOrderly (finish m c) h = record {
  waits = λ e. ground (arith, e);
  returns = λ e. c;
  settles = h.settles;
}

Reach-IsOrderly : {s : State} → Reach s → IsOrderly s
Reach-IsOrderly here = record {
  waits = λ e. ground (arith, e);
  returns = λ e. ground (arith, e);
  settles = λ e. ground (arith, e);
}
Reach-IsOrderly (next r st) = Step-IsOrderly st (Reach-IsOrderly r)

-- When `main` returns, the shutdown has ended: no request is open, or its 20 seconds are over.
pub Reach-drained :
    {s : State} → Reach s → s.main ≡ returned → (s.expired ≡ true) ⊎ (s.in_flight ≡ 0)
Reach-drained r e = let h = Reach-IsOrderly r in h.settles (h.returns e)
