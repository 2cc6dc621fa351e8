-- ===== src/Startup/Shutdown.antt =====
-- The end of `main`: the goroutine that waits for a signal, and the server that it shuts down. Of net/http
-- this uses that `ListenAndServeTLS` returns `ErrServerClosed` only once `Shutdown` was called, that no
-- request arrives after that, and that `Shutdown` returns when no request is open, or when its context has
-- ended after 20 seconds.
pub mod Drained
use px_smt_multirealm_shim.Common.{ℕ, suc, Bool, true, false, ◌≡◌}

-- the main goroutine: in `ListenAndServeTLS`, at `<-idleClosed`, returned, or in `log.Fatalf`
pub data Main : Type 0 where
  serving waiting returned died : Main

-- the goroutine of the signals: at `<-sigs`, in `Shutdown`, and behind `close(idleClosed)`
pub data Closer : Type 0 where
  listening draining closed : Closer

-- `in_flight` counts the requests that are being handled; `expired` says that the 20 seconds are over.
pub record State : Type 0 where
  pub main : Main
  pub closer : Closer
  pub in_flight : ℕ
  pub expired : Bool

abbrev pub initial : State
initial = record { main = serving; closer = listening; in_flight = 0; expired = false }

pub data Step : State → State → Type 0 where
  arrive :
      {s : State}
      → s.main ≡ serving
      → s.closer ≡ listening
      → Step s (record s { in_flight = suc s.in_flight })
  answered : {s : State} (n : ℕ) → s.in_flight ≡ suc n → Step s (record s { in_flight = n })
  signal : {s : State} → s.closer ≡ listening → Step s (record s { closer = draining })
  server_closed :
      {s : State} → s.main ≡ serving → s.closer ≡ draining → Step s (record s { main = waiting })
  server_closed_late :
      {s : State} → s.main ≡ serving → s.closer ≡ closed → Step s (record s { main = waiting })
  fail : {s : State} → s.main ≡ serving → Step s (record s { main = died })
  drained :
      {s : State} → s.closer ≡ draining → s.in_flight ≡ 0 → Step s (record s { closer = closed })
  expire : {s : State} → s.closer ≡ draining → Step s (record s { closer = closed; expired = true })
  finish :
      {s : State} → s.main ≡ waiting → s.closer ≡ closed → Step s (record s { main = returned })

pub data Reach : State → Type 0 where
  here : Reach initial
  next : {s t : State} → Reach s → Step s t → Reach t
