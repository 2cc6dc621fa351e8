-- ===== src/Cleaner.antt =====
-- cmd/fada-cleaner/main.go: the multipath maps, the configuration and the commands on the node.
-- The node is a function of the commands run before and of the command at hand; it gives the output
-- and whether the command succeeded in time.
pub mod Match
pub mod Parse
pub mod Scan
pub mod Settings
pub mod Loop
pub mod Summary
pub mod Watch
use px_smt_multirealm_shim.Common.{ℕ, Bool, true, false, List, ◌∷◌}
use px_smt_multirealm_shim.Bytes.{Bytes}

pub record MpMap : Type 0 where
  pub name : Bytes
  pub wwid : Bytes
  pub dm : Bytes
  pub vendor : Bytes
  pub paths : List Bytes

-- the fields of `config` that a scan reads
pub record Config : Type 0 where
  pub grace_polls : ℕ
  pub vendor : Bytes
  pub dry_run : Bool

abbrev pub Command : Type 0
Command = List Bytes

abbrev pub Node : Type 0
Node = List Command → Command → Bytes × Bool

-- Code that runs commands; the log has the last command first.
abbrev pub Run : Type 0 → Type 0
Run A = List Command → A × List Command

abbrev pub pure : {A : Type 0} → A → Run A
pure x log = (x, log)

infixl 10 ◌>>=◌ ◌>>◌
abbrev pub ◌>>=◌ : {A B : Type 0} → Run A → (A → Run B) → Run B
◌>>=◌ m f log = let (x, log') = m log in f x log'

abbrev pub ◌>>◌ : {A B : Type 0} → Run A → Run B → Run B
m >> k = m >>= λ _. k

-- `hostCmd`
unfoldable pub host_cmd : Node → Command → Run (Bytes × Bool)
host_cmd node c log = (node log c, c ∷ log)
