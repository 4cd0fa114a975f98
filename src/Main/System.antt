-- ===== src/Main/System.antt =====
-- `create_directories` and `daemonize` of src/daemon/main.c, on the answers of the system.
use linux_anti_executable.Base.{ℕ, Bool, true, false, not, if◌then◌else◌, ℤ, pos, minus_one}
use linux_anti_executable.Ipc.{Server}

-- `mkdir` succeeds, fails with EEXIST, or fails otherwise.
pub data MkdirAnswer : Type 0 where
  made exists refused : MkdirAnswer

is_refused : MkdirAnswer → Bool
is_refused refused = true
is_refused _ = false

-- The answers for /var/lib/lexec and /var/run/lexec.
unfoldable pub create_directories : MkdirAnswer → MkdirAnswer → ℤ
unfolding is_refused
create_directories lib run =
    if is_refused lib then minus_one else if is_refused run then minus_one else pos 0

-- Whether `fork` fails, and else in which of the two processes it returns.
pub data ForkAnswer : Type 0 where
  fork_failed parent child : ForkAnswer

-- The answers that `daemonize` asks for, in turn.
pub record Detaching : Type 0 where
  pub first : ForkAnswer
  pub setsid_ok : Bool
  pub second : ForkAnswer
  pub chdir_ok : Bool

-- `exit` with a status, or the return with the server as the new process has it.
pub data Detached : Type 0 where
  exits : ℕ → Detached
  returns : Server → Detached

-- A new process has the thread that called `fork` and no other.
after_fork : Server → Server
after_fork s = record s { accepting = false }

fork_then : ForkAnswer → Detached → Detached
fork_then fork_failed next = exits 1
fork_then parent next = exits 0
fork_then child next = next

unfoldable pub daemonize : Detaching → Server → Detached
unfolding fork_then after_fork
daemonize a s =
    let moved = if not a.chdir_ok then exits 1 else returns (after_fork (after_fork s)) in
    fork_then a.first (if not a.setsid_ok then exits 1 else fork_then a.second moved)
