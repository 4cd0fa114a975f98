-- ===== src/Main/Signals.antt =====
-- `setup_signals` and `signal_handler` of src/daemon/main.c.
use linux_anti_executable.Base.{ℕ, ◌≡◌, refl, Option, none, some, List, ◌∷◌}
use linux_anti_executable.Hash.Hex.{Libc}
use linux_anti_executable.Hash.File.{Sha256}
use linux_anti_executable.Whitelist.{Sqlite}
use linux_anti_executable.Fanotify.{Daemon, fanotify_stop}
use linux_anti_executable.Fanotify.Loop.{Round, signal, event_loop}

-- The signals that the source names, and any other.
pub data Signal : Type 0 where
  sigint sigterm sighup sigpipe : Signal
  other : ℕ → Signal

-- `SIG_DFL`, `SIG_IGN`, and `signal_handler`
pub data Action : Type 0 where
  by_default ignored handled : Action

-- The calls of `sigaction` and `signal`, in turn.
unfoldable pub setup_signals : (Signal → Action) → Signal → Action
setup_signals old sigint = handled
setup_signals old sigterm = handled
setup_signals old sighup = handled
setup_signals old sigpipe = ignored
setup_signals old (other n) = old (other n)

-- `g_running` of main.c is set too, and nothing reads it.
unfoldable pub signal_handler : {D : Type 0} → Daemon D → Daemon D
signal_handler d = fanotify_stop d

-- A signal that arrives; `none` is the default action of those that are named here, the process's
-- end.
unfoldable pub deliver : {D : Type 0} → Action → Daemon D → Option (Daemon D)
deliver by_default d = none
deliver ignored d = some d
deliver handled d = some (signal_handler d)

module _ ⦃libc : Libc⦄ (sql : Sqlite) (sha : Sha256) where
  -- After `setup_signals`, whatever the actions were, SIGHUP ends the event loop as SIGTERM does,
  -- whatever would have come after it, and SIGPIPE does nothing.
  pub sighup_ends :
      (old : Signal → Action) (rounds : List Round) (d : Daemon sql.Db)
      → (event_loop sql sha (signal ∷ rounds) d ≡ deliver (setup_signals old sighup) d)
        × (deliver (setup_signals old sighup) d ≡ deliver (setup_signals old sigterm) d)
        × (deliver (setup_signals old sigpipe) d ≡ some d)
  unfolding event_loop deliver setup_signals signal_handler
  sighup_ends old rounds d = (refl, refl, refl)
