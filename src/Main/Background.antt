-- ===== src/Main/Background.antt =====
-- The daemon of src/daemon/main.c without `--foreground`: `daemonize` forks after the accept thread
-- was started, and a new process has only the thread that forked.
use linux_anti_executable.Base.{ℕ, ◌≡◌, ◌∙◌, Bool, true, false, Option, some, List, is_true}
use linux_anti_executable.Hash.Hex.{Libc}
use linux_anti_executable.Hash.File.{Sha256}
use linux_anti_executable.Whitelist.{Sqlite}
use linux_anti_executable.Config.{Config}
use linux_anti_executable.Ipc.{is_timed}
use linux_anti_executable.Fanotify.{Event, Daemon, default_decision}
use linux_anti_executable.Fanotify.Policy.{decision_on}
use linux_anti_executable.Fanotify.Always.{Always, handle_event-Always}
use linux_anti_executable.Fanotify.Loop.{Round, event_loop, event_loop-Always}
use linux_anti_executable.Fanotify.Returns.{event_loop_returns}
use linux_anti_executable.Fanotify.Deaf.{
  IsDeaf, IsDeaf-decision, fanotify_allow-IsDeaf, check_hash-IsDeaf, visited-IsDeaf,
  fanotify_stop-IsDeaf,
}
use linux_anti_executable.Main.Begin.{serving-Begins}
use linux_anti_executable.Main.{Surroundings, serving, start}

module _ ⦃libc : Libc⦄ (sql : Sqlite) (sha : Sha256) where
  pub serving-IsDeaf :
      (e : Surroundings) (cfg : Config) (d : Daemon sql.Db)
      → start sql sha e cfg ≡ serving d
      → is_true cfg.foreground ≡ false
      → IsDeaf cfg d
  serving-IsDeaf e cfg d begun back =
      let b = serving-Begins sql sha e cfg d begun in
      record { client = b.client; accepting = b.accepting ∙ back; config = b.config }

  pub Always-some :
      (P : Daemon sql.Db → Type 0) (r : Option (Daemon sql.Db)) (d : Daemon sql.Db)
      → Always P r
      → r ≡ some d
      → P d
  Always-some P r d a h = rw h at a

  -- A daemon that was started without `--foreground`, with a positive timeout for the GUI, gets
  -- through any rounds of the event loop and still has no thread that accepts a GUI, and decides on
  -- every unknown file by the configured default.
  pub background_defaults :
      (e : Surroundings) (cfg : Config) (rounds : List Round) (d : Daemon sql.Db)
      → start sql sha e cfg ≡ serving d
      → is_true cfg.foreground ≡ false
      → is_timed cfg.gui_timeout_ms ≡ true
      → (d' : Daemon sql.Db) × (event_loop sql sha rounds d ≡ some d')
        × (d'.server.accepting ≡ false)
        × ((path hash : List ℕ) (asked : Event) (is_so : Bool)
            → decision_on path hash asked is_so d' ≡ some (default_decision cfg))
  background_defaults e cfg rounds d begun back timed =
      let b = serving-Begins sql sha e cfg d begun in
      let (d', run, kept, ready) =
        event_loop_returns sql sha rounds d (rw b.config timed)
          (record { valid = b.valid; unlimited = b.unlimited; opened = b.opened; idle = b.idle }) in
      let deaf =
        Always-some (IsDeaf cfg) (event_loop sql sha rounds d) d'
          (event_loop-Always sql sha (IsDeaf cfg)
            (handle_event-Always sql sha (IsDeaf cfg) (fanotify_allow-IsDeaf cfg)
              (check_hash-IsDeaf cfg sql))
            (visited-IsDeaf cfg) (fanotify_stop-IsDeaf cfg) rounds d
            (serving-IsDeaf e cfg d begun back))
          run in
      (
        d',
        run,
        deaf.accepting,
        λ path hash asked is_so. IsDeaf-decision path hash asked is_so d' deaf,
      )
