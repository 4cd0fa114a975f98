-- ===== src/Main/Report.antt =====
-- The statistics of the daemon when `main` of src/daemon/main.c ends.
use linux_anti_executable.Base.{ℕ, ◌%◌, ◌^◌, ◌≡◌, refl, true, some, List, arith}
use linux_anti_executable.Hash.Hex.{Libc}
use linux_anti_executable.Hash.File.{Sha256}
use linux_anti_executable.Whitelist.{Sqlite}
use linux_anti_executable.Config.{Config, default_config, ConfigFile, Opt, parsed, load_config}
use linux_anti_executable.Ipc.{is_timed}
use linux_anti_executable.Fanotify.{Daemon, fanotify_get_stats}
use linux_anti_executable.Fanotify.Returns.{event_loop_returns}
use linux_anti_executable.Fanotify.Statistics.{allows, denies, IsCounted, event_loop-IsCounted}
use linux_anti_executable.Main.Begin.{Begins, serving-Begins}
use linux_anti_executable.Main.{Surroundings, serving, shut_down, start, serve, main_from, main}

module _ ⦃libc : Libc⦄ (sql : Sqlite) (sha : Sha256) where
  Begins-IsCounted :
      (e : Surroundings) (cfg : Config) (d : Daemon sql.Db) → Begins sql sha e cfg d → IsCounted d
  unfolding allows denies
  Begins-IsCounted e cfg d b = record {
    allowed = rw (b.allowed, b.verdicts) refl;
    denied = rw (b.denied, b.verdicts) refl;
  }

  -- If the start with the loaded configuration comes to the event loop, and the timeout for the GUI
  -- is positive, then `main` ends with status 0 after any rounds, and the reported numbers of allowed
  -- and denied events are those of the verdicts that the kernel was given, in 64 bits.
  pub main_reports :
      (files : List ℕ → ConfigFile) (opts : List Opt) (e : Surroundings) (cfg : Config)
      (d : Daemon sql.Db)
      → load_config files opts default_config ≡ parsed cfg
      → start sql sha e cfg ≡ serving d
      → is_timed cfg.gui_timeout_ms ≡ true
      → (d' : Daemon sql.Db) × (main sql sha files opts e ≡ some (0, d'))
        × (fanotify_get_stats d'
            ≡ (allows d'.verdicts % 2 ^ 64, denies d'.verdicts % 2 ^ 64, d'.stat_cached))
  unfolding main serve shut_down fanotify_get_stats
  main_reports files opts e cfg d loaded begun timed =
      let b = serving-Begins sql sha e cfg d begun in
      let (last, run, kept, ready) =
        event_loop_returns sql sha e.rounds d (rw b.config timed)
          (record { valid = b.valid; unlimited = b.unlimited; opened = b.opened; idle = b.idle }) in
      let c : IsCounted last =
        rw run at (event_loop-IsCounted sql sha e.rounds d (Begins-IsCounted e cfg d b)) in
      (shut_down sql last, rw (loaded, main_from, begun, serve, run) refl, ground (arith, c))
