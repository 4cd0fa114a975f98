-- ===== src/Main/Release.antt =====
-- What is released when `main` of src/daemon/main.c ends.
use linux_anti_executable.Base.{ℕ, ◌≡◌, refl, true, false, none, some, List, arith}
use linux_anti_executable.Hash.Hex.{Libc}
use linux_anti_executable.Hash.File.{Sha256}
use linux_anti_executable.Whitelist.{Sqlite, whitelist_close}
use linux_anti_executable.Cache.{cache_shutdown}
use linux_anti_executable.Config.{Config, default_config, ConfigFile, Opt, parsed, load_config}
use linux_anti_executable.Ipc.{ipc_server_shutdown, is_timed}
use linux_anti_executable.Fanotify.{Daemon}
use linux_anti_executable.Fanotify.Returns.{event_loop_returns}
use linux_anti_executable.Main.Begin.{Begins, serving-Begins}
use linux_anti_executable.Main.{Surroundings, serving, shut_down, start, serve, main_from, main}

-- Nothing is held any more: the cache's memory, the database, and both ends of the socket.
pub record Released {D : Type 0} (d : Daemon D) : Type 0 where
  pub cache : d.stores.cache.initialized ≡ false
  pub database : d.stores.whitelist.db ≡ none
  pub client : d.server.client_fd ≡ none
  pub listener : d.server.server_fd ≡ none
  pub stopped : d.server.running ≡ false

shut_down-Released : (sql : Sqlite) (d : Daemon sql.Db) → Released (shut_down sql d)
unfolding shut_down ipc_server_shutdown cache_shutdown whitelist_close
shut_down-Released sql d = ground arith

module _ ⦃libc : Libc⦄ (sql : Sqlite) (sha : Sha256) where
  serve-Released :
      (e : Surroundings) (cfg : Config) (d : Daemon sql.Db)
      → is_timed cfg.gui_timeout_ms ≡ true
      → Begins sql sha e cfg d
      → (d' : Daemon sql.Db) × (serve sql sha e (serving d) ≡ some (0, d')) × Released d'
  unfolding serve
  serve-Released e cfg d timed b =
      let (last, run, kept, ready) =
        event_loop_returns sql sha e.rounds d (rw b.config timed)
          (record { valid = b.valid; unlimited = b.unlimited; opened = b.opened; idle = b.idle }) in
      (shut_down sql last, rw (serve, run) refl, shut_down-Released sql last)

  -- If the start with the loaded configuration comes to the event loop, and the timeout for the GUI
  -- is positive, then `main` ends with status 0 after any rounds of the loop, with the cache, the
  -- database and the socket released.
  pub main-Released :
      (files : List ℕ → ConfigFile) (opts : List Opt) (e : Surroundings) (cfg : Config)
      (d : Daemon sql.Db)
      → load_config files opts default_config ≡ parsed cfg
      → start sql sha e cfg ≡ serving d
      → is_timed cfg.gui_timeout_ms ≡ true
      → (d' : Daemon sql.Db) × (main sql sha files opts e ≡ some (0, d')) × Released d'
  unfolding main
  main-Released files opts e cfg d loaded begun timed =
      rw (loaded, main_from, begun)
        (serve-Released e cfg d timed (serving-Begins sql sha e cfg d begun))
