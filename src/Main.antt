-- ===== src/Main.antt =====
-- `main` of src/daemon/main.c: the start, the event loop, and the release on every path. What the
-- system answers meanwhile stands in a record.
pub mod Prepared
pub mod Begin
pub mod Release
pub mod Failure
pub mod System
pub mod Background
pub mod Enforcement
pub mod Report
pub mod Signals
pub mod Scanned
pub mod Restart
use linux_anti_executable.Base.{
  ℕ, ◌+◌, Bool, true, false, not, Option, none, some, List, [], ◌∷◌, if◌then◌else◌, ℤ, pos, is_true,
  is_zero, codes,
}
use linux_anti_executable.Hash.Hex.{Libc}
use linux_anti_executable.Hash.File.{Sha256}
use linux_anti_executable.Whitelist.{
  Sqlite, Whitelist, closed, whitelist_init, whitelist_close, whitelist_set_learning_mode,
}
use linux_anti_executable.Whitelist.Scan.{Entries, whitelist_scan_directory}
use linux_anti_executable.Cache.{Stores, zero_cache, cache_init, cache_shutdown}
use linux_anti_executable.Config.{
  Config, default_config, ConfigFile, Opt, Parsed, parsed, load_config,
}
use linux_anti_executable.Config.Exclusion.{is_path_excluded}
use linux_anti_executable.Ipc.{stopped_server, ipc_server_init, ipc_server_shutdown}
use linux_anti_executable.Main.System.{
  MkdirAnswer, create_directories, Detaching, Detached, exits, returns, daemonize,
}
use linux_anti_executable.Fanotify.Mounts.{Mark, fanotify_init_exec_monitor, fanotify_add_mount}
use linux_anti_executable.Fanotify.{Daemon, fanotify_set_monitor_shared_libs}
use linux_anti_executable.Fanotify.Loop.{Round, event_loop}

-- Whether the user is root, the two directories can be made, the two `calloc` calls and the steps of
-- the socket succeed; the trees below the scanned directories, and the time; the descriptor of
-- fanotify and whether a mark on a mount is taken; the answers to `daemonize`; and the event loop's
-- rounds.
pub record Surroundings : Type 0 where
  pub root : Bool
  pub lib_directory : MkdirAnswer
  pub run_directory : MkdirAnswer
  pub table_ok : Bool
  pub bloom_ok : Bool
  pub socket : Option ℕ
  pub bind_ok : Bool
  pub listen_ok : Bool
  pub thread_ok : Bool
  pub tree : List ℕ → Entries
  pub now : ℕ
  pub fan_fd : Option ℕ
  pub mark_ok : List ℕ → Bool
  pub detaching : Detaching
  pub rounds : List Round

-- `SCAN_DIRS`
abbrev pub scan_dirs : List (List ℕ)
scan_dirs =
    codes "/bin"
    ∷ codes "/sbin"
    ∷ codes "/usr/bin"
    ∷ codes "/usr/sbin"
    ∷ codes "/usr/local/bin"
    ∷ codes "/usr/local/sbin"
    ∷ codes "/lib"
    ∷ codes "/lib64"
    ∷ codes "/usr/lib"
    ∷ codes "/usr/lib64"
    ∷ codes "/opt"
    ∷ []

-- `MONITOR_MOUNTS`
abbrev monitor_mounts : List (List ℕ)
monitor_mounts = codes "/" ∷ []

-- The static variables of all files when the program starts.
abbrev pub at_rest : {D : Type 0} → Config → Daemon D
at_rest cfg = record {
  config = cfg;
  stores = record { cache = zero_cache; whitelist = closed };
  server = stopped_server;
  running = true;
  monitor_shared_libs = pos 1;
  marks = [];
  stat_allowed = 0;
  stat_denied = 0;
  stat_cached = 0;
  verdicts = [];
}

-- The program ends early with a status, or comes to the event loop.
pub data Started (D : Type 0) : Type 0 where
  failed : ℕ → Daemon D → Started D
  serving : Daemon D → Started D

module _ (sql : Sqlite) where
  -- `ipc_server_shutdown(); cache_shutdown(); whitelist_close();`
  unfoldable pub shut_down : Daemon sql.Db → Daemon sql.Db
  shut_down d = record d {
    server = ipc_server_shutdown d.server;
    stores = record {
      cache = cache_shutdown d.stores.cache;
      whitelist = whitelist_close sql d.stores.whitelist;
    };
  }

  -- `cache_shutdown(); whitelist_close();`
  close_stores : Daemon sql.Db → Daemon sql.Db
  close_stores d = record d {
    stores = record {
      cache = cache_shutdown d.stores.cache;
      whitelist = whitelist_close sql d.stores.whitelist;
    };
  }

module _ (sql : Sqlite) (sha : Sha256) where
  -- The loop over the directories, with the total.
  scan_all : List (List ℕ) → Surroundings → Config → Whitelist sql.Db → ℕ × Whitelist sql.Db
  scan_all [] e cfg w = (0, w)
  scan_all (dir ∷ dirs) e cfg w =
      let (n, w1) = whitelist_scan_directory sql sha e.now dir true (e.tree dir) w in
      let (m, w2) = scan_all dirs e cfg w1 in
      let skipped = scan_all dirs e cfg w in
      if is_path_excluded cfg.exclude_paths dir then skipped else (n + m, w2)

  unfoldable pub perform_initial_scan :
      Surroundings → Config → Whitelist sql.Db → ℕ × Whitelist sql.Db
  unfolding scan_all
  perform_initial_scan e cfg w = scan_all scan_dirs e cfg w

  -- The loop over the mounts; a mark that fails is only reported.
  mark_all : List (List ℕ) → Surroundings → ℤ → List Mark → List Mark
  mark_all [] e monitor marks = marks
  mark_all (mount ∷ mounts) e monitor marks =
      mark_all mounts e monitor (fanotify_add_mount (e.mark_ok mount) monitor mount marks).1

  detach : Daemon sql.Db → Detached → Started sql.Db
  detach d (exits status) = failed status d
  detach d (returns server) = serving (record d { server = server })

  -- The last steps, on the answer of `fanotify_init_exec_monitor`.
  watch : Surroundings → Daemon sql.Db → Option ℕ → Started sql.Db
  unfolding mark_all detach
  watch e d none = failed 1 (shut_down sql d)
  watch e d (some fan_fd) =
      let d1 = fanotify_set_monitor_shared_libs d.config.monitor_shared_libs d in
      let d2 = record d1 { marks = mark_all monitor_mounts e d1.monitor_shared_libs d1.marks } in
      if is_true d2.config.foreground
      then serving d2
      else detach d2 (daemonize e.detaching d2.server)

  -- From the scan on: the learning mode, fanotify and the detaching.
  set_up : Surroundings → Daemon sql.Db → Started sql.Db
  unfolding watch
  set_up e d =
      let scanned = (perform_initial_scan e d.config d.stores.whitelist).1 in
      let w1 = if is_true d.config.do_scan then scanned else d.stores.whitelist in
      let w2 =
        if is_true d.config.learning_mode then whitelist_set_learning_mode (pos 1) w1 else w1 in
      watch e (record d { stores = record d.stores { whitelist = w2 } })
        (fanotify_init_exec_monitor e.fan_fd)

  -- From the root check to the event loop.
  unfoldable pub start : Surroundings → Config → Started sql.Db
  unfolding set_up close_stores
  start e cfg =
      let d0 = at_rest cfg in
      if not e.root
      then failed 1 d0
      else if not (is_zero (create_directories e.lib_directory e.run_directory))
      then failed 1 d0
      else let (opened, w) = whitelist_init sql cfg.db_path closed in
        let d1 = record d0 { stores = record { cache = zero_cache; whitelist = w } } in
        if not (is_zero opened)
        then failed 1 d1
        else let (allocated, c) = cache_init e.table_ok e.bloom_ok 0 zero_cache in
          let d2 = record d1 { stores = record { cache = c; whitelist = w } } in
          if not (is_zero allocated)
          then failed 1
              (record d2 { stores = record d2.stores { whitelist = whitelist_close sql w } })
          else let (listening, server) =
              ipc_server_init e.socket e.bind_ok e.listen_ok e.thread_ok stopped_server in
            let d3 = record d2 { server = server } in
            if not (is_zero listening) then failed 1 (close_stores sql d3) else set_up e d3

module _ ⦃libc : Libc⦄ (sql : Sqlite) (sha : Sha256) where
  -- The event loop and the release after it. `none` is a loop that waits for ever.
  serve : Surroundings → Started sql.Db → Option (ℕ × Daemon sql.Db)
  serve e (failed status d) = some (status, d)
  serve e (serving d) = elim (event_loop sql sha e.rounds d) [
    | none ↦ none
    | some d' ↦ some (0, shut_down sql d')
  ]

  main_from : Surroundings → Parsed → Option (ℕ × Daemon sql.Db)
  unfolding serve
  main_from e (Parsed.exits status) = some (status, at_rest default_config)
  main_from e (parsed cfg) = serve e (start sql sha e cfg)

  -- The exit status, and what is left.
  unfoldable pub main : (List ℕ → ConfigFile) → List Opt → Surroundings → Option (ℕ × Daemon sql.Db)
  unfolding main_from
  main files opts e = main_from e (load_config files opts default_config)
