-- ===== src/Main/Begin.antt =====
-- What the start in `main` of src/daemon/main.c establishes for the event loop.
use linux_anti_executable.Base.{
  ℕ, ◌≡◌, ap, inl, inr, refl, Bool, true, false, not, Option, none, some, List, [], ◌∷◌,
  if◌then◌else◌, codes, is_true, is_zero, arith, Bool-cases,
}
use linux_anti_executable.Hash.Hex.{Libc}
use linux_anti_executable.Hash.File.{Sha256}
use linux_anti_executable.Whitelist.{Sqlite, closed, whitelist_init}
use linux_anti_executable.Whitelist.Laws.{IsOpen}
use linux_anti_executable.Cache.{zero_cache, cache_init}
use linux_anti_executable.Cache.Contents.{member}
use linux_anti_executable.Cache.Invariant.{IsValid}
use linux_anti_executable.Config.{Config}
use linux_anti_executable.Ipc.{Server, stopped_server, ipc_server_init}
use linux_anti_executable.Fanotify.Mounts.{Mark, fanotify_init_exec_monitor, fanotify_add_mount}
use linux_anti_executable.Fanotify.{Daemon, fanotify_set_monitor_shared_libs}
use linux_anti_executable.Main.System.{create_directories, Detaching, returns, daemonize}
use linux_anti_executable.Fanotify.Ready.{IsReady}
use linux_anti_executable.Main.Prepared.{
  Prepared, booted, scanned-IsOpen, learning-IsOpen, prepared,
}
use linux_anti_executable.Main.{
  Surroundings, Started, failed, serving, monitor_mounts, mark_all, detach, watch, set_up, start,
}

-- The marks to expect: the root mount for executions, and for opened files too if libraries are to
-- be monitored.
pub root_mark : Surroundings → Config → List Mark
root_mark e cfg =
    if e.mark_ok (codes "/")
    then record {
      mount = codes "/";
      open_exec_perm = true;
      open_perm = is_true cfg.monitor_shared_libs;
    }
      ∷ []
    else []

module _ (sql : Sqlite) (sha : Sha256) where
  -- What the event loop is given.
  pub record Begins (e : Surroundings) (cfg : Config) (d : Daemon sql.Db) : Type 0 where
    pub valid : IsValid d.stores.cache
    pub unlimited : d.stores.cache.max_entries ≡ 0
    pub empty : (q : List ℕ) → member d.stores.cache q ≡ false
    pub opened : IsOpen sql d.stores.whitelist
    pub database :
        d.stores.whitelist ≡ booted sql sha e cfg (whitelist_init sql cfg.db_path closed).1
    pub idle : d.server.pending_count ≡ 0
    pub client : d.server.client_fd ≡ none
    pub accepting : d.server.accepting ≡ is_true cfg.foreground
    pub marks : d.marks ≡ root_mark e cfg
    pub allowed : d.stat_allowed ≡ 0
    pub denied : d.stat_denied ≡ 0
    pub verdicts : d.verdicts ≡ []
    pub config : d.config ≡ cfg

  pub BeginsIf : Surroundings → Config → Started sql.Db → Type 0
  BeginsIf e cfg (failed status d) = Unit {0}
  BeginsIf e cfg (serving d) = Begins e cfg d

  -- The new process has the old one's server without its accept thread.
  daemonize-returns :
      (a : Detaching) (s server : Server)
      → daemonize a s ≡ returns server
      → server ≡ record s { accepting = false }
  unfolding daemonize
  daemonize-returns a s server h = ground arith

  mark_all-root_mark :
      (e : Surroundings) (cfg : Config)
      → mark_all sql sha monitor_mounts e cfg.monitor_shared_libs [] ≡ root_mark e cfg
  unfolding mark_all fanotify_add_mount root_mark
  mark_all-root_mark e cfg = ground arith

  detach-Begins :
      (e : Surroundings) (cfg : Config) (d : Daemon sql.Db) (a : Detaching)
      → Begins e cfg (record d { server = record d.server { accepting = false } })
      → BeginsIf e cfg (detach sql sha d (daemonize a d.server))
  unfolding BeginsIf detach daemonize
  detach-Begins e cfg d a b = ground (arith, b)

  watch-Begins :
      (e : Surroundings) (cfg : Config) (d : Daemon sql.Db) (fan : Option ℕ)
      → Prepared sql sha cfg (booted sql sha e cfg (whitelist_init sql cfg.db_path closed).1) d
      → BeginsIf e cfg (watch sql sha e d fan)
  unfolding BeginsIf watch fanotify_set_monitor_shared_libs
  watch-Begins e cfg d none p = tt
  watch-Begins e cfg d (some fan_fd) p =
      let d1 = record d { monitor_shared_libs = d.config.monitor_shared_libs } in
      let d2 = record d1 {
        marks = mark_all sql sha monitor_mounts e d1.monitor_shared_libs d1.marks;
      } in
      let begins =
        λ (server : Server) (client : server.client_fd ≡ none) (idle : server.pending_count ≡ 0)
            (accepting : server.accepting ≡ is_true cfg.foreground).
          let b : Begins e cfg (record d2 { server = server }) = record {
            valid = p.valid;
            unlimited = p.unlimited;
            empty = p.empty;
            opened = p.opened;
            database = p.database;
            idle = idle;
            client = client;
            accepting = accepting;
            marks = rw (p.config, p.marks) (mark_all-root_mark e cfg);
            allowed = p.allowed;
            denied = p.denied;
            verdicts = p.verdicts;
            config = p.config;
          } in
          b in
      elim (Bool-cases (is_true d.config.foreground)) [
        | inl front ↦
            simp front
              (begins d.server p.client p.idle (ground (arith, p.accepting, p.config, front)))
        | inr back ↦ simp back (
            detach-Begins e cfg d2 e.detaching (
              begins (record d.server { accepting = false }) p.client p.idle
                (ground (arith, p.config, back))))
      ]

  set_up-Begins :
      (e : Surroundings) (d : Daemon sql.Db)
      → Prepared sql sha d.config (whitelist_init sql d.config.db_path closed).1 d
      → BeginsIf e d.config (set_up sql sha e d)
  unfolding set_up
  set_up-Begins e d p = watch-Begins e d.config _ (fanotify_init_exec_monitor e.fan_fd) (record {
    valid = p.valid;
    unlimited = p.unlimited;
    empty = p.empty;
    database = ap (booted sql sha e d.config) p.database;
    opened =
        learning-IsOpen sql sha (is_true d.config.learning_mode) _
          (scanned-IsOpen sql sha e d.config d.stores.whitelist p.opened);
    idle = p.idle;
    client = p.client;
    accepting = p.accepting;
    marks = p.marks;
    allowed = p.allowed;
    denied = p.denied;
    verdicts = p.verdicts;
    config = refl;
  })

  guard-Begins :
      (e : Surroundings) (cfg : Config) (stop : Bool) (status : ℕ) (d : Daemon sql.Db)
      (next : Started sql.Db)
      → (stop ≡ false → BeginsIf e cfg next)
      → BeginsIf e cfg (if stop then failed status d else next)
  unfolding BeginsIf
  guard-Begins e cfg true status d next go = tt
  guard-Begins e cfg false status d next go = go refl

  start-Begins : (e : Surroundings) (cfg : Config) → BeginsIf e cfg (start sql sha e cfg)
  unfolding start
  start-Begins e cfg = guard-Begins e cfg (not e.root) _ _ _ (λ _.
      guard-Begins e cfg (not (is_zero (create_directories e.lib_directory e.run_directory))) _ _ _
        (λ _.
          guard-Begins e cfg (not (is_zero (whitelist_init sql cfg.db_path closed).0)) _ _ _
            (λ opened.
              guard-Begins e cfg (not (is_zero (cache_init e.table_ok e.bloom_ok 0 zero_cache).0)) _
                _ _
                (λ allocated.
                  guard-Begins e cfg
                    (not (
                      is_zero
                        (ipc_server_init e.socket e.bind_ok e.listen_ok e.thread_ok
                          stopped_server).0))
                    _ _ _
                    (λ listening.
                      set_up-Begins e _ (prepared sql sha e cfg opened allocated listening))))))

module _ (sql : Sqlite) (sha : Sha256) where
  BeginsIf-serving :
      (e : Surroundings) (cfg : Config) (d : Daemon sql.Db) (s : Started sql.Db)
      → BeginsIf sql sha e cfg s
      → s ≡ serving d
      → Begins sql sha e cfg d
  unfolding BeginsIf
  BeginsIf-serving e cfg d s b h = rw h at b

  -- What a start that comes to the event loop gives to it.
  pub serving-Begins :
      (e : Surroundings) (cfg : Config) (d : Daemon sql.Db)
      → start sql sha e cfg ≡ serving d
      → Begins sql sha e cfg d
  serving-Begins e cfg d begun =
      BeginsIf-serving e cfg d (start sql sha e cfg) (start-Begins sql sha e cfg) begun

module _ ⦃libc : Libc⦄ (sql : Sqlite) (sha : Sha256) where
  -- A start that comes to the event loop gives it a ready daemon with the loaded configuration: the
  -- cache valid and without a limit, the database open, and no request pending. The root mount is
  -- marked for executions, and for opened files if libraries are to be monitored, unless the kernel
  -- refuses the mark.
  pub start-IsReady :
      (e : Surroundings) (cfg : Config) (d : Daemon sql.Db)
      → start sql sha e cfg ≡ serving d
      → IsReady sql d × (d.config ≡ cfg) × (d.marks ≡ root_mark e cfg)
  start-IsReady e cfg d begun =
      let b = serving-Begins sql sha e cfg d begun in
      (
        record { valid = b.valid; unlimited = b.unlimited; opened = b.opened; idle = b.idle },
        b.config,
        b.marks,
      )
