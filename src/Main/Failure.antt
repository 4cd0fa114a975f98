-- ===== src/Main/Failure.antt =====
-- What a start of src/daemon/main.c that fails leaves behind.
use linux_anti_executable.Base.{
  ℕ, ◌≡◌, ◌≢◌, ◌⊎◌, refl, Bool, true, false, not, ◌&&◌, Option, none, some, if◌then◌else◌, ℤ, pos,
  is_true, is_zero, arith, Bool-cases, inl, inr,
}
use linux_anti_executable.Hash.File.{Sha256}
use linux_anti_executable.Whitelist.{Sqlite, Whitelist, closed, whitelist_init, whitelist_close}
use linux_anti_executable.Cache.{Cache, zero_cache, cache_init, cache_shutdown}
use linux_anti_executable.Config.{Config}
use linux_anti_executable.Ipc.{Server, stopped_server, ipc_server_init}
use linux_anti_executable.Fanotify.Mounts.{fanotify_init_exec_monitor}
use linux_anti_executable.Fanotify.{Daemon, fanotify_set_monitor_shared_libs}
use linux_anti_executable.Main.System.{
  create_directories, ForkAnswer, child, Detached, returns, daemonize,
}
use linux_anti_executable.Main.{
  Surroundings, Started, failed, serving, shut_down, close_stores, monitor_mounts, mark_all, detach,
  watch, set_up, start,
}

is_child : ForkAnswer → Bool
is_child child = true
is_child _ = false

-- This is the process that `daemonize` leaves running.
unfoldable pub detaches : Surroundings → Bool
unfolding is_child
detaches e =
    is_child e.detaching.first
    && e.detaching.setsid_ok
    && is_child e.detaching.second
    && e.detaching.chdir_ok

module _ (sql : Sqlite) (sha : Sha256) (e : Surroundings) (cfg : Config) where
  -- The cache holds no memory, and the database is closed, unless `whitelist_init` failed, which
  -- leaves the handle as it was then.
  pub record Clean (d : Daemon sql.Db) : Type 0 where
    pub cache : d.stores.cache.initialized ≡ false
    pub database :
        (d.stores.whitelist.db ≡ none)
        ⊎ (((whitelist_init sql cfg.db_path closed).0 ≢ pos 0)
            × (d.stores.whitelist ≡ (whitelist_init sql cfg.db_path closed).1))

  CleanIf : Started sql.Db → Type 0
  CleanIf (failed status d) = detaches e ≡ true → Clean d
  CleanIf (serving d) = Unit {0}

  guard-Clean :
      (stop : Bool) (status : ℕ) (d : Daemon sql.Db) (next : Started sql.Db)
      → (stop ≡ true → Clean d)
      → CleanIf next
      → CleanIf (if stop then failed status d else next)
  unfolding CleanIf
  guard-Clean true status d next now later = λ detached. now refl
  guard-Clean false status d next now later = later

  cache_shutdown-initialized : (c : Cache) → (cache_shutdown c).initialized ≡ false
  unfolding cache_shutdown
  cache_shutdown-initialized c = ground arith

  cache_init-initialized :
      (table_ok bloom_ok : Bool)
      → not (is_zero (cache_init table_ok bloom_ok 0 zero_cache).0) ≡ true
      → (cache_init table_ok bloom_ok 0 zero_cache).1.initialized ≡ false
  unfolding cache_init
  cache_init-initialized false bloom_ok h = refl
  cache_init-initialized true false h = refl
  cache_init-initialized true true h = cc

  close_stores-Clean : (d : Daemon sql.Db) → Clean (close_stores sql d)
  unfolding close_stores whitelist_close
  close_stores-Clean d = record {
    cache = cache_shutdown-initialized d.stores.cache;
    database = inl refl;
  }

  shut_down-Clean : (d : Daemon sql.Db) → Clean (shut_down sql d)
  unfolding shut_down whitelist_close
  shut_down-Clean d = record {
    cache = cache_shutdown-initialized d.stores.cache;
    database = inl refl;
  }

  detaches-returns :
      (s : Server)
      → detaches e ≡ true
      → (server : Server) × (daemonize e.detaching s ≡ returns server)
  unfolding detaches daemonize is_child
  detaches-returns s h = (record s { accepting = false }, ground (arith, h))

  detach-Clean :
      (d : Daemon sql.Db) (out : Detached)
      → (detaches e ≡ true → (server : Server) × (out ≡ returns server))
      → CleanIf (detach sql sha d out)
  unfolding CleanIf detach
  detach-Clean d (Detached.exits status) back = λ detached. ground (arith, (back detached).1)
  detach-Clean d (returns server) back = tt

  watch-Clean : (d : Daemon sql.Db) (fan : Option ℕ) → CleanIf (watch sql sha e d fan)
  unfolding CleanIf watch
  watch-Clean d none = λ detached. shut_down-Clean d
  watch-Clean d (some fan_fd) =
      let d1 = fanotify_set_monitor_shared_libs d.config.monitor_shared_libs d in
      let d2 = record d1 {
        marks = mark_all sql sha monitor_mounts e d1.monitor_shared_libs d1.marks;
      } in
      elim (Bool-cases (is_true d2.config.foreground)) [
        | inl front ↦ simp front tt
        | inr back ↦
            simp back
              (detach-Clean d2 (daemonize e.detaching d2.server) (detaches-returns d2.server))
      ]

  set_up-Clean : (d : Daemon sql.Db) → CleanIf (set_up sql sha e d)
  unfolding set_up
  set_up-Clean d = watch-Clean _ (fanotify_init_exec_monitor e.fan_fd)

  unopened : (z : ℤ) → not (is_zero z) ≡ true → z ≢ pos 0
  unopened z h = λ o. ground arith

  whitelist_close-db : (w : Whitelist sql.Db) → (whitelist_close sql w).db ≡ none
  unfolding whitelist_close
  whitelist_close-db w = refl

  start-Clean : CleanIf (start sql sha e cfg)
  unfolding start
  start-Clean =
      guard-Clean (not e.root) _ _ _ (λ h. record { cache = refl; database = inl refl })
        (guard-Clean (not (is_zero (create_directories e.lib_directory e.run_directory))) _ _ _
          (λ h. record { cache = refl; database = inl refl })
          (guard-Clean (not (is_zero (whitelist_init sql cfg.db_path closed).0)) _ _ _
            (λ h. record { cache = refl; database = inr (unopened _ h, refl) })
            (guard-Clean (not (is_zero (cache_init e.table_ok e.bloom_ok 0 zero_cache).0)) _ _ _
              (λ h. record {
                cache = cache_init-initialized e.table_ok e.bloom_ok h;
                database = inl (whitelist_close-db _);
              })
              (guard-Clean
                (not (
                  is_zero
                    (ipc_server_init e.socket e.bind_ok e.listen_ok e.thread_ok stopped_server).0))
                _ _ _ (λ h. close_stores-Clean _) (set_up-Clean _)))))

  -- If the start ends before the event loop, and not in the detaching, which exits at once, then
  -- the cache holds no memory, and the database is closed, unless `whitelist_init` failed: then it is
  -- as that call left it.
  pub start-failed :
      (status : ℕ) (d : Daemon sql.Db)
      → start sql sha e cfg ≡ failed status d
      → detaches e ≡ true
      → Clean d
  unfolding CleanIf
  start-failed status d stopped detached = (rw stopped at start-Clean) detached
