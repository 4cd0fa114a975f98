-- ===== src/Fanotify/Ready.antt =====
-- What holds of the daemon of src/daemon/fanotify_handler.c between two events, and what an event
-- leaves behind in the cache and the database.
use linux_anti_executable.Base.{ℕ, ◌≡◌, refl, ◌∙◌, Bool, Option, none, some, List, arith, pos}
use linux_anti_executable.Hash.Hex.{Libc}
use linux_anti_executable.Hash.File.{Sha256}
use linux_anti_executable.Whitelist.{Sqlite, whitelist_add}
use linux_anti_executable.Whitelist.Laws.{IsOpen, whitelist_add-IsOpen}
use linux_anti_executable.Cache.{cache_check, incr64}
use linux_anti_executable.Cache.Invariant.{
  IsValid, cache_check-IsValid, cache_add-IsValid, cache_check-max_entries, cache_add-max_entries,
  cache_add-whitelist,
}
use linux_anti_executable.Ipc.{Server, ipc_request_permission}
use linux_anti_executable.Ipc.Visits.{visit_all-Visited}
use linux_anti_executable.Ipc.Pending.{ipc_request_permission-idle}
use linux_anti_executable.Fanotify.Always.{Always, handle_event-Always}
use linux_anti_executable.Fanotify.{
  Event, Daemon, fanotify_allow, fanotify_deny, ask_user_permission, add_to_cache, remember, obey,
  decide, check_hash, handle_event, build_request, visited,
}

module _ ⦃libc : Libc⦄ (sql : Sqlite) where
  -- The cache is valid and without a limit, the database is open, and no request is pending.
  pub record IsReady (d : Daemon sql.Db) : Type 0 where
    pub valid : IsValid d.stores.cache
    pub unlimited : d.stores.cache.max_entries ≡ 0
    pub opened : IsOpen sql d.stores.whitelist
    pub idle : d.server.pending_count ≡ 0

  fanotify_allow-IsReady :
      (e : Event) (d : Daemon sql.Db) → IsReady d → IsReady (fanotify_allow e d)
  unfolding fanotify_allow
  fanotify_allow-IsReady e d g = ground (arith, g)

  pub visited-IsReady : (e : Event) (d : Daemon sql.Db) → IsReady d → IsReady (visited e d)
  visited-IsReady e d g = record {
    valid = g.valid;
    unlimited = g.unlimited;
    opened = g.opened;
    idle = (visit_all-Visited e.visits d.server).pending_count ∙ g.idle;
  }

  fanotify_deny-IsReady : (e : Event) (d : Daemon sql.Db) → IsReady d → IsReady (fanotify_deny e d)
  unfolding fanotify_deny
  fanotify_deny-IsReady e d g = ground (arith, g)

  add_to_cache-IsReady :
      (hash path : List ℕ) (e : Event) (d : Daemon sql.Db)
      → IsReady d
      → IsReady (add_to_cache sql hash path e d)
  unfolding add_to_cache
  add_to_cache-IsReady hash path e d g = record {
    valid = cache_add-IsValid sql e.malloc_ok e.now hash path (pos 0) d.stores g.valid;
    unlimited =
        cache_add-max_entries sql e.malloc_ok e.now hash path (pos 0) d.stores ∙ g.unlimited;
    opened = rw (cache_add-whitelist sql e.malloc_ok e.now hash path d.stores) g.opened;
    idle = g.idle;
  }

  remember-IsReady :
      (hash path : List ℕ) (e : Event) (d : Daemon sql.Db)
      → IsReady d
      → IsReady (remember sql hash path e d)
  unfolding remember
  remember-IsReady hash path e d g =
      let w = (whitelist_add sql e.now hash path (pos 0) d.stores.whitelist).1 in
      add_to_cache-IsReady hash path e (record d { stores = record d.stores { whitelist = w } })
        (record {
          valid = g.valid;
          unlimited = g.unlimited;
          opened = whitelist_add-IsOpen sql e.now hash path (pos 0) d.stores.whitelist g.opened;
          idle = g.idle;
        })

  -- The daemon after the lookup in the cache.
  abbrev pub looked_up : List ℕ → Daemon sql.Db → Daemon sql.Db
  looked_up hash d = record d {
    stores = record d.stores { cache = (cache_check hash d.stores.cache).1 };
  }

  pub looked_up-IsReady :
      (hash : List ℕ) (d : Daemon sql.Db) → IsReady d → IsReady (looked_up hash d)
  looked_up-IsReady hash d g = record {
    valid = cache_check-IsValid hash g.valid;
    unlimited = cache_check-max_entries hash d.stores.cache ∙ g.unlimited;
    opened = g.opened;
    idle = g.idle;
  }

  decide-IsReady :
      (d : Daemon sql.Db) (r : Option (ℕ × Server)) (hash path : List ℕ) (e : Event)
      → IsReady d
      → ((x : ℕ × Server) → r ≡ some x → x.1.pending_count ≡ 0)
      → Always IsReady (obey sql hash path e (decide d r))
  unfolding decide obey
  decide-IsReady d none hash path e g h = tt
  decide-IsReady d (some (response, server)) hash path e g h =
      let d1 = record d { server = server } in
      let g1 : IsReady d1 = record {
        valid = g.valid;
        unlimited = g.unlimited;
        opened = g.opened;
        idle = h (response, server) refl;
      } in
      ground (
        arith,
        fanotify_allow-IsReady e (remember sql hash path e d1) (remember-IsReady hash path e d1 g1),
        fanotify_allow-IsReady e d1 g1,
        fanotify_deny-IsReady e d1 g1,
      )

  pub check_hash-IsReady :
      (is_so : Bool) (e : Event) (path hash : List ℕ) (d : Daemon sql.Db)
      → IsReady d
      → Always IsReady (check_hash sql is_so e path hash d)
  unfolding check_hash ask_user_permission
  check_hash-IsReady is_so e path hash d g =
      let d1 = looked_up hash d in
      let g1 = looked_up-IsReady hash d g in
      let hit = record d1 { stat_cached = incr64 d1.stat_cached } in
      let g2 : IsReady hit = record {
        valid = g1.valid;
        unlimited = g1.unlimited;
        opened = g1.opened;
        idle = g1.idle;
      } in
      let request = build_request path hash e is_so in
      let asked =
        ipc_request_permission e.request_ok e.replies request d.config.gui_timeout_ms d.server in
      ground (
        arith,
        fanotify_allow-IsReady e hit g2,
        fanotify_allow-IsReady e (add_to_cache sql hash path e d1)
            (add_to_cache-IsReady hash path e d1 g1),
        fanotify_allow-IsReady e (remember sql hash path e d1) (remember-IsReady hash path e d1 g1),
        decide-IsReady d1 asked hash path e g1 (λ x h.
            ipc_request_permission-idle e.request_ok e.replies request d.config.gui_timeout_ms
              d.server g.idle h),
      )

module _ ⦃libc : Libc⦄ (sql : Sqlite) (sha : Sha256) where
  -- Every event that is handled to its end leaves the daemon ready for the next.
  pub handle_event-IsReady :
      (e : Event) (d : Daemon sql.Db)
      → IsReady sql d
      → Always (IsReady sql) (handle_event sql sha e d)
  handle_event-IsReady =
      handle_event-Always sql sha (IsReady sql) (fanotify_allow-IsReady sql)
        (check_hash-IsReady sql)
