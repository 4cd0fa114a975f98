-- ===== src/Fanotify/Statistics.antt =====
-- The counters of src/daemon/fanotify_handler.c: what `fanotify_get_stats` reports.
use linux_anti_executable.Base.{
  ℕ, ◌+◌, ◌%◌, ◌^◌, ◌≡◌, Bool, Option, none, some, List, [], ◌∷◌, arith,
}
use linux_anti_executable.Hash.Hex.{Libc}
use linux_anti_executable.Hash.File.{Sha256}
use linux_anti_executable.Whitelist.{Sqlite}
use linux_anti_executable.Cache.{cache_check, incr64}
use linux_anti_executable.Ipc.{Server, ipc_request_permission}
use linux_anti_executable.Fanotify.{
  Event, Daemon, Verdict, allow, deny, fanotify_allow, fanotify_deny, fanotify_stop,
  ask_user_permission, add_to_cache, remember, obey, decide, check_hash, build_request, visited,
}
use linux_anti_executable.Fanotify.Always.{Always, handle_event-Always}
use linux_anti_executable.Fanotify.Loop.{Round, event_loop, event_loop-Always}

-- The verdicts of each kind.
unfoldable pub allows : List (ℕ × Verdict) → ℕ
allows [] = 0
allows ((fd, allow) ∷ vs) = allows vs + 1
allows ((fd, deny) ∷ vs) = allows vs

unfoldable pub denies : List (ℕ × Verdict) → ℕ
denies [] = 0
denies ((fd, allow) ∷ vs) = denies vs
denies ((fd, deny) ∷ vs) = denies vs + 1

-- The counters agree with what was written to the kernel, in 64 bits.
pub record IsCounted {D : Type 0} (d : Daemon D) : Type 0 where
  pub allowed : d.stat_allowed ≡ allows d.verdicts % 2 ^ 64
  pub denied : d.stat_denied ≡ denies d.verdicts % 2 ^ 64

module _ {D : Type 0} where
  fanotify_allow-IsCounted :
      (e : Event) (d : Daemon D) → IsCounted d → IsCounted (fanotify_allow e d)
  unfolding fanotify_allow allows denies
  fanotify_allow-IsCounted e d c = ground (arith, c)

  fanotify_deny-IsCounted : (e : Event) (d : Daemon D) → IsCounted d → IsCounted (fanotify_deny e d)
  unfolding fanotify_deny allows denies
  fanotify_deny-IsCounted e d c = ground (arith, c)

module _ ⦃libc : Libc⦄ (sql : Sqlite) where
  remember-IsCounted :
      (hash path : List ℕ) (e : Event) (d : Daemon sql.Db)
      → IsCounted d
      → IsCounted (remember sql hash path e d)
  unfolding remember add_to_cache
  remember-IsCounted hash path e d c = record { allowed = c.allowed; denied = c.denied }

  obey-IsCounted :
      (d : Daemon sql.Db) (r : Option (ℕ × Server)) (hash path : List ℕ) (e : Event)
      → IsCounted d
      → Always IsCounted (obey sql hash path e (decide d r))
  unfolding decide obey
  obey-IsCounted d none hash path e c = tt
  obey-IsCounted d (some (response, server)) hash path e c =
      let d1 = record d { server = server } in
      let c1 : IsCounted d1 = record { allowed = c.allowed; denied = c.denied } in
      ground (
        arith,
        fanotify_allow-IsCounted e (remember sql hash path e d1)
            (remember-IsCounted hash path e d1 c1),
        fanotify_allow-IsCounted e d1 c1,
        fanotify_deny-IsCounted e d1 c1,
      )

  check_hash-IsCounted :
      (is_so : Bool) (e : Event) (path hash : List ℕ) (d : Daemon sql.Db)
      → IsCounted d
      → Always IsCounted (check_hash sql is_so e path hash d)
  unfolding check_hash ask_user_permission add_to_cache
  check_hash-IsCounted is_so e path hash d c =
      let (hit, cache) = cache_check hash d.stores.cache in
      let d1 = record d { stores = record d.stores { cache = cache } } in
      let c1 : IsCounted d1 = record { allowed = c.allowed; denied = c.denied } in
      let counted = record d1 { stat_cached = incr64 d1.stat_cached } in
      let asked =
        ipc_request_permission e.request_ok e.replies (build_request path hash e is_so)
          d.config.gui_timeout_ms d.server in
      ground (
        arith,
        fanotify_allow-IsCounted e counted (record { allowed = c.allowed; denied = c.denied }),
        fanotify_allow-IsCounted e (add_to_cache sql hash path e d1)
            (record { allowed = c.allowed; denied = c.denied }),
        fanotify_allow-IsCounted e (remember sql hash path e d1)
            (remember-IsCounted hash path e d1 c1),
        obey-IsCounted d1 asked hash path e c1,
      )

module _ ⦃libc : Libc⦄ (sql : Sqlite) (sha : Sha256) where
  fanotify_stop-IsCounted : (d : Daemon sql.Db) → IsCounted d → IsCounted (fanotify_stop d)
  unfolding fanotify_stop
  fanotify_stop-IsCounted d c = record { allowed = c.allowed; denied = c.denied }

  visited-IsCounted : (e : Event) (d : Daemon sql.Db) → IsCounted d → IsCounted (visited e d)
  visited-IsCounted e d c = record { allowed = c.allowed; denied = c.denied }

  -- Whatever rounds the event loop meets, when it ends the reported numbers of allowed and denied
  -- events are those of the verdicts that were written to the kernel, in 64 bits, if they were
  -- before.
  pub event_loop-IsCounted :
      (rounds : List Round) (d : Daemon sql.Db)
      → IsCounted d
      → Always IsCounted (event_loop sql sha rounds d)
  event_loop-IsCounted =
      event_loop-Always sql sha IsCounted
        (handle_event-Always sql sha IsCounted fanotify_allow-IsCounted (check_hash-IsCounted sql))
        visited-IsCounted fanotify_stop-IsCounted
