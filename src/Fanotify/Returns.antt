-- ===== src/Fanotify/Returns.antt =====
-- That the event loop of src/daemon/fanotify_handler.c never hangs on the GUI: with a positive
-- timeout every handler returns.
use linux_anti_executable.Base.{
  ℕ, ◌≡◌, ◌≢◌, refl, sym, Bool, true, false, Option, none, some, List, [], ◌∷◌, arith, Bool-cases,
  inl, inr,
}
use linux_anti_executable.Hash.Hex.{Libc}
use linux_anti_executable.Hash.File.{Sha256, hash_fd}
use linux_anti_executable.Whitelist.{Sqlite}
use linux_anti_executable.Config.{Config}
use linux_anti_executable.Ipc.{Server, is_timed, ipc_request_permission}
use linux_anti_executable.Ipc.Pending.{ipc_request_permission-returns}
use linux_anti_executable.Fanotify.{
  Event, Daemon, fanotify_allow, fanotify_deny, fanotify_stop, ask_user_permission, add_to_cache,
  remember, obey, decide, check_hash, hashed, exec_at, open_at, read_link, build_request,
  handle_exec_perm_event, handle_open_perm_event, handle_event, visited,
}
use linux_anti_executable.Fanotify.Always.{Always}
use linux_anti_executable.Fanotify.Ready.{IsReady, looked_up}
use linux_anti_executable.Fanotify.Loop.{
  Round, signal, again, interrupted, broken, batch, process_buffer, event_loop, event_loop-IsReady,
}

-- The call comes to its end, and the configuration is as before.
abbrev pub Returns : {D : Type 0} → Config → Option (Daemon D) → Type 0
Returns cfg none = ⊥
Returns cfg (some d') = d'.config ≡ cfg

module _ ⦃libc : Libc⦄ (sql : Sqlite) where
  decide-Returns :
      (d : Daemon sql.Db) (r : Option (ℕ × Server)) (hash path : List ℕ) (e : Event)
      → r ≢ none
      → Returns d.config (obey sql hash path e (decide d r))
  unfolding decide obey remember add_to_cache fanotify_allow fanotify_deny
  decide-Returns d none hash path e n = absurd (n refl)
  decide-Returns d (some (response, server)) hash path e n = ground arith

  check_hash-Returns :
      (is_so : Bool) (e : Event) (path hash : List ℕ) (d : Daemon sql.Db)
      → is_timed d.config.gui_timeout_ms ≡ true
      → Returns d.config (check_hash sql is_so e path hash d)
  unfolding check_hash ask_user_permission remember add_to_cache fanotify_allow
  check_hash-Returns is_so e path hash d t =
      let request = build_request path hash e is_so in
      let asked =
        ipc_request_permission e.request_ok e.replies request d.config.gui_timeout_ms d.server in
      ground (
        arith,
        decide-Returns (looked_up sql hash d) asked hash path e (
            ipc_request_permission-returns e.request_ok e.replies request d.config.gui_timeout_ms
              d.server t),
      )

module _ ⦃libc : Libc⦄ (sql : Sqlite) (sha : Sha256) where
  hashed-Returns :
      (is_so : Bool) (e : Event) (path : List ℕ) (found : Option (List ℕ)) (d : Daemon sql.Db)
      → is_timed d.config.gui_timeout_ms ≡ true
      → Returns d.config (hashed sql sha is_so e path found d)
  unfolding hashed fanotify_allow
  hashed-Returns is_so e path none d t = ground arith
  hashed-Returns is_so e path (some hash) d t = check_hash-Returns sql is_so e path hash d t

  exec_at-Returns :
      (e : Event) (link : Option (List ℕ)) (d : Daemon sql.Db)
      → is_timed d.config.gui_timeout_ms ≡ true
      → Returns d.config (exec_at sql sha e link d)
  unfolding exec_at fanotify_allow
  exec_at-Returns e none d t = ground arith
  exec_at-Returns e (some path) d t =
      ground (arith, hashed-Returns false e path (hash_fd sha e.file).0 d t)

  open_at-Returns :
      (e : Event) (link : Option (List ℕ)) (d : Daemon sql.Db)
      → is_timed d.config.gui_timeout_ms ≡ true
      → Returns d.config (open_at sql sha e link d)
  unfolding open_at fanotify_allow
  open_at-Returns e none d t = ground arith
  open_at-Returns e (some path) d t =
      ground (arith, hashed-Returns true e path (hash_fd sha e.file).0 d t)

  handle_event-Returns :
      (e : Event) (d : Daemon sql.Db)
      → is_timed d.config.gui_timeout_ms ≡ true
      → Returns d.config (handle_event sql sha e d)
  unfolding handle_event handle_exec_perm_event handle_open_perm_event
  handle_event-Returns e d t =
      ground
        (arith, exec_at-Returns e (read_link e.link) d t, open_at-Returns e (read_link e.link) d t)

  Returns-then :
      (cfg : Config) (r : Option (Daemon sql.Db)) (next : Daemon sql.Db → Option (Daemon sql.Db))
      → Returns cfg r
      → ((d : Daemon sql.Db) → d.config ≡ cfg → Returns cfg (next d))
      → Returns cfg (elim r [ none ↦ none | some d ↦ next d ])
  Returns-then cfg none next h k = h
  Returns-then cfg (some d) next h k = k d h

  pub process_buffer-Returns :
      (cfg : Config) (es : List Event) (d : Daemon sql.Db)
      → is_timed cfg.gui_timeout_ms ≡ true
      → d.config ≡ cfg
      → Returns cfg (process_buffer sql sha es d)
  unfolding process_buffer
  process_buffer-Returns cfg [] d t c = c
  process_buffer-Returns cfg (e ∷ es) d t c = elim (Bool-cases e.version_ok) [
    | inr stop ↦ simp stop c
    | inl go ↦ simp go (
        Returns-then cfg (handle_event sql sha e (visited e d)) (process_buffer sql sha es)
          (rw (sym c) (handle_event-Returns e (visited e d) (rw c t)))
          (λ d' c'. process_buffer-Returns cfg es d' t c'))
  ]

  event_loop-Returns :
      (cfg : Config) (rounds : List Round) (d : Daemon sql.Db)
      → is_timed cfg.gui_timeout_ms ≡ true
      → d.config ≡ cfg
      → Returns cfg (event_loop sql sha rounds d)
  unfolding event_loop fanotify_stop
  event_loop-Returns cfg [] d t c = c
  event_loop-Returns cfg (signal ∷ rounds) d t c = c
  event_loop-Returns cfg (again ∷ rounds) d t c = event_loop-Returns cfg rounds d t c
  event_loop-Returns cfg (interrupted ∷ rounds) d t c = event_loop-Returns cfg rounds d t c
  event_loop-Returns cfg (broken ∷ rounds) d t c = c
  event_loop-Returns cfg (batch es ∷ rounds) d t c =
      Returns-then cfg (process_buffer sql sha es d) (event_loop sql sha rounds)
        (process_buffer-Returns cfg es d t c) (λ d' c'. event_loop-Returns cfg rounds d' t c')

  both :
      (cfg : Config) (r : Option (Daemon sql.Db))
      → Returns cfg r
      → Always (IsReady sql) r
      → (d' : Daemon sql.Db) × (r ≡ some d') × (d'.config ≡ cfg) × IsReady sql d'
  both cfg none c g = absurd c
  both cfg (some d') c g = (d', refl, c, g)

  -- With a positive timeout for the GUI the event loop gets through any rounds that it meets, and
  -- leaves a ready daemon ready, with the same configuration: the cache valid, the database open
  -- and no request pending.
  pub event_loop_returns :
      (rounds : List Round) (d : Daemon sql.Db)
      → is_timed d.config.gui_timeout_ms ≡ true
      → IsReady sql d
      → (d' : Daemon sql.Db) × (event_loop sql sha rounds d ≡ some d')
        × (d'.config ≡ d.config)
        × IsReady sql d'
  event_loop_returns rounds d t g =
      both d.config (event_loop sql sha rounds d) (event_loop-Returns d.config rounds d t refl)
        (event_loop-IsReady sql sha rounds d g)
