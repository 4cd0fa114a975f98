-- ===== src/Fanotify/Always.antt =====
-- Properties of the daemon that the event handlers of src/daemon/fanotify_handler.c keep.
use linux_anti_executable.Base.{ℕ, Bool, true, false, Option, none, some, List, arith}
use linux_anti_executable.Hash.Hex.{Libc}
use linux_anti_executable.Hash.File.{Sha256, hash_fd}
use linux_anti_executable.Whitelist.{Sqlite}
use linux_anti_executable.Fanotify.{
  Event, Daemon, fanotify_allow, check_hash, hashed, exec_at, open_at, read_link,
  handle_exec_perm_event, handle_open_perm_event, handle_event,
}

-- A property of every daemon that a call may return.
abbrev pub Always : {D : Type 0} → (Daemon D → Type 0) → Option (Daemon D) → Type 0
Always P none = Unit {0}
Always P (some d) = P d

-- What an unconditional permission and the part that both handlers share keep, every event keeps.
module _ ⦃libc : Libc⦄ (sql : Sqlite) (sha : Sha256) (P : Daemon sql.Db → Type 0)
    (permits : (e : Event) (d : Daemon sql.Db) → P d → P (fanotify_allow e d))
    (checks : (is_so : Bool) (e : Event) (path hash : List ℕ) (d : Daemon sql.Db)
      → P d
      → Always P (check_hash sql is_so e path hash d)) where
  hashed-Always :
      (is_so : Bool) (e : Event) (path : List ℕ) (found : Option (List ℕ)) (d : Daemon sql.Db)
      → P d
      → Always P (hashed sql sha is_so e path found d)
  unfolding hashed
  hashed-Always is_so e path none d g = permits e d g
  hashed-Always is_so e path (some hash) d g = checks is_so e path hash d g

  exec_at-Always :
      (e : Event) (link : Option (List ℕ)) (d : Daemon sql.Db)
      → P d
      → Always P (exec_at sql sha e link d)
  unfolding exec_at
  exec_at-Always e none d g = permits e d g
  exec_at-Always e (some path) d g =
      ground (arith, permits e d g, hashed-Always false e path (hash_fd sha e.file).0 d g)

  open_at-Always :
      (e : Event) (link : Option (List ℕ)) (d : Daemon sql.Db)
      → P d
      → Always P (open_at sql sha e link d)
  unfolding open_at
  open_at-Always e none d g = permits e d g
  open_at-Always e (some path) d g =
      ground (arith, permits e d g, hashed-Always true e path (hash_fd sha e.file).0 d g)

  pub handle_event-Always :
      (e : Event) (d : Daemon sql.Db) → P d → Always P (handle_event sql sha e d)
  unfolding handle_event handle_exec_perm_event handle_open_perm_event
  handle_event-Always e d g =
      ground
        (arith, g, exec_at-Always e (read_link e.link) d g, open_at-Always e (read_link e.link) d g)
