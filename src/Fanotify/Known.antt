-- ===== src/Fanotify/Known.antt =====
-- The handlers of src/daemon/fanotify_handler.c on a file that the cache or the database has.
use linux_anti_executable.Base.{
  ℕ, ◌≡◌, Bool, true, false, Option, some, List, ◌∷◌, arith, length, Bool-cases, inl, inr,
}
use linux_anti_executable.Hash.Hex.{Libc, hex_to_bytes}
use linux_anti_executable.Hash.File.{Sha256}
use linux_anti_executable.Hash.File.Digest.{IsSha256}
use linux_anti_executable.Whitelist.{Sqlite}
use linux_anti_executable.Whitelist.Laws.{whitelist_check-bool}
use linux_anti_executable.Cache.Invariant.{IsValid}
use linux_anti_executable.Cache.Contents.{member, cache_check-member}
use linux_anti_executable.Cache.{cache_check, incr64}
use linux_anti_executable.Fanotify.{
  Event, Daemon, fanotify_allow, add_to_cache, check_hash, handle_exec_perm_event,
  handle_open_perm_event, hashed, allow,
}
use linux_anti_executable.Fanotify.Policy.{known, subject}
use linux_anti_executable.Fanotify.Remember.{subject-length, exec_checked}

-- The handler returns, it has answered the event by allowing it, and the server is as it was, so no
-- question was put to the GUI.
abbrev pub AllowedUnasked : {D : Type 0} → Event → Daemon D → Option (Daemon D) → Type 0
AllowedUnasked {D} e d handled =
    (after : Daemon D) × (handled ≡ some after)
    × (after.verdicts ≡ (e.fd, allow) ∷ d.verdicts)
    × (after.server ≡ d.server)

module _ ⦃libc : Libc⦄ (sql : Sqlite) where
  check_hash-known :
      (is_so : Bool) (e : Event) (path hash : List ℕ) (d : Daemon sql.Db)
      → IsValid d.stores.cache
      → length hash ≡ 64
      → e.respond_ok ≡ true
      → known sql d hash ≡ true
      → AllowedUnasked e d (check_hash sql is_so e path hash d)
  unfolding check_hash known fanotify_allow add_to_cache
  check_hash-known is_so e path hash d v len ok there =
      let answer = (cache_check-member hash hash v len).0 in
      let listing = whitelist_check-bool sql hash d.stores.whitelist in
      let d1 = record d {
        stores = record d.stores { cache = (cache_check hash d.stores.cache).1 };
      } in
      elim (Bool-cases (member d.stores.cache (hex_to_bytes hash))) [
        | inl cached ↦ (
          fanotify_allow e (record d1 { stat_cached = incr64 d1.stat_cached }),
          ground (arith, answer, cached),
          ground (arith, ok),
          ground (arith, ok),
        )
        | inr missed ↦ (
          fanotify_allow e (add_to_cache sql hash path e d1),
          ground (arith, answer, missed, listing, there),
          ground (arith, ok),
          ground (arith, ok),
        )
      ]

module _ ⦃libc : Libc⦄ (sql : Sqlite) (sha : Sha256) where
  -- The handler of the one or the other kind of event.
  abbrev pub handler : Bool → Event → Daemon sql.Db → Option (Daemon sql.Db)
  handler false = handle_exec_perm_event sql sha
  handler true = handle_open_perm_event sql sha

  pub handler_checked :
      (is_so : Bool) (e : Event) (d : Daemon sql.Db) (path hash : List ℕ)
      → subject sha is_so e d.config ≡ some (path, hash)
      → handler is_so e d ≡ check_hash sql is_so e path hash d
  unfolding subject handle_open_perm_event hashed
  handler_checked false e d path hash s = exec_checked sql sha e d path hash s
  handler_checked true e d path hash s = ground arith

  -- A checked file that is known is allowed at once.
  pub handler-known :
      {digest : List ℕ → List ℕ} (laws : IsSha256 sha digest) (is_so : Bool) (e : Event)
      (d : Daemon sql.Db) (path hash : List ℕ)
      → IsValid d.stores.cache
      → e.respond_ok ≡ true
      → subject sha is_so e d.config ≡ some (path, hash)
      → known sql d hash ≡ true
      → AllowedUnasked e d (handler is_so e d)
  handler-known laws is_so e d path hash v ok s there =
      let len = subject-length sql sha laws is_so e d.config path hash s in
      rw (handler_checked is_so e d path hash s)
        (check_hash-known sql is_so e path hash d v len ok there)
