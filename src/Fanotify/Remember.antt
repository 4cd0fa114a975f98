-- ===== src/Fanotify/Remember.antt =====
-- What an event leaves in the cache and the database: who is remembered, and that nothing is
-- forgotten (src/daemon/fanotify_handler.c).
use linux_anti_executable.Base.{
  ℕ, ◌≡◌, Bool, true, false, not, ◌&&◌, ◌||◌, Option, none, some, List, arith, ℤ, pos, is_true,
  is_one, is_zero, length, same_bytes, same_bytes-eq,
}
use linux_anti_executable.Hash.Hex.{Libc, hex_to_bytes}
use linux_anti_executable.Hash.File.{Sha256}
use linux_anti_executable.Hash.File.Digest.{IsSha256, hash_fd-length}
use linux_anti_executable.Config.{Config}
use linux_anti_executable.Whitelist.{Sqlite, whitelist_add}
use linux_anti_executable.Whitelist.Laws.{
  IsSqlite, listed, whitelist_check-bool, whitelist_add-listed,
}
use linux_anti_executable.Cache.Invariant.{IsValid, cache_add-whitelist}
use linux_anti_executable.Cache.Contents.{member, cache_check-member, cache_add-member}
use linux_anti_executable.Fanotify.{
  Event, Daemon, fanotify_allow, fanotify_deny, ask_user_permission, add_to_cache, remember, obey,
  decide, check_hash, handle_exec_perm_event, hashed,
}
use linux_anti_executable.Fanotify.Policy.{decision_on, known, subject}
use linux_anti_executable.Fanotify.Ready.{IsReady, looked_up, looked_up-IsReady}

-- The decision is to allow the file from now on.
pub is_always : Option ℤ → Bool
is_always none = false
is_always (some z) = is_one z

module _ ⦃libc : Libc⦄ (sql : Sqlite) where
  -- A file is remembered in the cache if the database has it, in learning mode, or if the decision
  -- is to allow it always.
  unfoldable pub granted : List ℕ → List ℕ → Event → Bool → Daemon sql.Db → Bool
  unfolding is_always
  granted path hash e is_so d =
      listed sql d.stores.whitelist hash
      || is_true d.config.learning_mode
      || is_always (decision_on path hash e is_so d)

  add_to_cache-member :
      (hash path : List ℕ) (e : Event) (d : Daemon sql.Db) (q : List ℕ)
      → IsValid d.stores.cache
      → d.stores.cache.max_entries ≡ 0
      → length hash ≡ 64
      → e.malloc_ok ≡ true
      → member (add_to_cache sql hash path e d).stores.cache q
        ≡ (same_bytes (hex_to_bytes hash) q || member d.stores.cache q)
  unfolding add_to_cache
  add_to_cache-member hash path e d q v max len ok = ground (
    arith,
    cache_add-member sql e.malloc_ok e.now hash path (pos 0) d.stores q v len,
    same_bytes-eq (hex_to_bytes hash) q,
  )

  remember-member :
      (hash path : List ℕ) (e : Event) (d : Daemon sql.Db) (q : List ℕ)
      → IsValid d.stores.cache
      → d.stores.cache.max_entries ≡ 0
      → length hash ≡ 64
      → e.malloc_ok ≡ true
      → member (remember sql hash path e d).stores.cache q
        ≡ (same_bytes (hex_to_bytes hash) q || member d.stores.cache q)
  unfolding remember
  remember-member hash path e d q v max len ok =
      let w = (whitelist_add sql e.now hash path (pos 0) d.stores.whitelist).1 in
      add_to_cache-member hash path e (record d { stores = record d.stores { whitelist = w } }) q v
        max len ok

  -- The cache after an event on a hashed file of a ready daemon that has memory, if the handler
  -- returns: exactly that hash is new, and only if it is granted; a hit, a refusal and an answer for
  -- once leave the set as it was.
  pub check_hash-member :
      (is_so : Bool) (e : Event) (path hash : List ℕ) (d : Daemon sql.Db) (q : List ℕ)
      {d' : Daemon sql.Db}
      → IsReady sql d
      → length hash ≡ 64
      → e.malloc_ok ≡ true
      → check_hash sql is_so e path hash d ≡ some d'
      → member d'.stores.cache q ≡ (
          granted path hash e is_so d && same_bytes (hex_to_bytes hash) q
          || member d.stores.cache q)
  unfolding check_hash add_to_cache remember ask_user_permission decision_on granted obey decide
      fanotify_allow fanotify_deny
  check_hash-member is_so e path hash d q {d'} g len ok h =
      let d1 = looked_up sql hash d in
      let g1 = looked_up-IsReady sql hash d g in
      ground (
        arith,
        cache_check-member hash hash g.valid len,
        cache_check-member hash q g.valid len,
        whitelist_check-bool sql hash d.stores.whitelist,
        same_bytes-eq (hex_to_bytes hash) q,
        add_to_cache-member hash path e d1 q g1.valid g1.unlimited len ok,
        remember-member hash path e d1 q g1.valid g1.unlimited len ok,
      )

  -- The database after an event on a hashed file of a ready daemon, if the handler returns: exactly
  -- that hash is new, if the file was unknown, learning mode or the decision asks for it, and the
  -- insertion succeeded.
  pub check_hash-listed :
      (laws : IsSqlite sql) (is_so : Bool) (e : Event) (path hash : List ℕ) (d : Daemon sql.Db)
      (q : List ℕ) {d' : Daemon sql.Db}
      → IsReady sql d
      → length hash ≡ 64
      → check_hash sql is_so e path hash d ≡ some d'
      → let wanted =
          not (known sql d hash)
          && (is_true d.config.learning_mode || is_always (decision_on path hash e is_so d)) in
        let stored = is_zero (whitelist_add sql e.now hash path (pos 0) d.stores.whitelist).0 in
        listed sql d'.stores.whitelist q
        ≡ (wanted && stored && same_bytes hash q || listed sql d.stores.whitelist q)
  unfolding check_hash add_to_cache remember ask_user_permission decision_on known is_always obey
      decide fanotify_allow fanotify_deny
  check_hash-listed laws is_so e path hash d q {d'} g len h =
      let d1 = looked_up sql hash d in
      let w = (whitelist_add sql e.now hash path (pos 0) d.stores.whitelist).1 in
      ground (
        arith,
        g.opened,
        cache_check-member hash hash g.valid len,
        whitelist_check-bool sql hash d.stores.whitelist,
        whitelist_add-listed sql laws e.now hash path (pos 0) d.stores.whitelist q g.opened.check,
        cache_add-whitelist sql e.malloc_ok e.now hash path d1.stores,
        cache_add-whitelist sql e.malloc_ok e.now hash path (record d1.stores { whitelist = w }),
      )

module _ ⦃libc : Libc⦄ (sql : Sqlite) (sha : Sha256) where
  -- A checked file goes to the part that both handlers share.
  pub exec_checked :
      (e : Event) (d : Daemon sql.Db) (path hash : List ℕ)
      → subject sha false e d.config ≡ some (path, hash)
      → handle_exec_perm_event sql sha e d ≡ check_hash sql false e path hash d
  unfolding subject handle_exec_perm_event hashed
  exec_checked e d path hash s = ground arith

  -- A checked file has a hash of 64 characters.
  pub subject-length :
      {digest : List ℕ → List ℕ} (laws : IsSha256 sha digest) (is_so : Bool) (e : Event)
      (cfg : Config) (path hash : List ℕ)
      → subject sha is_so e cfg ≡ some (path, hash)
      → length hash ≡ 64
  unfolding subject
  subject-length {digest} laws is_so e cfg path hash s =
      hash_fd-length sha digest laws e.file {hex = hash} (ground arith)
