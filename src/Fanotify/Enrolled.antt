-- ===== src/Fanotify/Enrolled.antt =====
-- A hash in the database over the event loop of src/daemon/fanotify_handler.c.
use linux_anti_executable.Base.{
  ℕ, ◌≡◌, sym, ◌∙◌, Bool, true, not, ◌&&◌, ◌||◌, Option, none, some, List, arith, pos, is_true,
  is_zero, same_bytes_refl,
}
use linux_anti_executable.Hash.Hex.{Libc}
use linux_anti_executable.Hash.File.{Sha256}
use linux_anti_executable.Hash.File.Digest.{IsSha256}
use linux_anti_executable.Whitelist.{Sqlite, whitelist_add}
use linux_anti_executable.Whitelist.Laws.{IsSqlite, listed, whitelist_add-listed}
use linux_anti_executable.Cache.Invariant.{cache_add-whitelist}
use linux_anti_executable.Fanotify.{
  Event, Daemon, fanotify_allow, fanotify_deny, fanotify_stop, ask_user_permission, add_to_cache,
  remember, obey, decide, check_hash, visited,
}
use linux_anti_executable.Fanotify.Policy.{decision_on, known, subject}
use linux_anti_executable.Fanotify.Ready.{IsReady, looked_up, check_hash-IsReady, visited-IsReady}
use linux_anti_executable.Fanotify.Always.{Always, handle_event-Always}
use linux_anti_executable.Fanotify.Loop.{Round, event_loop, event_loop-Always}
use linux_anti_executable.Fanotify.Remember.{is_always, check_hash-listed, subject-length}
use linux_anti_executable.Fanotify.Known.{handler, handler_checked}

module _ ⦃libc : Libc⦄ (sql : Sqlite) (laws : IsSqlite sql) (q : List ℕ) where
  -- A ready daemon whose database has the hash.
  pub record Lists (d : Daemon sql.Db) : Type 0 where
    pub ready : IsReady sql d
    pub has : listed sql d.stores.whitelist q ≡ true

  check_hash-has :
      (is_so : Bool) (e : Event) (path hash : List ℕ) (d : Daemon sql.Db)
      → IsReady sql d
      → listed sql d.stores.whitelist q ≡ true
      → Always (λ d'. listed sql d'.stores.whitelist q ≡ true) (check_hash sql is_so e path hash d)
  unfolding check_hash add_to_cache remember ask_user_permission obey decide fanotify_allow
      fanotify_deny
  check_hash-has is_so e path hash d g h =
      let d1 = looked_up sql hash d in
      let w = (whitelist_add sql e.now hash path (pos 0) d.stores.whitelist).1 in
      ground (
        arith,
        h,
        whitelist_add-listed sql laws e.now hash path (pos 0) d.stores.whitelist q g.opened.check,
        cache_add-whitelist sql e.malloc_ok e.now hash path d1.stores,
        cache_add-whitelist sql e.malloc_ok e.now hash path (record d1.stores { whitelist = w }),
      )

  Always-Lists :
      (r : Option (Daemon sql.Db))
      → Always (IsReady sql) r
      → Always (λ d. listed sql d.stores.whitelist q ≡ true) r
      → Always Lists r
  Always-Lists none g h = tt
  Always-Lists (some d) g h = record { ready = g; has = h }

  fanotify_allow-Lists : (e : Event) (d : Daemon sql.Db) → Lists d → Lists (fanotify_allow e d)
  unfolding fanotify_allow
  fanotify_allow-Lists e d k = ground (arith, k)

  visited-Lists : (e : Event) (d : Daemon sql.Db) → Lists d → Lists (visited e d)
  visited-Lists e d k = record { ready = visited-IsReady sql e d k.ready; has = k.has }

  fanotify_stop-Lists : (d : Daemon sql.Db) → Lists d → Lists (fanotify_stop d)
  unfolding fanotify_stop
  fanotify_stop-Lists d k = ground (arith, k)

  pub event_loop-Lists :
      (sha : Sha256) (rounds : List Round) (d : Daemon sql.Db)
      → Lists d
      → Always Lists (event_loop sql sha rounds d)
  event_loop-Lists sha =
      event_loop-Always sql sha Lists
        (handle_event-Always sql sha Lists fanotify_allow-Lists (λ is_so e path hash d k.
          Always-Lists (check_hash sql is_so e path hash d)
            (check_hash-IsReady sql is_so e path hash d k.ready)
            (check_hash-has is_so e path hash d k.ready k.has)))
        visited-Lists fanotify_stop-Lists

module _ ⦃libc : Libc⦄ (sql : Sqlite) (sha : Sha256) where
  -- The file is in the database already, or it is unknown, learning mode or the user lets it in for
  -- good, and the insertion succeeds.
  unfoldable pub enrolled : List ℕ → List ℕ → Event → Bool → Daemon sql.Db → Bool
  enrolled path hash e is_so d =
      listed sql d.stores.whitelist hash
      || not (known sql d hash)
        && (is_true d.config.learning_mode || is_always (decision_on path hash e is_so d))
        && is_zero (whitelist_add sql e.now hash path (pos 0) d.stores.whitelist).0

  -- Who is let in for good stays in the database: after a ready daemon handled an event of either
  -- kind on a file that the database has, or that was unknown and that learning mode or the user let
  -- in for good with an insertion that succeeds, and however long its event loop ran then, the
  -- database has the file's hash.
  pub enrolled_for_good :
      {digest : List ℕ → List ℕ} (laws : IsSqlite sql) (hashing : IsSha256 sha digest) (e : Event)
      (d d' last : Daemon sql.Db) (path hash : List ℕ) (is_so : Bool) (rounds : List Round)
      → IsReady sql d
      → subject sha is_so e d.config ≡ some (path, hash)
      → enrolled path hash e is_so d ≡ true
      → handler sql sha is_so e d ≡ some d'
      → event_loop sql sha rounds d' ≡ some last
      → listed sql last.stores.whitelist hash ≡ true
  unfolding enrolled
  enrolled_for_good laws hashing e d d' last path hash is_so rounds g s enters h run =
      let len = subject-length sql sha hashing is_so e d.config path hash s in
      let checked = sym (handler_checked sql sha is_so e d path hash s) ∙ h in
      let there = check_hash-listed sql laws is_so e path hash d hash {d' = d'} g len checked in
      let ready : IsReady sql d' = rw checked at (check_hash-IsReady sql is_so e path hash d g) in
      let first : Lists sql laws hash d' = record {
        ready = ready;
        has = there ∙ ground (arith, enters, same_bytes_refl hash);
      } in
      let kept : Lists sql laws hash last =
        rw run at (event_loop-Lists sql laws hash sha rounds d' first) in
      kept.has
