-- ===== src/Fanotify/Forever.antt =====
-- A hash in the cache over the event loop of src/daemon/fanotify_handler.c.
use linux_anti_executable.Base.{
  ℕ, ◌≡◌, sym, ◌∙◌, Bool, true, ◌==◌, Option, none, some, List, arith, pos, length, same_bytes_refl,
  Bool-cases, inl, inr, ==_iff,
}
use linux_anti_executable.Hash.Hex.{Libc, hex_to_bytes}
use linux_anti_executable.Hash.File.{Sha256}
use linux_anti_executable.Hash.File.Digest.{IsSha256}
use linux_anti_executable.Whitelist.{Sqlite, whitelist_add}
use linux_anti_executable.Cache.Invariant.{IsValid, cache_check-IsValid}
use linux_anti_executable.Cache.{Cache, Stores, hash_hex_len, cache_check, cache_add}
use linux_anti_executable.Cache.Contents.{member, cache_check-member, cache_add-member}
use linux_anti_executable.Fanotify.{
  Event, Daemon, fanotify_allow, fanotify_deny, fanotify_stop, ask_user_permission, add_to_cache,
  remember, obey, decide, check_hash, visited,
}
use linux_anti_executable.Fanotify.Policy.{known, subject}
use linux_anti_executable.Fanotify.Ready.{IsReady, looked_up, check_hash-IsReady, visited-IsReady}
use linux_anti_executable.Fanotify.Always.{Always, handle_event-Always}
use linux_anti_executable.Fanotify.Loop.{Round, event_loop, event_loop-Always}
use linux_anti_executable.Fanotify.Remember.{granted, check_hash-member, subject-length}
use linux_anti_executable.Fanotify.Known.{AllowedUnasked, handler, handler_checked, handler-known}

module _ ⦃libc : Libc⦄ where
  -- A lookup of any text leaves the set as it was.
  cache_check_keeps :
      {c : Cache} (hex q : List ℕ) → IsValid c → member (cache_check hex c).1 q ≡ member c q
  unfolding cache_check
  cache_check_keeps {c} hex q v = elim (Bool-cases (length hex == hash_hex_len)) [
    | inl long ↦ (cache_check-member hex q v ((==_iff (length hex) hash_hex_len).0 long)).1
    | inr short ↦ ground (arith, short)
  ]

module _ ⦃libc : Libc⦄ (sql : Sqlite) (q : List ℕ) where
  -- An addition of any text takes nothing away.
  cache_add_keeps :
      (malloc_ok : Bool) (now : ℕ) (hex path : List ℕ) (s : Stores sql.Db)
      → IsValid s.cache
      → member s.cache q ≡ true
      → member (cache_add sql malloc_ok now hex path (pos 0) s).1.cache q ≡ true
  unfolding cache_add
  cache_add_keeps malloc_ok now hex path s v h = elim (Bool-cases (length hex == hash_hex_len)) [
    | inl long ↦ ground (
      arith,
      h,
      cache_add-member sql malloc_ok now hex path (pos 0) s q v
          ((==_iff (length hex) hash_hex_len).0 long),
    )
    | inr short ↦ ground (arith, short, h)
  ]

  Has : Daemon sql.Db → Type 0
  Has d = member d.stores.cache q ≡ true

  add_to_cache-Has :
      (hash path : List ℕ) (e : Event) (d : Daemon sql.Db)
      → IsValid d.stores.cache
      → Has d
      → Has (add_to_cache sql hash path e d)
  unfolding Has add_to_cache
  add_to_cache-Has hash path e d v h = cache_add_keeps e.malloc_ok e.now hash path d.stores v h

  remember-Has :
      (hash path : List ℕ) (e : Event) (d : Daemon sql.Db)
      → IsValid d.stores.cache
      → Has d
      → Has (remember sql hash path e d)
  unfolding Has remember add_to_cache
  remember-Has hash path e d v h =
      let w = (whitelist_add sql e.now hash path (pos 0) d.stores.whitelist).1 in
      cache_add_keeps e.malloc_ok e.now hash path (record d.stores { whitelist = w }) v h

  check_hash-Has :
      (is_so : Bool) (e : Event) (path hash : List ℕ) (d : Daemon sql.Db)
      → IsReady sql d
      → Has d
      → Always Has (check_hash sql is_so e path hash d)
  unfolding Has check_hash ask_user_permission obey decide add_to_cache remember fanotify_allow
      fanotify_deny
  check_hash-Has is_so e path hash d g h =
      let d1 = looked_up sql hash d in
      let v1 = cache_check-IsValid hash g.valid in
      let h1 : Has d1 = cache_check_keeps hash q g.valid ∙ h in
      ground (arith, h1, add_to_cache-Has hash path e d1 v1 h1, remember-Has hash path e d1 v1 h1)

  -- A ready daemon whose cache has the hash.
  record Keeps (d : Daemon sql.Db) : Type 0 where
    ready : IsReady sql d
    has : Has d

  Always-Keeps :
      (r : Option (Daemon sql.Db)) → Always (IsReady sql) r → Always Has r → Always Keeps r
  Always-Keeps none g h = tt
  Always-Keeps (some d) g h = record { ready = g; has = h }

  fanotify_allow-Keeps : (e : Event) (d : Daemon sql.Db) → Keeps d → Keeps (fanotify_allow e d)
  unfolding Has fanotify_allow
  fanotify_allow-Keeps e d k = ground (arith, k)

  visited-Keeps : (e : Event) (d : Daemon sql.Db) → Keeps d → Keeps (visited e d)
  unfolding Has
  visited-Keeps e d k = record { ready = visited-IsReady sql e d k.ready; has = k.has }

  fanotify_stop-Keeps : (d : Daemon sql.Db) → Keeps d → Keeps (fanotify_stop d)
  unfolding Has fanotify_stop
  fanotify_stop-Keeps d k = ground (arith, k)

  check_hash-Keeps :
      (is_so : Bool) (e : Event) (path hash : List ℕ) (d : Daemon sql.Db)
      → Keeps d
      → Always Keeps (check_hash sql is_so e path hash d)
  check_hash-Keeps is_so e path hash d k =
      Always-Keeps (check_hash sql is_so e path hash d)
        (check_hash-IsReady sql is_so e path hash d k.ready)
        (check_hash-Has is_so e path hash d k.ready k.has)

  event_loop-Keeps :
      (sha : Sha256) (rounds : List Round) (d : Daemon sql.Db)
      → Keeps d
      → Always Keeps (event_loop sql sha rounds d)
  event_loop-Keeps sha =
      event_loop-Always sql sha Keeps
        (handle_event-Always sql sha Keeps fanotify_allow-Keeps check_hash-Keeps) visited-Keeps
        fanotify_stop-Keeps

module _ ⦃libc : Libc⦄ (sql : Sqlite) (sha : Sha256) where
  -- The user is asked once. After a ready daemon that has memory handled an event of either kind on a
  -- file that the database has, that learning mode admits or that the user allows always, and however
  -- long its event loop ran then, the handler of every later event of either kind on a file with the
  -- same hash returns, allows it, if the kernel takes the response, and puts no question to the GUI,
  -- whatever the path, the mode and the GUI.
  pub asked_once :
      {digest : List ℕ → List ℕ} (laws : IsSha256 sha digest) (e later : Event)
      (d d' last : Daemon sql.Db) (path path' hash : List ℕ) (is_so is_so' : Bool)
      (rounds : List Round)
      → IsReady sql d
      → e.malloc_ok ≡ true
      → subject sha is_so e d.config ≡ some (path, hash)
      → granted sql path hash e is_so d ≡ true
      → handler sql sha is_so e d ≡ some d'
      → event_loop sql sha rounds d' ≡ some last
      → subject sha is_so' later last.config ≡ some (path', hash)
      → later.respond_ok ≡ true
      → AllowedUnasked later
          (visited later last)
          (handler sql sha is_so' later (visited later last))
  unfolding Has known
  asked_once laws e later d d' last path path' hash is_so is_so' rounds g ok s grant h run s'
        answered =
      let bytes = hex_to_bytes hash in
      let len = subject-length sql sha laws is_so e d.config path hash s in
      let checked = sym (handler_checked sql sha is_so e d path hash s) ∙ h in
      let there = check_hash-member sql is_so e path hash d bytes {d' = d'} g len ok checked in
      let ready : IsReady sql d' = rw checked at (check_hash-IsReady sql is_so e path hash d g) in
      let first : Keeps sql bytes d' = record {
        ready = ready;
        has = there ∙ ground (arith, grant, same_bytes_refl bytes);
      } in
      let kept : Keeps sql bytes last =
        rw run at (event_loop-Keeps sql bytes sha rounds d' first) in
      handler-known sql sha laws is_so' later (visited later last) path' hash kept.ready.valid
        answered s' (ground (arith, kept.has))
