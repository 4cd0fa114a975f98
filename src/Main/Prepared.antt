-- ===== src/Main/Prepared.antt =====
-- The steps of `main` of src/daemon/main.c before fanotify is set up: the scan, the cache and the
-- socket.
use linux_anti_executable.Base.{
  ℕ, ◌≡◌, inl, inr, refl, Bool, true, false, not, Option, none, some, List, [], ◌∷◌, if◌then◌else◌,
  ℤ, pos, is_true, is_zero, arith, Bool-cases,
}
use linux_anti_executable.Hash.File.{Sha256}
use linux_anti_executable.Whitelist.{
  Sqlite, Whitelist, closed, whitelist_init, whitelist_set_learning_mode,
}
use linux_anti_executable.Whitelist.Laws.{IsOpen, whitelist_init-IsOpen}
use linux_anti_executable.Whitelist.Scan.{whitelist_scan_directory, whitelist_scan_directory-IsOpen}
use linux_anti_executable.Cache.{zero_cache, cache_init}
use linux_anti_executable.Cache.Chain.{find_entry}
use linux_anti_executable.Cache.Contents.{member}
use linux_anti_executable.Cache.Invariant.{IsValid, cache_init-IsValid}
use linux_anti_executable.Config.{Config}
use linux_anti_executable.Config.Exclusion.{is_path_excluded}
use linux_anti_executable.Ipc.{Server, stopped_server, ipc_server_init}
use linux_anti_executable.Fanotify.{Daemon}
use linux_anti_executable.Main.{Surroundings, at_rest, scan_all, perform_initial_scan, scan_dirs}

module _ (sql : Sqlite) (sha : Sha256) where
  scan_all-IsOpen :
      (dirs : List (List ℕ)) (e : Surroundings) (cfg : Config) (w : Whitelist sql.Db)
      → IsOpen sql w
      → IsOpen sql (scan_all sql sha dirs e cfg w).1
  unfolding scan_all
  scan_all-IsOpen [] e cfg w o = o
  scan_all-IsOpen (dir ∷ dirs) e cfg w o =
      let w1 = (whitelist_scan_directory sql sha e.now dir true (e.tree dir) w).1 in
      elim (Bool-cases (is_path_excluded cfg.exclude_paths dir)) [
        | inl skip ↦ simp skip (scan_all-IsOpen dirs e cfg w o)
        | inr enter ↦ simp enter (
            scan_all-IsOpen dirs e cfg w1
              (whitelist_scan_directory-IsOpen sql sha e.now dir true (e.tree dir) w o))
      ]

  pub scanned-IsOpen :
      (e : Surroundings) (cfg : Config) (w : Whitelist sql.Db)
      → IsOpen sql w
      → IsOpen sql (if is_true cfg.do_scan then (perform_initial_scan sql sha e cfg w).1 else w)
  unfolding perform_initial_scan
  scanned-IsOpen e cfg w o = elim (Bool-cases (is_true cfg.do_scan)) [
    | inl asked ↦ simp asked (scan_all-IsOpen scan_dirs e cfg w o)
    | inr unasked ↦ simp unasked o
  ]

  pub learning-IsOpen :
      (learning : Bool) (w : Whitelist sql.Db)
      → IsOpen sql w
      → IsOpen sql (if learning then whitelist_set_learning_mode (pos 1) w else w)
  unfolding whitelist_set_learning_mode
  learning-IsOpen true w o = record {
    handle = o.handle;
    check = o.check;
    add = o.add;
    remove = o.remove;
  }
  learning-IsOpen false w o = o

  -- The whitelist after the scan and the learning mode, if they are asked for.
  abbrev pub booted : Surroundings → Config → Whitelist sql.Db → Whitelist sql.Db
  booted e cfg w =
      let w1 = if is_true cfg.do_scan then (perform_initial_scan sql sha e cfg w).1 else w in
      if is_true cfg.learning_mode then whitelist_set_learning_mode (pos 1) w1 else w1

  -- The daemon before fanotify is set up: the accept thread runs, and nobody was answered.
  pub record Prepared (cfg : Config) (w : Whitelist sql.Db) (d : Daemon sql.Db) : Type 0 where
    pub database : d.stores.whitelist ≡ w
    pub valid : IsValid d.stores.cache
    pub unlimited : d.stores.cache.max_entries ≡ 0
    pub empty : (q : List ℕ) → member d.stores.cache q ≡ false
    pub opened : IsOpen sql d.stores.whitelist
    pub idle : d.server.pending_count ≡ 0
    pub client : d.server.client_fd ≡ none
    pub accepting : d.server.accepting ≡ true
    pub marks : d.marks ≡ []
    pub allowed : d.stat_allowed ≡ 0
    pub denied : d.stat_denied ≡ 0
    pub verdicts : d.verdicts ≡ []
    pub config : d.config ≡ cfg

  allocated-IsValid :
      (table_ok bloom_ok : Bool)
      → (cache_init table_ok bloom_ok 0 zero_cache).0 ≡ pos 0
      → IsValid (cache_init table_ok bloom_ok 0 zero_cache).1
        × ((cache_init table_ok bloom_ok 0 zero_cache).1.max_entries ≡ 0)
  unfolding cache_init
  allocated-IsValid false bloom_ok h = cc
  allocated-IsValid true bloom_ok h =
      (cache_init-IsValid bloom_ok 0 zero_cache refl (omega arith) h, ground arith)

  -- A cache that was just set up has no entry.
  allocated_empty :
      (table_ok bloom_ok : Bool) (q : List ℕ)
      → (cache_init table_ok bloom_ok 0 zero_cache).0 ≡ pos 0
      → member (cache_init table_ok bloom_ok 0 zero_cache).1 q ≡ false
  unfolding cache_init find_entry
  allocated_empty false bloom_ok q h = cc
  allocated_empty true false q h = cc
  allocated_empty true true q h = refl

  succeeded : (z : ℤ) → not (is_zero z) ≡ false → z ≡ pos 0
  succeeded z h = ground arith

  -- A server that listens has its accept thread, no client and no request.
  record Listens (s : Server) : Type 0 where
    idle : s.pending_count ≡ 0
    client : s.client_fd ≡ none
    accepting : s.accepting ≡ true

  ipc_server_init-Listens :
      (fd : Option ℕ) (bind_ok listen_ok thread_ok : Bool)
      → (ipc_server_init fd bind_ok listen_ok thread_ok stopped_server).0 ≡ pos 0
      → Listens (ipc_server_init fd bind_ok listen_ok thread_ok stopped_server).1
  unfolding ipc_server_init
  ipc_server_init-Listens none bind_ok listen_ok thread_ok h = cc
  ipc_server_init-Listens (some fd) bind_ok listen_ok thread_ok h = ground (arith, h)

  pub prepared :
      (e : Surroundings) (cfg : Config)
      → not (is_zero (whitelist_init sql cfg.db_path closed).0) ≡ false
      → not (is_zero (cache_init e.table_ok e.bloom_ok 0 zero_cache).0) ≡ false
      → not (is_zero (ipc_server_init e.socket e.bind_ok e.listen_ok e.thread_ok stopped_server).0)
        ≡ false
      → Prepared cfg (whitelist_init sql cfg.db_path closed).1 (record (at_rest cfg) {
        stores = record {
          cache = (cache_init e.table_ok e.bloom_ok 0 zero_cache).1;
          whitelist = (whitelist_init sql cfg.db_path closed).1;
        };
        server = (ipc_server_init e.socket e.bind_ok e.listen_ok e.thread_ok stopped_server).1;
      })
  prepared e cfg opened allocated listening =
      let ok = allocated-IsValid e.table_ok e.bloom_ok (succeeded _ allocated) in
      let l =
        ipc_server_init-Listens e.socket e.bind_ok e.listen_ok e.thread_ok
          (succeeded _ listening) in
      record {
        database = refl;
        valid = ok.0;
        unlimited = ok.1;
        empty = λ q. allocated_empty e.table_ok e.bloom_ok q (succeeded _ allocated);
        opened = whitelist_init-IsOpen sql cfg.db_path closed (succeeded _ opened);
        idle = l.idle;
        client = l.client;
        accepting = l.accepting;
        marks = refl;
        allowed = refl;
        denied = refl;
        verdicts = refl;
        config = refl;
      }
