-- ===== src/Fanotify.antt =====
-- src/daemon/fanotify_handler.c: the permission events of the kernel and the policy on them. What
-- the system answers while an event is handled stands in the event.
pub mod SharedLibrary
pub mod Policy
pub mod Always
pub mod Ready
pub mod Loop
pub mod Remember
pub mod Known
pub mod Forever
pub mod Returns
pub mod Buffer
pub mod Mounts
pub mod Statistics
pub mod Deaf
pub mod Settled
pub mod Enrolled
use linux_anti_executable.Base.{
  ℕ, ◌+◌, ◌%◌, ◌^◌, Bool, true, false, not, ◌&&◌, Option, none, some, List, [], ◌∷◌, ◌==◌,
  if◌then◌else◌, ℤ, pos, minus_one, is_true, is_nonneg, is_one, take,
}
use linux_anti_executable.Hash.Hex.{Libc}
use linux_anti_executable.Hash.File.{Sha256, ReadAnswer, OpenFile, hash_fd}
use linux_anti_executable.Whitelist.{Sqlite, whitelist_check, whitelist_add}
use linux_anti_executable.Cache.{Stores, cache_check, cache_add, incr64}
use linux_anti_executable.Config.{
  Config, daemon_is_path_excluded, daemon_get_gui_timeout, daemon_get_default_deny,
  daemon_is_learning_mode,
}
use linux_anti_executable.Protocol.{
  ExecRequest, ExecResponse, response_allow_once, response_allow_always, response_deny,
  response_timeout, response_no_client,
}
use linux_anti_executable.Ipc.{Server, Visit, visit_all, ipc_request_permission}
use linux_anti_executable.Fanotify.Mounts.{Mark}
use linux_anti_executable.Fanotify.SharedLibrary.{is_shared_library, is_elf_magic}

-- `FAN_ALLOW` and `FAN_DENY`
pub data Verdict : Type 0 where
  allow deny : Verdict

-- An event, with the answers of the system that its handler asks for: the link of the descriptor,
-- the first bytes and the contents of the file, the link of the process, whether `malloc` and the
-- two writes succeed, the time, and the replies that reach the daemon while it waits for the GUI.
-- `visits` is what the threads of the socket did since the event before.
pub record Event : Type 0 where
  pub fd : ℕ
  pub pid : ℕ
  pub version_ok : Bool
  pub open_exec_perm : Bool
  pub open_perm : Bool
  pub link : Option (List ℕ)
  pub magic : ReadAnswer
  pub file : OpenFile
  pub parent_link : Option (List ℕ)
  pub malloc_ok : Bool
  pub respond_ok : Bool
  pub request_ok : Bool
  pub now : ℕ
  pub replies : List ExecResponse
  pub visits : List Visit

-- The daemon's static variables. `marks` is what the kernel holds for the daemon, and `verdicts` is what was written to the kernel, the newest first.
pub record Daemon (D : Type 0) : Type 0 where
  pub config : Config
  pub stores : Stores D
  pub server : Server
  pub running : Bool
  pub monitor_shared_libs : ℤ
  pub marks : List Mark
  pub stat_allowed : ℕ
  pub stat_denied : ℕ
  pub stat_cached : ℕ
  pub verdicts : List (ℕ × Verdict)

-- `PATH_MAX - 1`, `sizeof(request.path) - 1`, `sizeof(request.hash) - 1`
abbrev max_path : ℕ
max_path = 4095

abbrev max_hash : ℕ
max_hash = 64

module _ {D : Type 0} where
  unfoldable pub fanotify_allow : Event → Daemon D → Daemon D
  fanotify_allow e d =
      if not e.respond_ok
      then d
      else record d { verdicts = (e.fd, allow) ∷ d.verdicts; stat_allowed = incr64 d.stat_allowed }

  unfoldable pub fanotify_deny : Event → Daemon D → Daemon D
  fanotify_deny e d =
      if not e.respond_ok
      then d
      else record d { verdicts = (e.fd, deny) ∷ d.verdicts; stat_denied = incr64 d.stat_denied }

  unfoldable pub fanotify_set_monitor_shared_libs : ℤ → Daemon D → Daemon D
  fanotify_set_monitor_shared_libs enabled d = record d { monitor_shared_libs = enabled }

  -- What the caller's variables for allowed, denied and cached get.
  unfoldable pub fanotify_get_stats : Daemon D → ℕ × ℕ × ℕ
  fanotify_get_stats d = (d.stat_allowed, d.stat_denied, d.stat_cached)

  unfoldable pub fanotify_stop : Daemon D → Daemon D
  fanotify_stop d = record d { running = false }

-- `readlink` into a buffer of the given room, for `get_path_from_fd` and `get_parent_path`.
read_link : Option (List ℕ) → Option (List ℕ)
read_link none = none
read_link (some target) = some (take max_path target)

-- `get_parent_path` on a zeroed buffer
unfoldable pub parent_path : Option (List ℕ) → List ℕ
parent_path none = []
parent_path (some target) = take max_path target

-- The request of `ask_user_permission`; what it does not set is zero.
unfoldable pub build_request : List ℕ → List ℕ → Event → Bool → ExecRequest
unfolding parent_path
build_request path hash e is_so = record {
  request_id = 0;
  pid = e.pid;
  uid = 0;
  path = take max_path path;
  hash = take max_hash hash;
  cmdline = [];
  parent_path = parent_path e.parent_link;
  is_shared_lib = is_so;
}

-- `daemon_get_default_deny() ? -1 : 0`
unfoldable pub default_decision : Config → ℤ
default_decision cfg = if is_true (daemon_get_default_deny cfg) then minus_one else pos 0

-- The switch on the response.
unfoldable pub decision_of : ℕ → Config → ℤ
unfolding default_decision
decision_of response cfg =
    if response == response_allow_always
    then pos 1
    else if response == response_allow_once
    then pos 0
    else if response == response_deny
    then minus_one
    else if response == response_timeout
    then default_decision cfg
    else if response == response_no_client
    then default_decision cfg
    else default_decision cfg

decide : {D : Type 0} → Daemon D → Option (ℕ × Server) → Option (ℤ × Daemon D)
decide d none = none
decide d (some (response, server)) =
    some (decision_of response d.config, record d { server = server })

-- `none` is a call that waits for ever.
unfoldable pub ask_user_permission :
    {D : Type 0} → List ℕ → List ℕ → Event → Bool → Daemon D → Option (ℤ × Daemon D)
unfolding decide
ask_user_permission path hash e is_so d = decide d (
    ipc_request_permission e.request_ok e.replies (build_request path hash e is_so)
      (daemon_get_gui_timeout d.config) d.server)

module _ ⦃libc : Libc⦄ (sql : Sqlite) where
  -- `cache_add(hash, path, 0)`
  unfoldable pub add_to_cache : List ℕ → List ℕ → Event → Daemon sql.Db → Daemon sql.Db
  add_to_cache hash path e d = record d {
    stores = (cache_add sql e.malloc_ok e.now hash path (pos 0) d.stores).1;
  }

  -- `whitelist_add(hash, path, 0); cache_add(hash, path, 0);`
  unfoldable pub remember : List ℕ → List ℕ → Event → Daemon sql.Db → Daemon sql.Db
  unfolding add_to_cache
  remember hash path e d =
      let w = (whitelist_add sql e.now hash path (pos 0) d.stores.whitelist).1 in
      add_to_cache hash path e (record d { stores = record d.stores { whitelist = w } })

  obey : List ℕ → List ℕ → Event → Option (ℤ × Daemon sql.Db) → Option (Daemon sql.Db)
  obey hash path e none = none
  obey hash path e (some (decision, d)) = some (
      if is_nonneg decision
      then fanotify_allow e (if is_one decision then remember hash path e d else d)
      else fanotify_deny e d)

  -- The part that both handlers share, from the cache on.
  unfoldable pub check_hash :
      Bool → Event → List ℕ → List ℕ → Daemon sql.Db → Option (Daemon sql.Db)
  unfolding obey
  check_hash is_so e path hash d =
      let (hit, cache) = cache_check hash d.stores.cache in
      let d1 = record d { stores = record d.stores { cache = cache } } in
      if is_true hit
      then some (fanotify_allow e (record d1 { stat_cached = incr64 d1.stat_cached }))
      else if is_true (whitelist_check sql hash d1.stores.whitelist)
      then some (fanotify_allow e (add_to_cache hash path e d1))
      else if is_true (daemon_is_learning_mode d1.config)
      then some (fanotify_allow e (remember hash path e d1))
      else obey hash path e (ask_user_permission path hash e is_so d1)

-- The daemon as the event finds it.
abbrev pub visited : {D : Type 0} → Event → Daemon D → Daemon D
visited e d = record d { server = visit_all e.visits d.server }

module _ ⦃libc : Libc⦄ (sql : Sqlite) (sha : Sha256) where
  hashed : Bool → Event → List ℕ → Option (List ℕ) → Daemon sql.Db → Option (Daemon sql.Db)
  hashed is_so e path none d = some (fanotify_allow e d)
  hashed is_so e path (some hash) d = check_hash sql is_so e path hash d

  exec_at : Event → Option (List ℕ) → Daemon sql.Db → Option (Daemon sql.Db)
  unfolding hashed
  exec_at e none d = some (fanotify_allow e d)
  exec_at e (some path) d =
      if daemon_is_path_excluded d.config path
      then some (fanotify_allow e d)
      else if not (is_elf_magic e.magic)
      then some (fanotify_allow e d)
      else hashed false e path (hash_fd sha e.file).0 d

  unfoldable pub handle_exec_perm_event : Event → Daemon sql.Db → Option (Daemon sql.Db)
  unfolding exec_at read_link
  handle_exec_perm_event e d = exec_at e (read_link e.link) d

  open_at : Event → Option (List ℕ) → Daemon sql.Db → Option (Daemon sql.Db)
  unfolding hashed
  open_at e none d = some (fanotify_allow e d)
  open_at e (some path) d =
      if daemon_is_path_excluded d.config path
      then some (fanotify_allow e d)
      else if not (is_shared_library path)
      then some (fanotify_allow e d)
      else if not (is_elf_magic e.magic)
      then some (fanotify_allow e d)
      else hashed true e path (hash_fd sha e.file).0 d

  unfoldable pub handle_open_perm_event : Event → Daemon sql.Db → Option (Daemon sql.Db)
  unfolding open_at read_link
  handle_open_perm_event e d = open_at e (read_link e.link) d

  -- One round of the loop over the buffer.
  unfoldable pub handle_event : Event → Daemon sql.Db → Option (Daemon sql.Db)
  handle_event e d =
      if e.open_exec_perm
      then handle_exec_perm_event e d
      else if e.open_perm
      then handle_open_perm_event e d
      else some d
