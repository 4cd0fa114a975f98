-- ===== src/Fanotify/Deaf.antt =====
-- A daemon that no GUI can reach: what the handlers of src/daemon/fanotify_handler.c keep of that,
-- and how they decide.
use linux_anti_executable.Base.{ℕ, ◌≡◌, ◌∙◌, refl, Bool, false, none, some, List, arith}
use linux_anti_executable.Hash.Hex.{Libc}
use linux_anti_executable.Whitelist.{Sqlite}
use linux_anti_executable.Config.{Config}
use linux_anti_executable.Ipc.{ipc_has_client}
use linux_anti_executable.Ipc.Visits.{visit_all-Visited}
use linux_anti_executable.Ipc.Pending.{ipc_request_permission_no_client}
use linux_anti_executable.Fanotify.{
  Event, Daemon, fanotify_allow, fanotify_deny, fanotify_stop, ask_user_permission, add_to_cache,
  remember, check_hash, build_request, decision_of, default_decision, visited,
}
use linux_anti_executable.Fanotify.Policy.{decision_on}
use linux_anti_executable.Fanotify.Always.{Always}

-- No GUI is connected, and no thread accepts one.
pub record IsDeaf {D : Type 0} (cfg : Config) (d : Daemon D) : Type 0 where
  pub client : d.server.client_fd ≡ none
  pub accepting : d.server.accepting ≡ false
  pub config : d.config ≡ cfg

pub no_client :
    {D : Type 0} {cfg : Config} {d : Daemon D} → IsDeaf cfg d → ipc_has_client d.server ≡ false
unfolding ipc_has_client
no_client i = rw i.client refl

pub IsDeaf-decision :
    {D : Type 0} {cfg : Config} (path hash : List ℕ) (e : Event) (is_so : Bool) (d : Daemon D)
    → IsDeaf cfg d
    → decision_on path hash e is_so d ≡ some (default_decision cfg)
unfolding decision_on decision_of
IsDeaf-decision path hash e is_so d i = ground (
  arith,
  i.config,
  ipc_request_permission_no_client e.request_ok e.replies (build_request path hash e is_so)
      d.config.gui_timeout_ms d.server (no_client i),
)

module _ (cfg : Config) where
  pub fanotify_allow-IsDeaf :
      {D : Type 0} (e : Event) (d : Daemon D) → IsDeaf cfg d → IsDeaf cfg (fanotify_allow e d)
  unfolding fanotify_allow
  fanotify_allow-IsDeaf e d i = ground (arith, i)

  pub check_hash-IsDeaf :
      ⦃libc : Libc⦄ (sql : Sqlite) (is_so : Bool) (e : Event) (path hash : List ℕ)
      (d : Daemon sql.Db)
      → IsDeaf cfg d
      → Always (IsDeaf cfg) (check_hash sql is_so e path hash d)
  unfolding check_hash ask_user_permission remember add_to_cache fanotify_allow fanotify_deny
  check_hash-IsDeaf sql is_so e path hash d i = ground (
    arith,
    i,
    ipc_request_permission_no_client e.request_ok e.replies (build_request path hash e is_so)
        d.config.gui_timeout_ms d.server (no_client i),
  )

  -- A server without an accept thread gets no client.
  pub visited-IsDeaf :
      {D : Type 0} (e : Event) (d : Daemon D) → IsDeaf cfg d → IsDeaf cfg (visited e d)
  visited-IsDeaf e d i =
      let v = visit_all-Visited e.visits d.server in
      record {
        client = v.alone i.accepting i.client;
        accepting = v.accepting ∙ i.accepting;
        config = i.config;
      }

  pub fanotify_stop-IsDeaf :
      {D : Type 0} (d : Daemon D) → IsDeaf cfg d → IsDeaf cfg (fanotify_stop d)
  unfolding fanotify_stop
  fanotify_stop-IsDeaf d i = record {
    client = i.client;
    accepting = i.accepting;
    config = i.config;
  }
