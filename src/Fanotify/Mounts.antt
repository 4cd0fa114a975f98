-- ===== src/Fanotify/Mounts.antt =====
-- The set-up in src/daemon/fanotify_handler.c: the descriptor of fanotify and the marks on mounts.
use linux_anti_executable.Base.{
  ℕ, Bool, true, not, Option, none, some, List, ◌∷◌, if◌then◌else◌, ℤ, pos, minus_one, is_true,
}

-- A mark that the kernel holds: the mount, and which of the two permission events it sends.
pub record Mark : Type 0 where
  pub mount : List ℕ
  pub open_exec_perm : Bool
  pub open_perm : Bool

-- The argument is the answer of `fanotify_init`; `none` is -1.
unfoldable pub fanotify_init_exec_monitor : Option ℕ → Option ℕ
fanotify_init_exec_monitor none = none
fanotify_init_exec_monitor (some fan_fd) = some fan_fd

-- `mark_ok` is the answer of `fanotify_mark`; the second argument is `g_monitor_shared_libs`.
unfoldable pub fanotify_add_mount : Bool → ℤ → List ℕ → List Mark → ℤ × List Mark
fanotify_add_mount mark_ok monitor_shared_libs mount_path marks =
    let mark : Mark = record {
      mount = mount_path;
      open_exec_perm = true;
      open_perm = is_true monitor_shared_libs;
    } in
    if not mark_ok then (minus_one, marks) else (pos 0, mark ∷ marks)
