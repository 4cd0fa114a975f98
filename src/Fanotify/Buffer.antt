-- ===== src/Fanotify/Buffer.antt =====
-- The loop over a buffer of events in `fanotify_event_loop` of src/daemon/fanotify_handler.c answers
-- each of them.
use mathlib.Core.Option
use linux_anti_executable.Base.{ℕ, ◌≡◌, true, ◌||◌, Option, List, [], ◌∷◌, map}
use linux_anti_executable.Fanotify.{Event, Verdict}
use linux_anti_executable.Fanotify.Returns.{Returns}

-- An event of the right version that asks for permission, and whose response the kernel takes.
pub record IsAsking (e : Event) : Type 0 where
  pub version : e.version_ok ≡ true
  pub accepted : e.respond_ok ≡ true
  pub asks : (e.open_exec_perm || e.open_perm) ≡ true

-- The descriptors that were answered, the newest first.
abbrev pub answered_fds : List (ℕ × Verdict) → List ℕ
answered_fds = map (λ v. v.0)

-- The descriptors of the events put in front of others, one after the other.
unfoldable pub then_fds : List Event → List ℕ → List ℕ
then_fds [] fds = fds
then_fds (e ∷ es) fds = then_fds es (e.fd ∷ fds)
