-- ===== src/Fanotify/Loop.antt =====
-- `fanotify_event_loop` of src/daemon/fanotify_handler.c.
use linux_anti_executable.Base.{
  not, Option, none, some, List, [], ◌∷◌, arith, if◌then◌else◌, Bool-cases, inl, inr,
}
use linux_anti_executable.Hash.Hex.{Libc}
use linux_anti_executable.Hash.File.{Sha256}
use linux_anti_executable.Whitelist.{Sqlite}
use linux_anti_executable.Fanotify.{Event, Daemon, handle_event, fanotify_stop, visited}
use linux_anti_executable.Fanotify.Always.{Always}
use linux_anti_executable.Fanotify.Ready.{IsReady, handle_event-IsReady, visited-IsReady}

-- What one round of the outer loop meets: the stop flag set by a signal, one of the three failures
-- of `read`, or a buffer of events.
pub data Round : Type 0 where
  signal : Round
  again : Round
  interrupted : Round
  broken : Round
  batch : List Event → Round

module _ ⦃libc : Libc⦄ (sql : Sqlite) (sha : Sha256) where
  -- The loop over the buffer; an event of another version ends it.
  unfoldable pub process_buffer : List Event → Daemon sql.Db → Option (Daemon sql.Db)
  process_buffer [] d = some d
  process_buffer (e ∷ es) d =
      if not e.version_ok then some d else elim (handle_event sql sha e (visited e d)) [
        | none ↦ none
        | some d' ↦ process_buffer es d'
      ]

  -- The outer loop over the rounds that it meets. The flag is read at the head of each.
  unfoldable pub event_loop : List Round → Daemon sql.Db → Option (Daemon sql.Db)
  event_loop [] d = some d
  event_loop (signal ∷ rounds) d = some (fanotify_stop d)
  event_loop (again ∷ rounds) d = event_loop rounds d
  event_loop (interrupted ∷ rounds) d = event_loop rounds d
  event_loop (broken ∷ rounds) d = some d
  event_loop (batch es ∷ rounds) d = elim (process_buffer es d) [
    | none ↦ none
    | some d' ↦ event_loop rounds d'
  ]

  -- What every event keeps, the loop keeps.
  module _ (P : Daemon sql.Db → Type 0)
      (handles : (e : Event) (d : Daemon sql.Db) → P d → Always P (handle_event sql sha e d))
      (visits : (e : Event) (d : Daemon sql.Db) → P d → P (visited e d))
      (stops : (d : Daemon sql.Db) → P d → P (fanotify_stop d)) where
    Always-then :
        (r : Option (Daemon sql.Db)) (next : Daemon sql.Db → Option (Daemon sql.Db))
        → Always P r
        → ((d : Daemon sql.Db) → P d → Always P (next d))
        → Always P (elim r [ none ↦ none | some d ↦ next d ])
    Always-then none next h k = tt
    Always-then (some d) next h k = k d h

    process_buffer-Always :
        (es : List Event) (d : Daemon sql.Db) → P d → Always P (process_buffer es d)
    unfolding process_buffer
    process_buffer-Always [] d g = g
    process_buffer-Always (e ∷ es) d g = elim (Bool-cases e.version_ok) [
      | inr stop ↦ simp stop g
      | inl go ↦ simp go (
          Always-then (handle_event sql sha e (visited e d)) (process_buffer es)
            (handles e (visited e d) (visits e d g)) (λ d' g'. process_buffer-Always es d' g'))
    ]

    pub event_loop-Always :
        (rounds : List Round) (d : Daemon sql.Db) → P d → Always P (event_loop rounds d)
    unfolding event_loop
    event_loop-Always [] d g = g
    event_loop-Always (signal ∷ rounds) d g = stops d g
    event_loop-Always (again ∷ rounds) d g = event_loop-Always rounds d g
    event_loop-Always (interrupted ∷ rounds) d g = event_loop-Always rounds d g
    event_loop-Always (broken ∷ rounds) d g = g
    event_loop-Always (batch es ∷ rounds) d g =
        Always-then (process_buffer es d) (event_loop rounds) (process_buffer-Always es d g)
          (λ d' g'. event_loop-Always rounds d' g')

  fanotify_stop-IsReady : (d : Daemon sql.Db) → IsReady sql d → IsReady sql (fanotify_stop d)
  unfolding fanotify_stop
  fanotify_stop-IsReady d g = ground (arith, g)

  -- However long the loop runs and whatever events it meets, it leaves the daemon ready.
  pub event_loop-IsReady :
      (rounds : List Round) (d : Daemon sql.Db)
      → IsReady sql d
      → Always (IsReady sql) (event_loop rounds d)
  event_loop-IsReady =
      event_loop-Always (IsReady sql) (handle_event-IsReady sql sha) (visited-IsReady sql)
        fanotify_stop-IsReady
