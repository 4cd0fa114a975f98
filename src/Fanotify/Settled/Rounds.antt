-- ===== src/Fanotify/Settled/Rounds.antt =====
-- The handlers and the loop of src/daemon/fanotify_handler.c against the list of answers that the
-- database and the configuration determine.
use mathlib.Core.Option
use linux_anti_executable.Base.{
  ℕ, ◌≡◌, refl, sym, Bool, true, false, not, Option, none, some, List, [], ◌∷◌, arith,
  if◌then◌else◌, Bool-cases, inl, inr, is_true, All,
}
use linux_anti_executable.Hash.Hex.{Libc, bytes_to_hex}
use linux_anti_executable.Hash.File.{Sha256, hash_fd}
use linux_anti_executable.Hash.File.Digest.{IsSha256, hash_fd-length, hash_fd-decoded}
use linux_anti_executable.Whitelist.{Sqlite, Whitelist}
use linux_anti_executable.Whitelist.Laws.{listed}
use linux_anti_executable.Cache.Contents.{member}
use linux_anti_executable.Config.{Config}
use linux_anti_executable.Fanotify.{
  Event, Daemon, Verdict, allow, fanotify_allow, fanotify_stop, check_hash, hashed, exec_at,
  open_at, read_link, handle_exec_perm_event, handle_open_perm_event, handle_event, visited,
}
use linux_anti_executable.Ipc.{is_timed}
use linux_anti_executable.Gui.Unheard.{IsButton}
use linux_anti_executable.Fanotify.Policy.{subject, subject_at}
use linux_anti_executable.Fanotify.Ready.{IsReady, check_hash-IsReady, visited-IsReady}
use linux_anti_executable.Fanotify.Always.{Always}
use linux_anti_executable.Fanotify.Loop.{
  Round, signal, again, interrupted, broken, batch, process_buffer, event_loop,
}
use linux_anti_executable.Fanotify.Settled.{
  settle, answer, answer_buffer, answer_rounds, ByButtons, IsSettled, check_hash-written,
  check_hash-vouched,
}

module _ ⦃libc : Libc⦄ (sql : Sqlite) (sha : Sha256) {digest : List ℕ → List ℕ}
    (laws : IsSha256 sha digest) (cfg : Config) (w : Whitelist sql.Db)
    (unlearned : is_true cfg.learning_mode ≡ false)
    (timed : is_timed cfg.gui_timeout_ms ≡ true) where
  -- The daemon that a call returns has these verdicts, and the database determines its answers.
  abbrev pub Answers : List (ℕ × Verdict) → Daemon sql.Db → Type 0
  Answers written d = IsSettled sql cfg w d × (d.verdicts ≡ written)

  gather :
      (written : List (ℕ × Verdict)) (r : Option (Daemon sql.Db))
      → Always (IsReady sql) r
      → Always (λ d'. (d'.verdicts ≡ written) × (d'.stores.whitelist ≡ w) × (d'.config ≡ cfg)) r
      → ((q : List ℕ)
          → Always (λ d'. member d'.stores.cache q ≡ true → listed sql w (bytes_to_hex q) ≡ true) r)
      → Always (Answers written) r
  gather written none g x v = tt
  gather written (some d') g (verdicts, whitelist, config) v =
      (record { ready = g; config = config; whitelist = whitelist; vouched = v }, verdicts)

  visited-IsSettled :
      (e : Event) (d : Daemon sql.Db) → IsSettled sql cfg w d → IsSettled sql cfg w (visited e d)
  visited-IsSettled e d o = record {
    ready = visited-IsReady sql e d o.ready;
    config = o.config;
    whitelist = o.whitelist;
    vouched = o.vouched;
  }

  fanotify_allow-Answers :
      (e : Event) (d : Daemon sql.Db)
      → IsSettled sql cfg w d
      → Answers
          (if not e.respond_ok then d.verdicts else (e.fd, allow) ∷ d.verdicts)
          (fanotify_allow e d)
  unfolding fanotify_allow
  fanotify_allow-Answers e d o = ground (arith, o)

  -- What an event adds, given what its handler finds.
  writes : Event → Option (List ℕ × List ℕ) → Daemon sql.Db → List (ℕ × Verdict)
  writes e found d =
      if not e.respond_ok then d.verdicts else (e.fd, settle sql sha cfg w found) ∷ d.verdicts

  hashed-Answers :
      (is_so : Bool) (e : Event) (path : List ℕ) (found : Option (List ℕ)) (d : Daemon sql.Db)
      → IsSettled sql cfg w d
      → (hash_fd sha e.file).0 ≡ found
      → All IsButton e.replies
      → Always
          (Answers (writes e (Option.map (λ hash. (path, hash)) found) d))
          (hashed sql sha is_so e path found d)
  unfolding hashed writes settle
  hashed-Answers is_so e path none d o h buttons = fanotify_allow-Answers e d o
  hashed-Answers is_so e path (some hash) d o h buttons =
      let len = hash_fd-length sha digest laws e.file h in
      let decoded = hash_fd-decoded sha digest laws e.file h in
      gather _ (check_hash sql is_so e path hash d)
        (check_hash-IsReady sql is_so e path hash d o.ready)
        (check_hash-written sql sha laws cfg w unlearned timed is_so e path hash d o len decoded
          buttons)
        (λ q.
          check_hash-vouched sql sha laws cfg w unlearned timed is_so e path hash d q o len decoded
            buttons)

  exec_at-Answers :
      (e : Event) (link : Option (List ℕ)) (d : Daemon sql.Db)
      → IsSettled sql cfg w d
      → All IsButton e.replies
      → Always (Answers (writes e (subject_at sha false e cfg link) d)) (exec_at sql sha e link d)
  unfolding exec_at writes settle subject_at
  exec_at-Answers e none d o buttons = fanotify_allow-Answers e d o
  exec_at-Answers e (some path) d o buttons = ground (
    arith,
    o.config,
    fanotify_allow-Answers e d o,
    hashed-Answers false e path (hash_fd sha e.file).0 d o refl buttons,
  )

  open_at-Answers :
      (e : Event) (link : Option (List ℕ)) (d : Daemon sql.Db)
      → IsSettled sql cfg w d
      → All IsButton e.replies
      → Always (Answers (writes e (subject_at sha true e cfg link) d)) (open_at sql sha e link d)
  unfolding open_at writes settle subject_at
  open_at-Answers e none d o buttons = fanotify_allow-Answers e d o
  open_at-Answers e (some path) d o buttons = ground (
    arith,
    o.config,
    fanotify_allow-Answers e d o,
    hashed-Answers true e path (hash_fd sha e.file).0 d o refl buttons,
  )

  handle_event-Answers :
      (e : Event) (d : Daemon sql.Db)
      → IsSettled sql cfg w d
      → All IsButton e.replies
      → Always (Answers (answer sql sha cfg w e d.verdicts)) (handle_event sql sha e d)
  unfolding handle_event handle_exec_perm_event handle_open_perm_event answer subject writes
  handle_event-Answers e d o buttons = ground (
    arith,
    o,
    exec_at-Answers e (read_link e.link) d o buttons,
    open_at-Answers e (read_link e.link) d o buttons,
  )

  Answers-then :
      (old written : List (ℕ × Verdict)) (r : Option (Daemon sql.Db))
      (next : Daemon sql.Db → Option (Daemon sql.Db))
      → Always (Answers old) r
      → ((d : Daemon sql.Db)
          → IsSettled sql cfg w d
          → d.verdicts ≡ old
          → Always (Answers written) (next d))
      → Always (Answers written) (elim r [ none ↦ none | some d ↦ next d ])
  Answers-then old written none next h k = tt
  Answers-then old written (some d) next h k = k d h.0 h.1

  process_buffer-Answers :
      (es : List Event) (d : Daemon sql.Db) (old : List (ℕ × Verdict))
      → IsSettled sql cfg w d
      → d.verdicts ≡ old
      → All (λ e. All IsButton e.replies) es
      → Always (Answers (answer_buffer sql sha cfg w es old)) (process_buffer sql sha es d)
  unfolding process_buffer answer_buffer
  process_buffer-Answers [] d old o h buttons = (o, h)
  process_buffer-Answers (e ∷ es) d old o h buttons = elim (Bool-cases e.version_ok) [
    | inr stop ↦ simp stop (o, h)
    | inl go ↦ simp go (
        Answers-then (answer sql sha cfg w e old) _ (handle_event sql sha e (visited e d))
          (process_buffer sql sha es)
          (rw (sym h) (handle_event-Answers e (visited e d) (visited-IsSettled e d o) buttons.0))
          (λ d' o' h'. process_buffer-Answers es d' (answer sql sha cfg w e old) o' h' buttons.1))
  ]

  pub event_loop-Answers :
      (rounds : List Round) (d : Daemon sql.Db) (old : List (ℕ × Verdict))
      → IsSettled sql cfg w d
      → d.verdicts ≡ old
      → ByButtons rounds
      → Always (Answers (answer_rounds sql sha cfg w rounds old)) (event_loop sql sha rounds d)
  unfolding event_loop answer_rounds fanotify_stop
  event_loop-Answers [] d old o h buttons = (o, h)
  event_loop-Answers (signal ∷ rounds) d old o h buttons = (ground (arith, o), h)
  event_loop-Answers (again ∷ rounds) d old o h buttons =
      event_loop-Answers rounds d old o h buttons
  event_loop-Answers (interrupted ∷ rounds) d old o h buttons =
      event_loop-Answers rounds d old o h buttons
  event_loop-Answers (broken ∷ rounds) d old o h buttons = (o, h)
  event_loop-Answers (batch es ∷ rounds) d old o h buttons =
      let written = answer_buffer sql sha cfg w es old in
      Answers-then written _ (process_buffer sql sha es d) (event_loop sql sha rounds)
        (process_buffer-Answers es d old o h buttons.0)
        (λ d' o' h'. event_loop-Answers rounds d' written o' h' buttons.1)
