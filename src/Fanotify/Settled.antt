-- ===== src/Fanotify/Settled.antt =====
-- What the event loop of src/daemon/fanotify_handler.c answers where the user answers by the buttons
-- of the GUI: a list that the database and the configuration determine beforehand.
pub mod Rounds
use mathlib.Core.Option
use linux_anti_executable.Base.{
  ℕ, ◌≡◌, refl, sym, ◌∙◌, Bool, true, false, not, ◌&&◌, ◌||◌, Option, none, some, List, [], ◌∷◌,
  arith, if◌then◌else◌, Bool-cases, Option-cases, inl, inr, is_true, length, ap, same_bytes-eq, pos,
  All,
}
use linux_anti_executable.Hash.Hex.{Libc, hex_to_bytes, bytes_to_hex}
use linux_anti_executable.Hash.File.{Sha256, hash_fd}
use linux_anti_executable.Hash.File.Digest.{IsSha256, hash_fd-length, hash_fd-decoded}
use linux_anti_executable.Whitelist.{Sqlite, Whitelist}
use linux_anti_executable.Whitelist.Laws.{listed, whitelist_check-bool}
use linux_anti_executable.Cache.Invariant.{cache_add-whitelist}
use linux_anti_executable.Cache.Contents.{member, cache_check-member, cache_add-member}
use linux_anti_executable.Config.{Config}
use linux_anti_executable.Ipc.{is_timed, ipc_request_permission}
use linux_anti_executable.Gui.Unheard.{IsButton, Ignored, ipc_request_permission-Ignored}
use linux_anti_executable.Fanotify.{
  Event, Daemon, Verdict, allow, deny, fanotify_allow, fanotify_deny, fanotify_stop,
  ask_user_permission, add_to_cache, remember, check_hash, hashed, exec_at, open_at, read_link,
  handle_exec_perm_event, handle_open_perm_event, handle_event, build_request, decision_of,
  default_decision, decide, obey,
}
use linux_anti_executable.Fanotify.Policy.{subject, subject_at}
use linux_anti_executable.Fanotify.Ready.{IsReady, looked_up, looked_up-IsReady, check_hash-IsReady}
use linux_anti_executable.Fanotify.Always.{Always}
use linux_anti_executable.Fanotify.Loop.{
  Round, signal, again, interrupted, broken, batch, process_buffer, event_loop,
}

module _ (sql : Sqlite) (sha : Sha256) (cfg : Config) (w : Whitelist sql.Db) where
  -- A checked file is allowed if the database lists it or the default is to allow.
  unfoldable pub settle : Option (List ℕ × List ℕ) → Verdict
  settle none = allow
  settle (some (path, hash)) =
      if listed sql w hash || not (is_true cfg.default_deny) then allow else deny

  -- The verdicts after one event: none is written if the kernel refuses the response, or if the
  -- event asks for nothing.
  unfoldable pub answer : Event → List (ℕ × Verdict) → List (ℕ × Verdict)
  unfolding settle
  answer e old =
      if not e.respond_ok
      then old
      else if e.open_exec_perm
      then (e.fd, settle (subject sha false e cfg)) ∷ old
      else if e.open_perm
      then (e.fd, settle (subject sha true e cfg)) ∷ old
      else old

  unfoldable pub answer_buffer : List Event → List (ℕ × Verdict) → List (ℕ × Verdict)
  answer_buffer [] old = old
  answer_buffer (e ∷ es) old =
      let rest = answer_buffer es (answer e old) in if e.version_ok then rest else old

  unfoldable pub answer_rounds : List Round → List (ℕ × Verdict) → List (ℕ × Verdict)
  answer_rounds [] old = old
  answer_rounds (signal ∷ rounds) old = old
  answer_rounds (again ∷ rounds) old = answer_rounds rounds old
  answer_rounds (interrupted ∷ rounds) old = answer_rounds rounds old
  answer_rounds (broken ∷ rounds) old = old
  answer_rounds (batch es ∷ rounds) old = answer_rounds rounds (answer_buffer es old)

-- All replies in the rounds are sent by the dialog's buttons.
abbrev pub ByButtons : List Round → Type 0
ByButtons [] = Unit {0}
ByButtons (batch es ∷ rounds) = All (λ e. All IsButton e.replies) es × ByButtons rounds
ByButtons (_ ∷ rounds) = ByButtons rounds

-- The daemon does not learn, has the given database, and every hash in its cache is in there.
pub record IsSettled ⦃libc : Libc⦄ (sql : Sqlite) (cfg : Config) (w : Whitelist sql.Db)
    (d : Daemon sql.Db) : Type 0 where
  pub ready : IsReady sql d
  pub config : d.config ≡ cfg
  pub whitelist : d.stores.whitelist ≡ w
  pub vouched : (q : List ℕ) → member d.stores.cache q ≡ true → listed sql w (bytes_to_hex q) ≡ true

module _ ⦃libc : Libc⦄ (sql : Sqlite) (sha : Sha256) {digest : List ℕ → List ℕ}
    (laws : IsSha256 sha digest) (cfg : Config) (w : Whitelist sql.Db)
    (unlearned : is_true cfg.learning_mode ≡ false)
    (timed : is_timed cfg.gui_timeout_ms ≡ true) where
  -- The question about a file, if it is asked.
  asked :
      (is_so : Bool) (e : Event) (path hash : List ℕ) (d : Daemon sql.Db)
      → IsSettled sql cfg w d
      → All IsButton e.replies
      → Ignored cfg (
          ipc_request_permission e.request_ok e.replies
            (build_request path hash e is_so)
            d.config.gui_timeout_ms
            d.server)
  asked is_so e path hash d o buttons =
      ipc_request_permission-Ignored cfg e.replies (build_request path hash e is_so)
        d.config.gui_timeout_ms d.server e.request_ok (rw o.config timed) o.ready.idle buttons

  hit-listed :
      (hash : List ℕ) (d : Daemon sql.Db)
      → IsSettled sql cfg w d
      → bytes_to_hex (hex_to_bytes hash) ≡ hash
      → member d.stores.cache (hex_to_bytes hash) ≡ true
      → listed sql w hash ≡ true
  hit-listed hash d o decoded h = ap (listed sql w) (sym decoded) ∙ o.vouched (hex_to_bytes hash) h

  pub check_hash-written :
      (is_so : Bool) (e : Event) (path hash : List ℕ) (d : Daemon sql.Db)
      → IsSettled sql cfg w d
      → length hash ≡ 64
      → bytes_to_hex (hex_to_bytes hash) ≡ hash
      → All IsButton e.replies
      → Always
          (λ d'.
            (d'.verdicts ≡ (
              if not e.respond_ok
              then d.verdicts
              else (e.fd, settle sql sha cfg w (some (path, hash))) ∷ d.verdicts))
            × (d'.stores.whitelist ≡ w)
            × (d'.config ≡ cfg))
          (check_hash sql is_so e path hash d)
  unfolding check_hash ask_user_permission add_to_cache fanotify_allow fanotify_deny
      default_decision settle
  check_hash-written is_so e path hash d o len decoded buttons = ground (
    arith,
    o.config,
    o.whitelist,
    unlearned,
    hit-listed hash d o decoded,
    cache_check-member hash hash o.ready.valid len,
    whitelist_check-bool sql hash w,
    cache_add-whitelist sql e.malloc_ok e.now hash path (looked_up sql hash d).stores,
    (asked is_so e path hash d o buttons).run,
    (asked is_so e path hash d o buttons).default,
  )

  pub check_hash-vouched :
      (is_so : Bool) (e : Event) (path hash : List ℕ) (d : Daemon sql.Db) (q : List ℕ)
      → IsSettled sql cfg w d
      → length hash ≡ 64
      → bytes_to_hex (hex_to_bytes hash) ≡ hash
      → All IsButton e.replies
      → Always
          (λ d'. member d'.stores.cache q ≡ true → listed sql w (bytes_to_hex q) ≡ true)
          (check_hash sql is_so e path hash d)
  unfolding check_hash ask_user_permission add_to_cache fanotify_allow fanotify_deny
      default_decision
  check_hash-vouched is_so e path hash d q o len decoded buttons =
      let d1 = looked_up sql hash d in
      let g1 = looked_up-IsReady sql hash d o.ready in
      ground (
        arith,
        decoded,
        o.config,
        o.whitelist,
        unlearned,
        o.vouched q,
        hit-listed hash d o decoded,
        cache_check-member hash hash o.ready.valid len,
        cache_check-member hash q o.ready.valid len,
        whitelist_check-bool sql hash w,
        cache_add-member sql e.malloc_ok e.now hash path (pos 0) d1.stores q g1.valid len,
        same_bytes-eq (hex_to_bytes hash) q,
        (asked is_so e path hash d o buttons).run,
        (asked is_so e path hash d o buttons).default,
      )
