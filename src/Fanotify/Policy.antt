-- ===== src/Fanotify/Policy.antt =====
-- What the handlers of src/daemon/fanotify_handler.c answer, against a description of the policy.
use mathlib.Core.Option
use linux_anti_executable.Base.{
  ℕ, ◌≡◌, refl, Bool, true, false, not, ◌&&◌, ◌||◌, Option, none, some, List, ◌∷◌, arith,
  if◌then◌else◌, ℤ, is_true, is_nonneg, length,
}
use linux_anti_executable.Hash.Hex.{Libc, hex_to_bytes}
use linux_anti_executable.Hash.File.{Sha256, hash_fd}
use linux_anti_executable.Hash.File.Digest.{IsSha256, hash_fd-length}
use linux_anti_executable.Whitelist.{Sqlite}
use linux_anti_executable.Whitelist.Laws.{listed, whitelist_check-bool}
use linux_anti_executable.Cache.Invariant.{IsValid}
use linux_anti_executable.Cache.Contents.{member, cache_check-member}
use linux_anti_executable.Config.{Config}
use linux_anti_executable.Config.Exclusion.{is_path_excluded}
use linux_anti_executable.Ipc.{ipc_request_permission}
use linux_anti_executable.Fanotify.SharedLibrary.{is_shared_library, is_elf_magic}
use linux_anti_executable.Fanotify.{
  Event, Daemon, Verdict, allow, deny, fanotify_allow, fanotify_deny, ask_user_permission,
  add_to_cache, remember, check_hash, hashed, exec_at, open_at, read_link, handle_exec_perm_event,
  handle_open_perm_event, build_request, decision_of,
}

-- A file that is known is allowed, and so is every file in learning mode; the rest is decided.
unfoldable pub policy : Bool → Bool → Option ℤ → Option Verdict
policy true learning decision = some allow
policy false true decision = some allow
policy false false none = none
policy false false (some decision) = some (if is_nonneg decision then allow else deny)

-- The decision on a file if the user is asked; `none` if the question is never answered.
unfoldable pub decision_on : {D : Type 0} → List ℕ → List ℕ → Event → Bool → Daemon D → Option ℤ
decision_on path hash e is_so d =
    Option.map (λ r. decision_of r.0 d.config)
      (ipc_request_permission e.request_ok e.replies (build_request path hash e is_so)
        d.config.gui_timeout_ms d.server)

-- The verdicts after an event, if its handler returns.
abbrev pub verdicts_of : {D : Type 0} → Option (Daemon D) → Option (List (ℕ × Verdict))
verdicts_of = Option.map (λ d. d.verdicts)

obey_verdict : Option ℤ → Option Verdict
obey_verdict = Option.map (λ z. if is_nonneg z then allow else deny)

module _ ⦃libc : Libc⦄ (sql : Sqlite) where
  -- The hash is in the cache or in the database.
  unfoldable pub known : Daemon sql.Db → List ℕ → Bool
  known d hash = member d.stores.cache (hex_to_bytes hash) || listed sql d.stores.whitelist hash

  -- From the cache on, exactly one verdict is given, by the policy.
  check_hash-policy :
      (is_so : Bool) (e : Event) (path hash : List ℕ) (d : Daemon sql.Db)
      → IsValid d.stores.cache
      → length hash ≡ 64
      → e.respond_ok ≡ true
      → verdicts_of (check_hash sql is_so e path hash d)
        ≡ Option.map
            (λ v. (e.fd, v) ∷ d.verdicts)
            (policy
              (known d hash)
              (is_true d.config.learning_mode)
              (decision_on path hash e is_so d))
  unfolding check_hash add_to_cache remember fanotify_allow fanotify_deny policy decision_on
      ask_user_permission known
  check_hash-policy is_so e path hash d v len ok =
      ground (
        arith,
        cache_check-member hash hash v len,
        whitelist_check-bool sql hash d.stores.whitelist,
      )

module _ (sha : Sha256) where
  unfoldable pub subject_at : Bool → Event → Config → Option (List ℕ) → Option (List ℕ × List ℕ)
  subject_at is_so e cfg none = none
  subject_at is_so e cfg (some path) =
      if is_path_excluded cfg.exclude_paths path
        || is_so && not (is_shared_library path)
        || not (is_elf_magic e.magic)
      then none
      else Option.map (λ hash. (path, hash)) (hash_fd sha e.file).0

  -- The file is checked: its path and its hash, unless the path is unknown or excluded, the file is
  -- no library by name where only those are asked for, it is no ELF file, or it cannot be hashed.
  unfoldable pub subject : Bool → Event → Config → Option (List ℕ × List ℕ)
  unfolding subject_at read_link
  subject is_so e cfg = subject_at is_so e cfg (read_link e.link)

module _ ⦃libc : Libc⦄ (sql : Sqlite) (sha : Sha256) where
  verdict_on_subject : Bool → Event → Daemon sql.Db → Option (List ℕ × List ℕ) → Option Verdict
  verdict_on_subject is_so e d none = some allow
  verdict_on_subject is_so e d (some (path, hash)) =
      policy (known sql d hash) (is_true d.config.learning_mode) (decision_on path hash e is_so d)

  -- The policy on an event: what is not checked is allowed.
  unfoldable pub verdict_on : Bool → Event → Daemon sql.Db → Option Verdict
  unfolding subject verdict_on_subject
  verdict_on is_so e d = verdict_on_subject is_so e d (subject sha is_so e d.config)

  module _ {digest : List ℕ → List ℕ} (laws : IsSha256 sha digest) (e : Event) (d : Daemon sql.Db)
      (v : IsValid d.stores.cache) (ok : e.respond_ok ≡ true) where
    hashed-policy :
        (is_so : Bool) (path : List ℕ) (found : Option (List ℕ))
        → (hash_fd sha e.file).0 ≡ found
        → verdicts_of (hashed sql sha is_so e path found d)
          ≡ Option.map
              (λ x. (e.fd, x) ∷ d.verdicts)
              (verdict_on_subject is_so e d (Option.map (λ hash. (path, hash)) found))
    unfolding hashed verdict_on_subject fanotify_allow
    hashed-policy is_so path none h = ground arith
    hashed-policy is_so path (some hash) h =
        check_hash-policy sql is_so e path hash d v (hash_fd-length sha digest laws e.file h) ok

    exec_at-policy :
        (link : Option (List ℕ))
        → read_link e.link ≡ link
        → verdicts_of (exec_at sql sha e link d)
          ≡ Option.map (λ x. (e.fd, x) ∷ d.verdicts) (verdict_on false e d)
    unfolding exec_at verdict_on fanotify_allow
    exec_at-policy none h = rw h (ground arith)
    exec_at-policy (some path) h =
        rw h (ground (arith, hashed-policy false path (hash_fd sha e.file).0 refl))

    open_at-policy :
        (link : Option (List ℕ))
        → read_link e.link ≡ link
        → verdicts_of (open_at sql sha e link d)
          ≡ Option.map (λ x. (e.fd, x) ∷ d.verdicts) (verdict_on true e d)
    unfolding open_at verdict_on fanotify_allow
    open_at-policy none h = rw h (ground arith)
    open_at-policy (some path) h =
        rw h (ground (arith, hashed-policy true path (hash_fd sha e.file).0 refl))

    -- With a valid cache, and if the kernel takes the response, an `execve` event is answered once,
    -- by the policy: the handler writes one verdict for the event's descriptor, or waits for ever
    -- where the policy has no answer.
    pub handle_exec_perm_event-policy :
        verdicts_of (handle_exec_perm_event sql sha e d)
        ≡ Option.map (λ x. (e.fd, x) ∷ d.verdicts) (verdict_on false e d)
    unfolding handle_exec_perm_event
    handle_exec_perm_event-policy = exec_at-policy (read_link e.link) refl

    -- With a valid cache, and if the kernel takes the response, an `open` event is answered once, by
    -- the policy that checks shared libraries only.
    pub handle_open_perm_event-policy :
        verdicts_of (handle_open_perm_event sql sha e d)
        ≡ Option.map (λ x. (e.fd, x) ∷ d.verdicts) (verdict_on true e d)
    unfolding handle_open_perm_event
    handle_open_perm_event-policy = open_at-policy (read_link e.link) refl
