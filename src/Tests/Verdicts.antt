-- ===== src/Tests/Verdicts.antt =====
-- Runs of the event handlers.
use mathlib.Core.Option
use linux_anti_executable.Base.{
  ℕ, ◌≡◌, refl, true, false, not, ◌&&◌, ◌||◌, none, some, List, [], ◌∷◌, pos, codes, is_true,
  is_zero, same_bytes,
}
use linux_anti_executable.Hash.Hex.{bytes_to_hex, hex_to_bytes}
use linux_anti_executable.Whitelist.{whitelist_add, whitelist_check, whitelist_init}
use linux_anti_executable.Cache.{cache_check, cache_init, cache_add}
use linux_anti_executable.Cache.Bloom.{bloom_check, bloom_hashes, bloom_add}
use linux_anti_executable.Cache.Chain.{find_entry, hash_to_index}
use linux_anti_executable.Whitelist.Laws.{listed}
use linux_anti_executable.Cache.Contents.{member}
use linux_anti_executable.Hash.File.{hash_fd}
use linux_anti_executable.Config.Exclusion.{is_path_excluded}
use linux_anti_executable.Ipc.{is_timed}
use linux_anti_executable.Fanotify.SharedLibrary.{is_elf_magic}
use linux_anti_executable.Fanotify.{
  visited, Event, Daemon, handle_event, handle_exec_perm_event, handle_open_perm_event, check_hash,
  fanotify_allow, remember, add_to_cache,
}
use linux_anti_executable.Fanotify.Policy.{
  verdicts_of, verdict_on, decision_on, known, subject, handle_exec_perm_event-policy,
  handle_open_perm_event-policy,
}
use linux_anti_executable.Fanotify.Ready.{IsReady}
use linux_anti_executable.Fanotify.Loop.{Round, signal, again, batch, event_loop, process_buffer}
use linux_anti_executable.Fanotify.Returns.{event_loop_returns}
use linux_anti_executable.Fanotify.Remember.{
  granted, is_always, check_hash-member, check_hash-listed,
}
use linux_anti_executable.Fanotify.Enrolled.{enrolled, enrolled_for_good}
use linux_anti_executable.Fanotify.Known.{AllowedUnasked, handler}
use linux_anti_executable.Fanotify.Forever.{asked_once}
use linux_anti_executable.Tests.Samples.{
  sample_libc, holds, memory_sqlite, memory_sqlite-IsSqlite, sum_digest, sample_sha,
  sample_sha-IsSha256, exec_event, open_event, started, started-IsReady, learner, learner-IsReady,
}

abbrev Table : Type 0
Table = List (List ℕ)

handle_exec_perm_event-policy_example :
    verdicts_of
      (handle_exec_perm_event ⦃libc = sample_libc⦄ memory_sqlite sample_sha exec_event started)
    ≡ Option.map
        (λ x. (9, x) ∷ [])
        (verdict_on ⦃libc = sample_libc⦄ memory_sqlite sample_sha false exec_event started)
handle_exec_perm_event-policy_example =
    handle_exec_perm_event-policy ⦃libc = sample_libc⦄ memory_sqlite sample_sha sample_sha-IsSha256
      exec_event started started-IsReady.valid refl

handle_open_perm_event-policy_example :
    verdicts_of
      (handle_open_perm_event ⦃libc = sample_libc⦄ memory_sqlite sample_sha open_event learner)
    ≡ Option.map
        (λ x. (9, x) ∷ [])
        (verdict_on ⦃libc = sample_libc⦄ memory_sqlite sample_sha true open_event learner)
handle_open_perm_event-policy_example =
    handle_open_perm_event-policy ⦃libc = sample_libc⦄ memory_sqlite sample_sha sample_sha-IsSha256
      open_event learner learner-IsReady.valid refl

event_loop_returns_example :
    (d' : Daemon Table) × (event_loop ⦃libc = sample_libc⦄ memory_sqlite sample_sha
        (again ∷ batch (exec_event ∷ open_event ∷ []) ∷ signal ∷ [])
        started
      ≡ some d')
    × (d'.config ≡ started.config)
    × IsReady ⦃libc = sample_libc⦄ memory_sqlite d'
unfolding is_timed
event_loop_returns_example =
    event_loop_returns ⦃libc = sample_libc⦄ memory_sqlite sample_sha
      (again ∷ batch (exec_event ∷ open_event ∷ []) ∷ signal ∷ []) started refl started-IsReady

-- The hash of the sample file.
abbrev pub file_hex : List ℕ
file_hex = bytes_to_hex (sum_digest (0x7f ∷ 69 ∷ 76 ∷ 70 ∷ 1 ∷ 2 ∷ []))

-- The daemon in learning mode after it has checked the file.
learnt : Daemon Table
learnt =
    elim (check_hash ⦃libc = sample_libc⦄ memory_sqlite false exec_event (codes "/usr/bin/ls")
      file_hex learner) [ none ↦ learner | some d ↦ d ]

learnt_lem :
    check_hash ⦃libc = sample_libc⦄ memory_sqlite false exec_event
      (codes "/usr/bin/ls")
      file_hex
      learner
    ≡ some learnt
unfolding learnt check_hash cache_check cache_init bytes_to_hex sum_digest bloom_check bloom_hashes
    hex_to_bytes whitelist_check whitelist_init holds
learnt_lem = refl

check_hash-member_example : member learnt.stores.cache (sum_digest []) ≡ (
    granted ⦃libc = sample_libc⦄ memory_sqlite
        (codes "/usr/bin/ls")
        file_hex
        exec_event
        false
        learner
      && same_bytes (hex_to_bytes ⦃libc = sample_libc⦄ file_hex) (sum_digest [])
    || member learner.stores.cache (sum_digest []))
unfolding bytes_to_hex sum_digest
check_hash-member_example =
    check_hash-member ⦃libc = sample_libc⦄ memory_sqlite false exec_event (codes "/usr/bin/ls")
      file_hex learner (sum_digest []) {d' = learnt} learner-IsReady refl refl learnt_lem

check_hash-listed_example :
    let wanted =
      not (known ⦃libc = sample_libc⦄ memory_sqlite learner file_hex)
      && (is_true learner.config.learning_mode
          || is_always (decision_on (codes "/usr/bin/ls") file_hex exec_event false learner)) in
    let stored =
      is_zero
        (whitelist_add memory_sqlite exec_event.now file_hex
          (codes "/usr/bin/ls")
          (pos 0)
          learner.stores.whitelist).0 in
    listed memory_sqlite learnt.stores.whitelist file_hex ≡ (
      wanted && stored && same_bytes file_hex file_hex
      || listed memory_sqlite learner.stores.whitelist file_hex)
unfolding bytes_to_hex sum_digest
check_hash-listed_example =
    check_hash-listed ⦃libc = sample_libc⦄ memory_sqlite memory_sqlite-IsSqlite false exec_event
      (codes "/usr/bin/ls") file_hex learner file_hex {d' = learnt} learner-IsReady refl learnt_lem

-- The same by way of the event's handler, and a later event on a copy of the file.
pub after_exec : Daemon Table
after_exec =
    elim (handle_exec_perm_event ⦃libc = sample_libc⦄ memory_sqlite sample_sha exec_event learner) [
      | none ↦ learner
      | some d ↦ d
    ]

pub after_exec_lem :
    handle_exec_perm_event ⦃libc = sample_libc⦄ memory_sqlite sample_sha exec_event learner
    ≡ some after_exec
unfolding after_exec handle_exec_perm_event check_hash is_path_excluded is_elf_magic hash_fd
    cache_check cache_init bytes_to_hex sum_digest bloom_check bloom_hashes hex_to_bytes
    whitelist_check whitelist_init holds
after_exec_lem = refl

abbrev copied : Event
copied = record exec_event { link = some (codes "/tmp/ls") }

pub subject_lem :
    subject sample_sha false exec_event learner.config ≡ some (codes "/usr/bin/ls", file_hex)
unfolding subject is_path_excluded is_elf_magic hash_fd
subject_lem = refl

file_granted :
    granted ⦃libc = sample_libc⦄ memory_sqlite
      (codes "/usr/bin/ls")
      file_hex
      exec_event
      false
      learner
    ≡ true
unfolding granted whitelist_check whitelist_init holds
file_granted = refl

-- The program is started once more before the copy is.
abbrev pub meanwhile : List Round
meanwhile = again ∷ batch (exec_event ∷ []) ∷ []

pub after_rounds : Daemon Table
unfolding event_loop
after_rounds =
    elim (event_loop ⦃libc = sample_libc⦄ memory_sqlite sample_sha meanwhile after_exec) [
      | none ↦ after_exec
      | some d ↦ d
    ]

pub after_rounds_lem :
    event_loop ⦃libc = sample_libc⦄ memory_sqlite sample_sha meanwhile after_exec
    ≡ some after_rounds
unfolding after_rounds event_loop process_buffer handle_event after_exec handle_exec_perm_event
    check_hash is_path_excluded is_elf_magic hash_fd cache_check cache_init bytes_to_hex sum_digest
    bloom_check bloom_hashes hex_to_bytes whitelist_check whitelist_init holds fanotify_allow
    remember add_to_cache cache_add find_entry bloom_add hash_to_index same_bytes
after_rounds_lem = refl

last_subject :
    subject sample_sha false copied after_rounds.config ≡ some (codes "/tmp/ls", file_hex)
unfolding subject after_rounds event_loop process_buffer handle_event after_exec
    handle_exec_perm_event check_hash is_path_excluded is_elf_magic hash_fd cache_check cache_init
    bytes_to_hex sum_digest bloom_check bloom_hashes hex_to_bytes whitelist_check whitelist_init
    holds fanotify_allow remember add_to_cache cache_add find_entry bloom_add hash_to_index
    same_bytes
last_subject = refl

asked_once_example : AllowedUnasked copied (visited copied after_rounds) (
    handler ⦃libc = sample_libc⦄ memory_sqlite sample_sha false copied
      (visited copied after_rounds))
asked_once_example =
    asked_once ⦃libc = sample_libc⦄ memory_sqlite sample_sha sample_sha-IsSha256 exec_event copied
      learner after_exec after_rounds (codes "/usr/bin/ls") (codes "/tmp/ls") file_hex false false
      meanwhile learner-IsReady refl subject_lem file_granted after_exec_lem after_rounds_lem
      last_subject refl

pub file_enters :
    enrolled ⦃libc = sample_libc⦄ memory_sqlite sample_sha
      (codes "/usr/bin/ls")
      file_hex
      exec_event
      false
      learner
    ≡ true
unfolding enrolled known whitelist_check whitelist_init whitelist_add holds cache_init find_entry
    bytes_to_hex sum_digest
file_enters = refl

enrolled_for_good_example : listed memory_sqlite after_rounds.stores.whitelist file_hex ≡ true
enrolled_for_good_example =
    enrolled_for_good ⦃libc = sample_libc⦄ memory_sqlite sample_sha memory_sqlite-IsSqlite
      sample_sha-IsSha256 exec_event learner after_exec after_rounds (codes "/usr/bin/ls") file_hex
      false meanwhile learner-IsReady subject_lem file_enters after_exec_lem after_rounds_lem

-- The table that is left.
pub kept_table : Table
kept_table = elim after_rounds.stores.whitelist.db [ none ↦ [] | some db ↦ db ]

pub kept_table_lem : after_rounds.stores.whitelist.db ≡ some kept_table
unfolding kept_table whitelist_add after_rounds event_loop process_buffer handle_event after_exec
    handle_exec_perm_event check_hash is_path_excluded is_elf_magic hash_fd cache_check cache_init
    bytes_to_hex sum_digest bloom_check bloom_hashes hex_to_bytes whitelist_check whitelist_init
    holds fanotify_allow remember add_to_cache cache_add find_entry bloom_add hash_to_index
    same_bytes
kept_table_lem = refl
