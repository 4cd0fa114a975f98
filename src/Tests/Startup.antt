-- ===== src/Tests/Startup.antt =====
-- Runs of the daemon's start and end.
use linux_anti_executable.Base.{
  ℕ, ◌%◌, ◌^◌, ◌≡◌, refl, Bool, true, false, none, some, List, [], ◌∷◌, pos,
}
use linux_anti_executable.Hash.Hex.{bytes_to_hex}
use linux_anti_executable.Hash.File.{hash_fd}
use linux_anti_executable.Config.Exclusion.{is_path_excluded}
use linux_anti_executable.Fanotify.SharedLibrary.{is_elf_magic}
use linux_anti_executable.Whitelist.{whitelist_init, whitelist_check}
use linux_anti_executable.Whitelist.Scan.{end}
use linux_anti_executable.Cache.{cache_init}
use linux_anti_executable.Config.{
  Config, default_config, ConfigFile, missing, Opt, foreground, load_config, parsed, parse_args,
  parse_config_file,
}
use linux_anti_executable.Ipc.{is_timed, ipc_server_init, joins}
use linux_anti_executable.Fanotify.{
  Event, Daemon, fanotify_set_monitor_shared_libs, fanotify_get_stats, default_decision, deny,
}
use linux_anti_executable.Fanotify.Mounts.{fanotify_init_exec_monitor}
use linux_anti_executable.Fanotify.Policy.{decision_on, subject, subject_at}
use linux_anti_executable.Fanotify.Statistics.{allows, denies}
use linux_anti_executable.Fanotify.Ready.{IsReady}
use linux_anti_executable.Fanotify.Loop.{signal, again, batch, event_loop}
use linux_anti_executable.Gui.{button_message}
use linux_anti_executable.Main.{Surroundings, Started, failed, serving, start, main}
use linux_anti_executable.Main.System.{made, exists, child, create_directories, daemonize}
use linux_anti_executable.Main.Release.{Released, main-Released}
use linux_anti_executable.Main.Begin.{root_mark, start-IsReady}
use linux_anti_executable.Main.Failure.{detaches, Clean, start-failed}
use linux_anti_executable.Main.Background.{background_defaults}
use linux_anti_executable.Main.Enforcement.{main_enforces}
use linux_anti_executable.Fanotify.Settled.{settle, answer, answer_buffer, answer_rounds, ByButtons}
use linux_anti_executable.Main.Report.{main_reports}
use linux_anti_executable.Tests.Samples.{
  sample_libc, memory_sqlite, sample_sha, exec_event, sample_sha-IsSha256, holds, sum_digest,
}

abbrev Table : Type 0
Table = List (List ℕ)

abbrev pub machine : Surroundings
machine = record {
  root = true;
  lib_directory = made;
  run_directory = exists;
  table_ok = true;
  bloom_ok = true;
  socket = some 3;
  bind_ok = true;
  listen_ok = true;
  thread_ok = true;
  tree = λ _. end;
  now = 0;
  fan_fd = some 4;
  mark_ok = λ _. true;
  detaching = record { first = child; setsid_ok = true; second = child; chdir_ok = true };
  rounds = batch (exec_event ∷ []) ∷ again ∷ signal ∷ [];
}

abbrev no_file : List ℕ → ConfigFile
no_file path = missing

abbrev options : List Opt
options = foreground ∷ []

abbrev in_front : Config
in_front = record default_config { foreground = pos 1 }

loaded : load_config no_file options default_config ≡ parsed in_front
unfolding load_config parse_args parse_config_file
loaded = refl

-- The daemon that comes out of a start, and what is left of one that fails.
reached : Started Table → Daemon Table
reached (failed status d) = d
reached (serving d) = d

begun :
    start memory_sqlite sample_sha machine in_front
    ≡ serving (reached (start memory_sqlite sample_sha machine in_front))
unfolding start create_directories whitelist_init cache_init ipc_server_init reached
    fanotify_init_exec_monitor fanotify_set_monitor_shared_libs
begun = refl

main-Released_example :
    (d' : Daemon Table) × (main ⦃libc = sample_libc⦄ memory_sqlite sample_sha no_file options
        machine
      ≡ some (0, d'))
    × Released d'
unfolding is_timed
main-Released_example =
    main-Released ⦃libc = sample_libc⦄ memory_sqlite sample_sha no_file options machine in_front
      (reached (start memory_sqlite sample_sha machine in_front)) loaded begun refl

start-IsReady_example :
    IsReady ⦃libc = sample_libc⦄ memory_sqlite
      (reached (start memory_sqlite sample_sha machine in_front))
    × ((reached (start memory_sqlite sample_sha machine in_front)).config ≡ in_front)
    × ((reached (start memory_sqlite sample_sha machine in_front)).marks
        ≡ root_mark machine in_front)
start-IsReady_example =
    start-IsReady ⦃libc = sample_libc⦄ memory_sqlite sample_sha machine in_front
      (reached (start memory_sqlite sample_sha machine in_front)) begun

-- A kernel without fanotify.
abbrev old_machine : Surroundings
old_machine = record machine { fan_fd = none }

not_begun :
    start memory_sqlite sample_sha old_machine in_front
    ≡ failed 1 (reached (start memory_sqlite sample_sha old_machine in_front))
unfolding start create_directories whitelist_init cache_init ipc_server_init reached
    fanotify_init_exec_monitor
not_begun = refl

start-failed_example :
    Clean memory_sqlite sample_sha old_machine in_front
      (reached (start memory_sqlite sample_sha old_machine in_front))
unfolding detaches
start-failed_example =
    start-failed memory_sqlite sample_sha old_machine in_front 1
      (reached (start memory_sqlite sample_sha old_machine in_front)) not_begun refl

main_reports_example :
    (d' : Daemon Table) × (main ⦃libc = sample_libc⦄ memory_sqlite sample_sha no_file options
        machine
      ≡ some (0, d'))
    × (fanotify_get_stats d'
        ≡ (allows d'.verdicts % 2 ^ 64, denies d'.verdicts % 2 ^ 64, d'.stat_cached))
unfolding is_timed
main_reports_example =
    main_reports ⦃libc = sample_libc⦄ memory_sqlite sample_sha no_file options machine in_front
      (reached (start memory_sqlite sample_sha machine in_front)) loaded begun refl

begun_behind :
    start memory_sqlite sample_sha machine default_config
    ≡ serving (reached (start memory_sqlite sample_sha machine default_config))
unfolding start create_directories daemonize whitelist_init cache_init ipc_server_init reached
    fanotify_init_exec_monitor fanotify_set_monitor_shared_libs
begun_behind = refl

background_defaults_example :
    (d' : Daemon Table) × (event_loop ⦃libc = sample_libc⦄ memory_sqlite sample_sha machine.rounds
        (reached (start memory_sqlite sample_sha machine default_config))
      ≡ some d')
    × (d'.server.accepting ≡ false)
    × ((path hash : List ℕ) (asked : Event) (is_so : Bool)
        → decision_on path hash asked is_so d' ≡ some (default_decision default_config))
unfolding is_timed
background_defaults_example =
    background_defaults ⦃libc = sample_libc⦄ memory_sqlite sample_sha machine default_config
      machine.rounds (reached (start memory_sqlite sample_sha machine default_config)) begun_behind
      refl refl

-- A GUI joins, and its user presses the button that should allow the program always.
abbrev busy : Surroundings
busy = record machine {
  rounds =
      batch (
        record exec_event {
          visits = joins 7 ∷ [];
          replies = record { request_id = 1; response = 101 } ∷ [];
        }
        ∷ exec_event
        ∷ [])
      ∷ signal
      ∷ [];
}

busy_daemon : Daemon Table
unfolding reached
busy_daemon = reached (start memory_sqlite sample_sha busy in_front)

begun_busy : start memory_sqlite sample_sha busy in_front ≡ serving busy_daemon
unfolding start create_directories whitelist_init cache_init ipc_server_init reached busy_daemon
    fanotify_init_exec_monitor fanotify_set_monitor_shared_libs
begun_busy = refl

by_buttons : ByButtons busy.rounds
unfolding button_message
by_buttons = ((((2, refl), tt), (tt, tt)), tt)

main_enforces_example :
    (d' : Daemon Table) × (main ⦃libc = sample_libc⦄ memory_sqlite sample_sha no_file options busy
      ≡ some (0, d'))
    × (d'.verdicts
        ≡ answer_rounds memory_sqlite sample_sha in_front busy_daemon.stores.whitelist busy.rounds
            [])
unfolding is_timed
main_enforces_example =
    main_enforces ⦃libc = sample_libc⦄ memory_sqlite sample_sha sample_sha-IsSha256 no_file options
      busy in_front busy_daemon loaded begun_busy refl refl by_buttons

-- The unknown program is denied, and again.
denied :
    answer_rounds memory_sqlite sample_sha in_front busy_daemon.stores.whitelist busy.rounds []
    ≡ (9, deny) ∷ (9, deny) ∷ []
unfolding answer_rounds answer_buffer answer settle subject subject_at is_path_excluded is_elf_magic
    hash_fd start create_directories whitelist_init cache_init ipc_server_init reached busy_daemon
    fanotify_init_exec_monitor fanotify_set_monitor_shared_libs whitelist_check bytes_to_hex
    sum_digest holds
denied = refl
