-- ===== src/Tests/Scanned.antt =====
-- A start with the initial scan.
use linux_anti_executable.Base.{
  ℕ, ◌≡◌, refl, true, ◌&&◌, ◌||◌, some, List, [], ◌∷◌, pos, codes, is_true,
}
use linux_anti_executable.Hash.Hex.{bytes_to_hex}
use linux_anti_executable.Hash.File.{chunk}
use linux_anti_executable.Whitelist.{whitelist_init}
use linux_anti_executable.Whitelist.Laws.{has_row, listed}
use linux_anti_executable.Whitelist.Scan.{file, end}
use linux_anti_executable.Cache.{cache_init}
use linux_anti_executable.Config.{Config, default_config}
use linux_anti_executable.Ipc.{ipc_server_init}
use linux_anti_executable.Fanotify.{Daemon, fanotify_set_monitor_shared_libs}
use linux_anti_executable.Fanotify.Mounts.{fanotify_init_exec_monitor}
use linux_anti_executable.Main.{Surroundings, Started, failed, serving, scan_dirs, start}
use linux_anti_executable.Main.System.{made, exists, child, create_directories, daemonize}
use linux_anti_executable.Main.Scanned.{below, found_table, start-listed}
use linux_anti_executable.Tests.Samples.{
  memory_sqlite, memory_sqlite-IsSqlite, sample_sha, sum_digest, elf_file,
}

abbrev Table : Type 0
Table = List (List ℕ)

-- One program in each directory.
abbrev installed : Surroundings
installed = record {
  root = true;
  lib_directory = made;
  run_directory = exists;
  table_ok = true;
  bloom_ok = true;
  socket = some 3;
  bind_ok = true;
  listen_ok = true;
  thread_ok = true;
  tree = λ _.
      file (codes "ls")
        (record {
          regular = true;
          executable = true;
          magic = some (chunk (0x7f ∷ 69 ∷ 76 ∷ 70 ∷ []));
          content = some elf_file;
        })
        end;
  now = 0;
  fan_fd = some 4;
  mark_ok = λ _. true;
  detaching = record { first = child; setsid_ok = true; second = child; chdir_ok = true };
  rounds = [];
}

abbrev scanning : Config
scanning = record default_config { do_scan = pos 1 }

scanned_daemon : Started Table → Daemon Table
scanned_daemon (failed status d) = d
scanned_daemon (serving d) = d

begun_scanning :
    start memory_sqlite sample_sha installed scanning
    ≡ serving (scanned_daemon (start memory_sqlite sample_sha installed scanning))
unfolding start create_directories daemonize whitelist_init cache_init ipc_server_init
    scanned_daemon fanotify_init_exec_monitor fanotify_set_monitor_shared_libs
begun_scanning = refl

-- The hash of the program.
abbrev program_hex : List ℕ
program_hex = bytes_to_hex (sum_digest (0x7f ∷ 69 ∷ 76 ∷ 70 ∷ 1 ∷ 2 ∷ []))

start-listed_example :
    listed memory_sqlite
      (scanned_daemon (start memory_sqlite sample_sha installed scanning)).stores.whitelist
      program_hex
    ≡ (is_true scanning.do_scan && below sample_sha program_hex scan_dirs installed scanning
        || has_row memory_sqlite (found_table memory_sqlite scanning) program_hex)
start-listed_example =
    start-listed memory_sqlite sample_sha memory_sqlite-IsSqlite (λ db h p t s. refl) installed
      scanning (scanned_daemon (start memory_sqlite sample_sha installed scanning)) program_hex
      begun_scanning
