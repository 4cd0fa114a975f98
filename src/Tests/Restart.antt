-- ===== src/Tests/Restart.antt =====
-- A program that was learnt in one run of the daemon is started in the next.
use linux_anti_executable.Base.{ℕ, List}
use linux_anti_executable.Whitelist.{Sqlite}
use linux_anti_executable.Config.{default_config}
use linux_anti_executable.Fanotify.{Daemon}
use linux_anti_executable.Main.{Started, failed, serving, start}
use linux_anti_executable.Main.Restart.{reopened}
use linux_anti_executable.Tests.Samples.{memory_sqlite, sample_sha}
use linux_anti_executable.Tests.Startup.{machine}
use linux_anti_executable.Tests.Verdicts.{kept_table}

abbrev Table : Type 0
Table = List (List ℕ)

next_daemon : Started Table → Daemon Table
next_daemon (failed status d) = d
next_daemon (serving d) = d

abbrev table_sqlite : Sqlite
table_sqlite = reopened memory_sqlite kept_table

-- The program is started at once.
next_start : Daemon Table
next_start = next_daemon (start table_sqlite sample_sha machine default_config)
