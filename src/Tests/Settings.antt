-- ===== src/Tests/Settings.antt =====
-- Runs of the configuration.
use linux_anti_executable.Base.{
  ℕ, ◌≡◌, ◌↔◌, ◌⊎◌, refl, true, false, List, [], ◌∷◌, ◌++◌, arith, pos, negsuc, codes, All,
}
use linux_anti_executable.Config.{
  Config, default_config, ConfigFile, opened, Opt, learn, timeout, parsed, parse_args,
  parse_config_file, load_config,
}
use linux_anti_executable.Config.Exclusion.{
  is_path_excluded, joined, begins_with_any, IsEntry, space, comma, is_path_excluded-joined,
  is_path_excluded_blank,
}
use linux_anti_executable.Config.Scan.{product_1000, times_1000, atoi, is_value_byte, is_space}
use linux_anti_executable.Config.Scan.Written.{starts_plain}
use linux_anti_executable.Config.Written.{IsWritable, print_config, parse_config_file-print_config}
use linux_anti_executable.Fanotify.SharedLibrary.{is_shared_library}
use linux_anti_executable.Fanotify.SharedLibrary.Names.{EndsIn, Holds, is_shared_library_iff}
use linux_anti_executable.Config.Priority.{Overrides, load_config-Overrides}

abbrev entries : List (List ℕ)
entries = codes "/proc" ∷ codes "/sys" ∷ []

entries-All : All IsEntry entries
entries-All = ground arith

-- The excluded directory is a prefix of another one's name.
prefix_of_name : is_path_excluded (codes "/proc, /sys") (codes "/sysroot/bin/x") ≡ true
unfolding is_path_excluded
prefix_of_name = refl

not_excluded : is_path_excluded (codes "/proc,/sys") (codes "/usr/bin/x") ≡ false
unfolding is_path_excluded
not_excluded = refl

is_path_excluded-joined_example :
    is_path_excluded (joined entries) (codes "/sysroot/bin/x")
    ≡ begins_with_any entries (codes "/sysroot/bin/x")
unfolding joined
is_path_excluded-joined_example =
    is_path_excluded-joined entries (codes "/sysroot/bin/x") entries-All (omega arith)

is_path_excluded_blank_example :
    is_path_excluded (codes "/proc" ++ comma ∷ space ∷ []) (codes "/usr/bin/x") ≡ true
is_path_excluded_blank_example =
    is_path_excluded_blank (codes "/proc") (codes "/usr/bin/x") (omega arith)

-- A file that sets the timeout and the default, and a command line with another timeout.
abbrev settings : List ℕ → ConfigFile
settings path = opened (codes "gui_timeout = 60" ∷ codes "default_deny=0" ∷ [])

abbrev options : List Opt
options = learn ∷ timeout (codes "10") ∷ []

abbrev first_parse : Config
first_parse = record default_config { learning_mode = pos 1; gui_timeout_ms = pos 10000 }

first_parse_lem : parse_args options default_config ≡ parsed first_parse
unfolding parse_args times_1000 atoi
first_parse_lem = refl

load_config-Overrides_example :
    (out : Config) × (load_config settings options default_config ≡ parsed out)
    × Overrides options (parse_config_file (settings first_parse.config_path) first_parse).1 out
load_config-Overrides_example =
    load_config-Overrides settings options default_config first_parse first_parse_lem

-- Three million seconds are too many milliseconds for an `int`, and 2^32 + 5 is cut to 5.
long_timeout : times_1000 (atoi (codes "3000000")) ≡ negsuc 1294967295
unfolding times_1000 atoi
long_timeout = refl

long_number : atoi (codes "4294967301") ≡ pos 5
unfolding atoi
long_number = refl

writable : IsWritable (pos 30) default_config
unfolding product_1000 starts_plain is_value_byte is_space
writable = record {
  db_path = record { first = refl; plain = refl; short = omega arith };
  socket_path = record { first = refl; plain = refl; short = omega arith };
  exclude_paths = record { first = refl; plain = refl; short = omega arith };
  learning_mode = omega arith;
  seconds_int = omega arith;
  default_deny = omega arith;
  monitor_shared_libs = omega arith;
  log_to_syslog = omega arith;
  timeout = refl;
  timeout_int = omega arith;
}

parse_config_file-print_config_example :
    parse_config_file (opened (print_config (pos 30) default_config)) first_parse ≡ (
      pos 0,
      record default_config {
        foreground = first_parse.foreground;
        do_scan = first_parse.do_scan;
        config_path = first_parse.config_path;
      },
    )
parse_config_file-print_config_example =
    parse_config_file-print_config (pos 30) default_config first_parse writable

is_shared_library_iff_example : (is_shared_library (codes "/lib/libc.so.6") ≡ true) ↔ (
    EndsIn (codes ".so") (codes "/lib/libc.so.6") ⊎ Holds (codes ".so.") (codes "/lib/libc.so.6"))
is_shared_library_iff_example = is_shared_library_iff (codes "/lib/libc.so.6")
