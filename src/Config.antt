-- ===== src/Config.antt =====
-- src/daemon/main.c: the configuration, its defaults, the configuration file and the command line.
pub mod Exclusion
pub mod Scan
pub mod Priority
pub mod Written
use linux_anti_executable.Base.{
  ℕ, Bool, List, [], ◌∷◌, if◌then◌else◌, ℤ, pos, minus_one, codes, same_bytes, take,
}
use linux_anti_executable.Config.Exclusion.{is_path_excluded}
use linux_anti_executable.Config.Scan.{
  Line, skipped, unmatched, setting, scan_line, atoi, times_1000,
}

-- `g_config`
pub record Config : Type 0 where
  pub foreground : ℤ
  pub do_scan : ℤ
  pub learning_mode : ℤ
  pub log_to_syslog : ℤ
  pub gui_timeout_ms : ℤ
  pub default_deny : ℤ
  pub monitor_shared_libs : ℤ
  pub db_path : List ℕ
  pub config_path : List ℕ
  pub socket_path : List ℕ
  pub exclude_paths : List ℕ

abbrev pub default_config : Config
default_config = record {
  foreground = pos 0;
  do_scan = pos 0;
  learning_mode = pos 0;
  log_to_syslog = pos 1;
  gui_timeout_ms = pos 30000;
  default_deny = pos 1;
  monitor_shared_libs = pos 1;
  db_path = codes "/var/lib/lexec/whitelist.db";
  config_path = codes "/etc/lexec/lexec.conf";
  socket_path = codes "/var/run/lexec/lexec.sock";
  exclude_paths = codes "/proc,/sys,/dev,/run";
}

-- The functions by which the other files read the configuration.
abbrev pub daemon_is_path_excluded : Config → List ℕ → Bool
daemon_is_path_excluded cfg path = is_path_excluded cfg.exclude_paths path

abbrev pub daemon_get_gui_timeout : Config → ℤ
daemon_get_gui_timeout cfg = cfg.gui_timeout_ms

abbrev pub daemon_get_default_deny : Config → ℤ
daemon_get_default_deny cfg = cfg.default_deny

abbrev pub daemon_is_learning_mode : Config → ℤ
daemon_is_learning_mode cfg = cfg.learning_mode

-- `PATH_MAX - 1` and `sizeof(g_config.exclude_paths) - 1`
abbrev pub max_text : ℕ
max_text = 4095

-- The chain of comparisons with the known keys; an unknown key is passed over.
apply_setting : List ℕ → List ℕ → Config → Config
apply_setting key v cfg =
    if same_bytes key (codes "database_path")
    then record cfg { db_path = take max_text v }
    else if same_bytes key (codes "socket_path")
    then record cfg { socket_path = take max_text v }
    else if same_bytes key (codes "learning_mode")
    then record cfg { learning_mode = atoi v }
    else if same_bytes key (codes "gui_timeout")
    then record cfg { gui_timeout_ms = times_1000 (atoi v) }
    else if same_bytes key (codes "default_deny")
    then record cfg { default_deny = atoi v }
    else if same_bytes key (codes "monitor_shared_libs")
    then record cfg { monitor_shared_libs = atoi v }
    else if same_bytes key (codes "exclude_paths")
    then record cfg { exclude_paths = take max_text v }
    else if same_bytes key (codes "log_to_syslog")
    then record cfg { log_to_syslog = atoi v }
    else cfg

apply_line : Line → Config → Config
unfolding apply_setting
apply_line skipped cfg = cfg
apply_line unmatched cfg = cfg
apply_line (setting key v) cfg = apply_setting key v cfg

-- The loop over the answers of `fgets`.
unfoldable pub apply_lines : List (List ℕ) → Config → Config
unfolding apply_line
apply_lines [] cfg = cfg
apply_lines (line ∷ lines) cfg = apply_lines lines (apply_line (scan_line line) cfg)

-- The answer of `fopen`, with the lines that `fgets` then reads.
pub data ConfigFile : Type 0 where
  missing : ConfigFile
  unreadable : ConfigFile
  opened : List (List ℕ) → ConfigFile

unfoldable pub parse_config_file : ConfigFile → Config → ℤ × Config
parse_config_file missing cfg = (pos 0, cfg)
parse_config_file unreadable cfg = (minus_one, cfg)
parse_config_file (opened lines) cfg = (pos 0, apply_lines lines cfg)

-- An option as `getopt_long` reports it, with `optarg`.
pub data Opt : Type 0 where
  scan learn foreground help unknown : Opt
  config db timeout : List ℕ → Opt

-- `exit` in place of a return, with its status.
pub data Parsed : Type 0 where
  exits : ℕ → Parsed
  parsed : Config → Parsed

unfoldable pub parse_args : List Opt → Config → Parsed
parse_args [] cfg = parsed cfg
parse_args (scan ∷ opts) cfg = parse_args opts (record cfg { do_scan = pos 1 })
parse_args (learn ∷ opts) cfg = parse_args opts (record cfg { learning_mode = pos 1 })
parse_args (foreground ∷ opts) cfg = parse_args opts (record cfg { foreground = pos 1 })
parse_args (help ∷ opts) cfg = exits 0
parse_args (unknown ∷ opts) cfg = exits 1
parse_args (config path ∷ opts) cfg =
    parse_args opts (record cfg { config_path = take max_text path })
parse_args (db path ∷ opts) cfg = parse_args opts (record cfg { db_path = take max_text path })
parse_args (timeout text ∷ opts) cfg =
    parse_args opts (record cfg { gui_timeout_ms = times_1000 (atoi text) })

-- The first steps of `main`: the command line, the file that it or the default names, and the
-- command line once more. The first argument is the file system's answer to `fopen`.
load_file : (List ℕ → ConfigFile) → List Opt → Parsed → Parsed
load_file files opts (exits status) = exits status
load_file files opts (parsed cfg) =
    parse_args opts (parse_config_file (files cfg.config_path) cfg).1

unfoldable pub load_config : (List ℕ → ConfigFile) → List Opt → Config → Parsed
unfolding load_file
load_config files opts cfg = load_file files opts (parse_args opts cfg)
