-- ===== src/Config/Priority.antt =====
-- Which source of the configuration wins in `main` of src/daemon/main.c.
use linux_anti_executable.Base.{
  ℕ, Bool, true, false, ◌≡◌, refl, ap, ◌∙◌, List, [], ◌∷◌, arith, if◌then◌else◌, ℤ, pos, take,
}
use linux_anti_executable.Config.Scan.{atoi, times_1000}
use linux_anti_executable.Config.{
  Config, Opt, scan, learn, foreground, help, unknown, config, db, timeout, parsed, ConfigFile,
  max_text, parse_args, parse_config_file, load_config, load_file,
}

-- The last `--timeout`, `--db` and `--config` of a command line, or the value without one.
pub last_timeout : List Opt → ℤ → ℤ
last_timeout [] value = value
last_timeout (timeout text ∷ opts) value = last_timeout opts (times_1000 (atoi text))
last_timeout (_ ∷ opts) value = last_timeout opts value

pub last_db : List Opt → List ℕ → List ℕ
last_db [] value = value
last_db (db path ∷ opts) value = last_db opts (take max_text path)
last_db (_ ∷ opts) value = last_db opts value

pub last_config : List Opt → List ℕ → List ℕ
last_config [] value = value
last_config (config path ∷ opts) value = last_config opts (take max_text path)
last_config (_ ∷ opts) value = last_config opts value

-- Whether `--learn`, `--scan` and `--foreground` stand in a command line.
pub asks_learn : List Opt → Bool
asks_learn [] = false
asks_learn (learn ∷ opts) = true
asks_learn (_ ∷ opts) = asks_learn opts

pub asks_scan : List Opt → Bool
asks_scan [] = false
asks_scan (scan ∷ opts) = true
asks_scan (_ ∷ opts) = asks_scan opts

pub asks_foreground : List Opt → Bool
asks_foreground [] = false
asks_foreground (foreground ∷ opts) = true
asks_foreground (_ ∷ opts) = asks_foreground opts

-- All eleven fields: what the command line sets, and what it has no option for.
pub record Overrides (opts : List Opt) (cfg out : Config) : Type 0 where
  pub timeout_ms : out.gui_timeout_ms ≡ last_timeout opts cfg.gui_timeout_ms
  pub database : out.db_path ≡ last_db opts cfg.db_path
  pub learning : out.learning_mode ≡ (if asks_learn opts then pos 1 else cfg.learning_mode)
  pub scanning : out.do_scan ≡ (if asks_scan opts then pos 1 else cfg.do_scan)
  pub in_front : out.foreground ≡ (if asks_foreground opts then pos 1 else cfg.foreground)
  pub file : out.config_path ≡ last_config opts cfg.config_path
  pub syslog : out.log_to_syslog ≡ cfg.log_to_syslog
  pub socket : out.socket_path ≡ cfg.socket_path
  pub deny : out.default_deny ≡ cfg.default_deny
  pub libraries : out.monitor_shared_libs ≡ cfg.monitor_shared_libs
  pub excludes : out.exclude_paths ≡ cfg.exclude_paths

parse_args-Overrides :
    (opts : List Opt) (cfg out : Config) → parse_args opts cfg ≡ parsed out → Overrides opts cfg out
unfolding parse_args last_timeout last_db last_config asks_learn asks_scan asks_foreground
parse_args-Overrides [] cfg out h = ground arith
parse_args-Overrides (scan ∷ opts) cfg out h =
    let o = parse_args-Overrides opts (record cfg { do_scan = pos 1 }) out h in ground (arith, o)
parse_args-Overrides (learn ∷ opts) cfg out h =
    let o = parse_args-Overrides opts (record cfg { learning_mode = pos 1 }) out h in
    ground (arith, o)
parse_args-Overrides (foreground ∷ opts) cfg out h =
    let o = parse_args-Overrides opts (record cfg { foreground = pos 1 }) out h in ground (arith, o)
parse_args-Overrides (help ∷ opts) cfg out h = cc
parse_args-Overrides (unknown ∷ opts) cfg out h = cc
parse_args-Overrides (config path ∷ opts) cfg out h =
    let o = parse_args-Overrides opts (record cfg { config_path = take max_text path }) out h in
    ground (arith, o)
parse_args-Overrides (db path ∷ opts) cfg out h =
    let o = parse_args-Overrides opts (record cfg { db_path = take max_text path }) out h in
    ground (arith, o)
parse_args-Overrides (timeout text ∷ opts) cfg out h =
    let o =
      parse_args-Overrides opts (record cfg { gui_timeout_ms = times_1000 (atoi text) }) out h in
    ground (arith, o)

parse_args_again :
    (opts : List Opt) (cfg base : Config)
    → parse_args opts cfg ≡ parsed base
    → (cfg' : Config) → (out : Config) × (parse_args opts cfg' ≡ parsed out)
unfolding parse_args
parse_args_again [] cfg base h cfg' = (cfg', refl)
parse_args_again (scan ∷ opts) cfg base h cfg' = parse_args_again opts _ base h _
parse_args_again (learn ∷ opts) cfg base h cfg' = parse_args_again opts _ base h _
parse_args_again (foreground ∷ opts) cfg base h cfg' = parse_args_again opts _ base h _
parse_args_again (help ∷ opts) cfg base h cfg' = cc
parse_args_again (unknown ∷ opts) cfg base h cfg' = cc
parse_args_again (config path ∷ opts) cfg base h cfg' = parse_args_again opts _ base h _
parse_args_again (db path ∷ opts) cfg base h cfg' = parse_args_again opts _ base h _
parse_args_again (timeout text ∷ opts) cfg base h cfg' = parse_args_again opts _ base h _

-- If the program gets past its command line once, it starts with a configuration in which the
-- options of the command line win over the file that the command line or the default names, and
-- every field without an option on the command line is as that file left it.
pub load_config-Overrides :
    (files : List ℕ → ConfigFile) (opts : List Opt) (cfg base : Config)
    → parse_args opts cfg ≡ parsed base
    → (out : Config) × (load_config files opts cfg ≡ parsed out)
      × Overrides opts (parse_config_file (files base.config_path) base).1 out
unfolding load_config
load_config-Overrides files opts cfg base first =
    let read = (parse_config_file (files base.config_path) base).1 in
    let (out, again) = parse_args_again opts cfg base first read in
    (out, ap (load_file files opts) first ∙ again, parse_args-Overrides opts read out again)
