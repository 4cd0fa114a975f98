-- ===== src/Config/Written.antt =====
-- A configuration file with every setting that `parse_config_file` of src/daemon/main.c knows.
use linux_anti_executable.Base.{
  ℕ, ◌≡◌, ◌∙◌, ap, refl, true, List, [], ◌∷◌, ℤ, pos, arith, codes, same_bytes, take, take_whole,
}
use linux_anti_executable.Config.Scan.{wrap_int, product_1000, times_1000}
use linux_anti_executable.Config.Scan.Written.{
  print_setting, is_key, IsValue, scan_line-print_setting,
}
use linux_anti_executable.Config.Scan.Number.{
  print_int, IsInt, wrap_int-IsInt, atoi-print_int, print_int-IsValue,
}
use linux_anti_executable.Config.{
  Config, opened, apply_setting, apply_line, apply_lines, parse_config_file, max_text,
}

-- The eight settings of the file; the timeout is written in seconds.
unfoldable pub settings : ℤ → Config → List (List ℕ × List ℕ)
settings seconds cfg =
    (codes "database_path", cfg.db_path)
    ∷ (codes "socket_path", cfg.socket_path)
    ∷ (codes "learning_mode", print_int cfg.learning_mode)
    ∷ (codes "gui_timeout", print_int seconds)
    ∷ (codes "default_deny", print_int cfg.default_deny)
    ∷ (codes "monitor_shared_libs", print_int cfg.monitor_shared_libs)
    ∷ (codes "exclude_paths", cfg.exclude_paths)
    ∷ (codes "log_to_syslog", print_int cfg.log_to_syslog)
    ∷ []

print_settings : List (List ℕ × List ℕ) → List (List ℕ)
print_settings [] = []
print_settings ((key, v) ∷ rest) = print_setting key v ∷ print_settings rest

apply_settings : List (List ℕ × List ℕ) → Config → Config
apply_settings [] cfg = cfg
apply_settings ((key, v) ∷ rest) cfg = apply_settings rest (apply_setting key v cfg)

unfoldable pub print_config : ℤ → Config → List (List ℕ)
unfolding print_settings
print_config seconds cfg = print_settings (settings seconds cfg)

-- The texts stand on one line and are not too long, and the numbers are in the range of `int`, the
-- timeout in milliseconds too, which is a thousand times the seconds.
pub record IsWritable (seconds : ℤ) (cfg : Config) : Type 0 where
  pub db_path : IsValue cfg.db_path
  pub socket_path : IsValue cfg.socket_path
  pub exclude_paths : IsValue cfg.exclude_paths
  pub learning_mode : IsInt cfg.learning_mode
  pub seconds_int : IsInt seconds
  pub default_deny : IsInt cfg.default_deny
  pub monitor_shared_libs : IsInt cfg.monitor_shared_libs
  pub log_to_syslog : IsInt cfg.log_to_syslog
  pub timeout : product_1000 seconds ≡ cfg.gui_timeout_ms
  pub timeout_int : IsInt cfg.gui_timeout_ms

AreWritable : List (List ℕ × List ℕ) → Type 0
AreWritable [] = Unit {0}
AreWritable ((key, v) ∷ rest) = ((is_key key ≡ true) × IsValue v) × AreWritable rest

apply_lines-print_settings :
    (l : List (List ℕ × List ℕ)) (cfg : Config)
    → AreWritable l
    → apply_lines (print_settings l) cfg ≡ apply_settings l cfg
unfolding apply_lines apply_line print_settings apply_settings AreWritable
apply_lines-print_settings [] cfg w = refl
apply_lines-print_settings ((key, v) ∷ rest) cfg ((k, i), w) =
    ap (λ line. apply_lines (print_settings rest) (apply_line line cfg))
      (scan_line-print_setting key v k i)
    ∙ apply_lines-print_settings rest (apply_setting key v cfg) w

settings-AreWritable :
    (seconds : ℤ) (cfg : Config) → IsWritable seconds cfg → AreWritable (settings seconds cfg)
unfolding settings AreWritable is_key
settings-AreWritable seconds cfg w = (
  (refl, w.db_path),
  (
    (refl, w.socket_path),
    (
      (refl, print_int-IsValue cfg.learning_mode w.learning_mode),
      (
        (refl, print_int-IsValue seconds w.seconds_int),
        (
          (refl, print_int-IsValue cfg.default_deny w.default_deny),
          (
            (refl, print_int-IsValue cfg.monitor_shared_libs w.monitor_shared_libs),
            (
              (refl, w.exclude_paths),
              ((refl, print_int-IsValue cfg.log_to_syslog w.log_to_syslog), tt),
            ),
          ),
        ),
      ),
    ),
  ),
)

text_fits : (v : List ℕ) → IsValue v → take max_text v ≡ v
text_fits v i = take_whole max_text v (omega (arith, i.short))

timeout_fits :
    (seconds : ℤ) (cfg : Config) → IsWritable seconds cfg → times_1000 seconds ≡ cfg.gui_timeout_ms
unfolding times_1000
timeout_fits seconds cfg w = ap wrap_int w.timeout ∙ wrap_int-IsInt cfg.gui_timeout_ms w.timeout_int

apply_settings-settings :
    (seconds : ℤ) (cfg before : Config)
    → IsWritable seconds cfg
    → apply_settings (settings seconds cfg) before ≡ record cfg {
      foreground = before.foreground;
      do_scan = before.do_scan;
      config_path = before.config_path;
    }
unfolding apply_settings settings apply_setting same_bytes
apply_settings-settings seconds cfg before w =
    rw
      (
        text_fits cfg.db_path w.db_path,
        text_fits cfg.socket_path w.socket_path,
        text_fits cfg.exclude_paths w.exclude_paths,
        atoi-print_int cfg.learning_mode w.learning_mode,
        atoi-print_int seconds w.seconds_int,
        atoi-print_int cfg.default_deny w.default_deny,
        atoi-print_int cfg.monitor_shared_libs w.monitor_shared_libs,
        atoi-print_int cfg.log_to_syslog w.log_to_syslog,
        timeout_fits seconds cfg w,
      )
      refl

-- A configuration whose numbers, the timeout in milliseconds included, are in the range of `int`,
-- whose timeout is a whole number of seconds and whose texts fit a line is read back after it was
-- written line by line: every setting of the file is as it
-- was, and the three fields that no file sets are as they were before.
pub parse_config_file-print_config :
    (seconds : ℤ) (cfg before : Config)
    → IsWritable seconds cfg
    → parse_config_file (opened (print_config seconds cfg)) before ≡ (
      pos 0,
      record cfg {
        foreground = before.foreground;
        do_scan = before.do_scan;
        config_path = before.config_path;
      },
    )
unfolding parse_config_file print_config
parse_config_file-print_config seconds cfg before w =
    ap (λ c. (pos 0, c))
      (apply_lines-print_settings (settings seconds cfg) before (settings-AreWritable seconds cfg w)
        ∙ apply_settings-settings seconds cfg before w)
