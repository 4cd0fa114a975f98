-- ===== src/Main/Scanned.antt =====
-- What `perform_initial_scan` and the start in `main` of src/daemon/main.c make of the database.
use linux_anti_executable.Base.{
  ℕ, ◌≡◌, ◌∙◌, refl, ap, Bool, true, false, not, ◌&&◌, ◌||◌, List, [], ◌∷◌, if◌then◌else◌, ℤ, pos,
  is_true, arith,
}
use linux_anti_executable.Hash.File.{Sha256}
use linux_anti_executable.Whitelist.{
  Sqlite, Whitelist, closed, sqlite_done, whitelist_init, whitelist_check,
  whitelist_set_learning_mode,
}
use linux_anti_executable.Whitelist.Laws.{IsSqlite, IsOpen, has_row, listed, whitelist_init-IsOpen}
use linux_anti_executable.Whitelist.Scan.{
  holds_executable, whitelist_scan_directory, whitelist_scan_directory-listed,
  whitelist_scan_directory-IsOpen,
}
use linux_anti_executable.Config.{Config}
use linux_anti_executable.Fanotify.{Daemon}
use linux_anti_executable.Config.Exclusion.{is_path_excluded}
use linux_anti_executable.Main.Prepared.{booted}
use linux_anti_executable.Main.Begin.{serving-Begins}
use linux_anti_executable.Main.{
  Surroundings, serving, scan_all, scan_dirs, perform_initial_scan, start,
}

-- A file with this hash is an executable below one of the directories that are not excluded.
unfoldable pub below : Sha256 → List ℕ → List (List ℕ) → Surroundings → Config → Bool
below sha q [] e cfg = false
below sha q (dir ∷ dirs) e cfg =
    not (is_path_excluded cfg.exclude_paths dir) && holds_executable sha q true (e.tree dir)
    || below sha q dirs e cfg

module _ (sql : Sqlite) (sha : Sha256) (laws : IsSqlite sql)
    (stores : (db : sql.Db) (h p : List ℕ) (t : ℕ) (s : ℤ)
      → (sql.insert_or_replace db h p t s).0 ≡ sqlite_done)
    (e : Surroundings) (cfg : Config) where
  scan_all-listed :
      (dirs : List (List ℕ)) (w : Whitelist sql.Db) (q : List ℕ)
      → IsOpen sql w
      → listed sql (scan_all sql sha dirs e cfg w).1 q ≡ (below sha q dirs e cfg || listed sql w q)
  unfolding scan_all below
  scan_all-listed [] w q o = refl
  scan_all-listed (dir ∷ dirs) w q o =
      let w1 = (whitelist_scan_directory sql sha e.now dir true (e.tree dir) w).1 in
      let o1 = whitelist_scan_directory-IsOpen sql sha e.now dir true (e.tree dir) w o in
      ground (
        arith,
        scan_all-listed dirs w q o,
        scan_all-listed dirs w1 q o1,
        whitelist_scan_directory-listed sql laws sha e.now stores dir true (e.tree dir) w q o,
      )

  scan-listed :
      (asked : Bool) (w : Whitelist sql.Db) (q : List ℕ)
      → IsOpen sql w
      → listed sql (if asked then (perform_initial_scan sql sha e cfg w).1 else w) q
        ≡ (asked && below sha q scan_dirs e cfg || listed sql w q)
  unfolding perform_initial_scan
  scan-listed true w q o = scan_all-listed scan_dirs w q o
  scan-listed false w q o = refl

  learning-listed :
      (learning : Bool) (w : Whitelist sql.Db) (q : List ℕ)
      → listed sql (if learning then whitelist_set_learning_mode (pos 1) w else w) q
        ≡ listed sql w q
  unfolding whitelist_set_learning_mode whitelist_check
  learning-listed true w q = refl
  learning-listed false w q = refl

  booted-listed :
      (w : Whitelist sql.Db) (q : List ℕ)
      → IsOpen sql w
      → listed sql (booted sql sha e cfg w) q
        ≡ (is_true cfg.do_scan && below sha q scan_dirs e cfg || listed sql w q)
  booted-listed w q o =
      learning-listed (is_true cfg.learning_mode) _ q ∙ scan-listed (is_true cfg.do_scan) w q o

-- The table as `whitelist_init` finds or makes it.
abbrev pub found_table : (sql : Sqlite) → Config → sql.Db
found_table sql cfg = (sql.create_table (sql.open_db cfg.db_path).1).1

module _ (sql : Sqlite) where
  whitelist_init-listed :
      (cfg : Config) (q : List ℕ)
      → (whitelist_init sql cfg.db_path closed).0 ≡ pos 0
      → listed sql (whitelist_init sql cfg.db_path closed).1 q ≡ has_row sql (found_table sql cfg) q
  unfolding whitelist_init whitelist_check
  whitelist_init-listed cfg q h = ground (arith, h)

  initialized :
      (sha : Sha256) (e : Surroundings) (cfg : Config) (d : Daemon sql.Db)
      → start sql sha e cfg ≡ serving d
      → (whitelist_init sql cfg.db_path closed).0 ≡ pos 0
  unfolding start
  initialized sha e cfg d begun = ground (arith, begun)

module _ (sql : Sqlite) (sha : Sha256) (laws : IsSqlite sql)
    (stores : (db : sql.Db) (h p : List ℕ) (t : ℕ) (s : ℤ)
      → (sql.insert_or_replace db h p t s).0 ≡ sqlite_done) where
  -- The database at the beginning of the event loop, where insertions succeed: what the table had
  -- already and, if the scan is asked for, the ELF files with an execute bit below the directories of
  -- the fixed list that are not excluded, and nothing else.
  pub start-listed :
      (e : Surroundings) (cfg : Config) (d : Daemon sql.Db) (q : List ℕ)
      → start sql sha e cfg ≡ serving d
      → listed sql d.stores.whitelist q ≡ (
          is_true cfg.do_scan && below sha q scan_dirs e cfg || has_row sql (found_table sql cfg) q)
  start-listed e cfg d q begun =
      let b = serving-Begins sql sha e cfg d begun in
      let ok = initialized sql sha e cfg d begun in
      let w = (whitelist_init sql cfg.db_path closed).1 in
      ap (λ x. listed sql x q) b.database
      ∙ booted-listed sql sha laws stores e cfg w q
          (whitelist_init-IsOpen sql cfg.db_path closed ok)
      ∙ ap (λ x. is_true cfg.do_scan && below sha q scan_dirs e cfg || x)
          (whitelist_init-listed sql cfg q ok)
