-- ===== src/Main/Restart.antt =====
-- Two runs of the daemon of src/daemon/main.c on the same database.
use linux_anti_executable.Base.{ℕ, ◌≡◌, List, ℤ}
use linux_anti_executable.Whitelist.{Sqlite, Whitelist, sqlite_done}
use linux_anti_executable.Whitelist.Laws.{IsSqlite, has_row}
use linux_anti_executable.Config.{Config}

-- SQLite in a later run, which opens the database as it was closed.
abbrev pub reopened : (sql : Sqlite) → sql.Db → Sqlite
reopened sql db = record sql { open_db = λ path. (0, db) }

-- `CREATE TABLE IF NOT EXISTS` leaves the rows of a table that is there.
pub record IsDurable (sql : Sqlite) : Type 0 where
  pub laws : IsSqlite sql
  pub stores :
      (db : sql.Db) (h p : List ℕ) (t : ℕ) (s : ℤ)
      → (sql.insert_or_replace db h p t s).0 ≡ sqlite_done
  pub create_keeps :
      (db : sql.Db) (q : List ℕ) → has_row sql (sql.create_table db).1 q ≡ has_row sql db q
