-- ===== src/Whitelist.antt =====
-- src/daemon/whitelist.c: the persistent whitelist. SQLite is a parameter: each prepared statement
-- is the operation that one `sqlite3_step` of it performs on the database.
pub mod Laws
pub mod Scan
use linux_anti_executable.Base.{
  ℕ, Bool, true, false, not, ◌||◌, Option, none, some, List, ◌==◌, if◌then◌else◌, ℤ, pos, minus_one,
}

abbrev pub sqlite_ok : ℕ
sqlite_ok = 0

abbrev pub sqlite_row : ℕ
sqlite_row = 100

abbrev pub sqlite_done : ℕ
sqlite_done = 101

-- A number in first place is the result code of the call.
pub record Sqlite : Type 1 where
  pub Db : Type 0
  -- `sqlite3_open`; a handle is stored also when the call fails
  pub open_db : List ℕ → ℕ × Db
  -- `sqlite3_exec` of `CREATE_TABLE_SQL`
  pub create_table : Db → ℕ × Db
  -- `sqlite3_prepare_v2` of the three statements and of `SELECT COUNT(*) FROM whitelist`
  pub prepare_check : Db → ℕ
  pub prepare_add : Db → ℕ
  pub prepare_remove : Db → ℕ
  pub prepare_count : Db → ℕ
  -- `SELECT 1 FROM whitelist WHERE hash = ?`
  pub select_hash : Db → List ℕ → ℕ
  -- `INSERT OR REPLACE INTO whitelist (hash, path, added_time, is_system) VALUES (?, ?, ?, ?)`
  pub insert_or_replace : Db → List ℕ → List ℕ → ℕ → ℤ → ℕ × Db
  -- `DELETE FROM whitelist WHERE hash = ?`
  pub delete_hash : Db → List ℕ → ℕ × Db
  -- the step of the count, and the number in its first column
  pub select_count : Db → ℕ × ℕ

-- The file's static variables; `none` and `false` are NULL.
pub record Whitelist (D : Type 0) : Type 0 where
  pub db : Option D
  pub stmt_check : Bool
  pub stmt_add : Bool
  pub stmt_remove : Bool
  pub learning_mode : ℤ

abbrev pub closed : {D : Type 0} → Whitelist D
closed = record {
  db = none;
  stmt_check = false;
  stmt_add = false;
  stmt_remove = false;
  learning_mode = pos 0;
}

module _ (sql : Sqlite) where
  open sql use {
    Db, open_db, create_table, prepare_check, prepare_add, prepare_remove, prepare_count,
    select_hash, insert_or_replace, delete_hash, select_count,
  }

  -- The part of `whitelist_init` that prepares the statements.
  prepare_statements : Db → Whitelist Db → ℤ × Whitelist Db
  prepare_statements db w =
      if not (prepare_check db == sqlite_ok)
      then (minus_one, w)
      else let w1 = record w { stmt_check = true } in
        if not (prepare_add db == sqlite_ok)
        then (minus_one, w1)
        else let w2 = record w1 { stmt_add = true } in
          if not (prepare_remove db == sqlite_ok)
          then (minus_one, w2)
          else (pos 0, record w2 { stmt_remove = true })

  unfoldable pub whitelist_init : List ℕ → Whitelist Db → ℤ × Whitelist Db
  unfolding prepare_statements
  whitelist_init db_path w =
      let (rc, handle) = open_db db_path in
      let w1 = record w { db = some handle } in
      if not (rc == sqlite_ok)
      then (minus_one, w1)
      else let (rc', created) = create_table handle in
        let w2 = record w { db = some created } in
        if not (rc' == sqlite_ok) then (minus_one, w2) else prepare_statements created w2

  -- The statements and the handle are finalized, closed and set to NULL.
  unfoldable pub whitelist_close : Whitelist Db → Whitelist Db
  whitelist_close w = record w {
    db = none;
    stmt_check = false;
    stmt_add = false;
    stmt_remove = false;
  }

  check_in : Option Db → Bool → List ℕ → ℤ
  check_in (some db) true hash = if select_hash db hash == sqlite_row then pos 1 else pos 0
  check_in _ _ hash = pos 0

  unfoldable pub whitelist_check : List ℕ → Whitelist Db → ℤ
  unfolding check_in
  whitelist_check hash w = check_in w.db w.stmt_check hash

  -- The database behind an open handle after a step, and the status that the caller returns.
  after_step : Whitelist Db → ℕ × Db → ℤ × Whitelist Db
  after_step w (rc, db) =
      (if not (rc == sqlite_done) then minus_one else pos 0, record w { db = some db })

  add_in : Option Db → Bool → ℕ → List ℕ → List ℕ → ℤ → Whitelist Db → ℤ × Whitelist Db
  unfolding after_step
  add_in (some db) true now hash path is_system w =
      after_step w (insert_or_replace db hash path now is_system)
  add_in _ _ now hash path is_system w = (minus_one, w)

  -- `now` is the answer of `time(NULL)`.
  unfoldable pub whitelist_add : ℕ → List ℕ → List ℕ → ℤ → Whitelist Db → ℤ × Whitelist Db
  unfolding add_in
  whitelist_add now hash path is_system w = add_in w.db w.stmt_add now hash path is_system w

  remove_in : Option Db → Bool → List ℕ → Whitelist Db → ℤ × Whitelist Db
  unfolding after_step
  remove_in (some db) true hash w = after_step w (delete_hash db hash)
  remove_in _ _ hash w = (minus_one, w)

  unfoldable pub whitelist_remove : List ℕ → Whitelist Db → ℤ × Whitelist Db
  unfolding remove_in
  whitelist_remove hash w = remove_in w.db w.stmt_remove hash w

  count_in : Option Db → ℕ
  count_in none = 0
  count_in (some db) =
      if prepare_count db == sqlite_ok
      then (let (rc, column) = select_count db in if rc == sqlite_row then column else 0)
      else 0

  unfoldable pub whitelist_count : Whitelist Db → ℕ
  unfolding count_in
  whitelist_count w = count_in w.db

unfoldable pub whitelist_set_learning_mode : {D : Type 0} → ℤ → Whitelist D → Whitelist D
whitelist_set_learning_mode enabled w = record w { learning_mode = enabled }

unfoldable pub whitelist_get_learning_mode : {D : Type 0} → Whitelist D → ℤ
whitelist_get_learning_mode w = w.learning_mode
