-- ===== src/Whitelist/Laws.antt =====
-- What SQLite documents of the statements, and what the whitelist's functions promise on it.
use linux_anti_executable.Base.{
  ℕ, ◌≡◌, ◌≢◌, ap, ◌∙◌, refl, Bool, true, false, not, ◌&&◌, ◌||◌, Option, none, some, List, arith,
  ◌==◌, if◌then◌else◌, ℤ, pos, same_bytes, is_true, is_zero,
}
use linux_anti_executable.Whitelist.{
  Sqlite, Whitelist, sqlite_row, sqlite_done, whitelist_init, whitelist_close, whitelist_check,
  whitelist_add, whitelist_remove, add_in, remove_in,
}

-- A row with this hash is in the table.
abbrev pub has_row : (sql : Sqlite) → sql.Db → List ℕ → Bool
has_row sql db hash = sql.select_hash db hash == sqlite_row

-- A statement that is done has its effect, and one that fails has none.
pub record IsSqlite (sql : Sqlite) : Type 0 where
  pub insert_done :
      (db : sql.Db) (h p : List ℕ) (t : ℕ) (s : ℤ) (q : List ℕ)
      → (sql.insert_or_replace db h p t s).0 ≡ sqlite_done
      → has_row sql (sql.insert_or_replace db h p t s).1 q ≡ (same_bytes h q || has_row sql db q)
  pub insert_fails :
      (db : sql.Db) (h p : List ℕ) (t : ℕ) (s : ℤ) (q : List ℕ)
      → (sql.insert_or_replace db h p t s).0 ≢ sqlite_done
      → has_row sql (sql.insert_or_replace db h p t s).1 q ≡ has_row sql db q
  pub delete_done :
      (db : sql.Db) (h q : List ℕ)
      → (sql.delete_hash db h).0 ≡ sqlite_done
      → has_row sql (sql.delete_hash db h).1 q ≡ (not (same_bytes h q) && has_row sql db q)
  pub delete_fails :
      (db : sql.Db) (h q : List ℕ)
      → (sql.delete_hash db h).0 ≢ sqlite_done
      → has_row sql (sql.delete_hash db h).1 q ≡ has_row sql db q

module _ (sql : Sqlite) where
  -- The abstract whitelist: the set of hashes that `whitelist_check` accepts.
  abbrev pub listed : Whitelist sql.Db → List ℕ → Bool
  listed w hash = is_true (whitelist_check sql hash w)

  -- The statements are prepared on an open database, as after a successful start.
  pub record IsOpen (w : Whitelist sql.Db) : Type 0 where
    pub handle : w.db ≢ none
    pub check : w.stmt_check ≡ true
    pub add : w.stmt_add ≡ true
    pub remove : w.stmt_remove ≡ true

  -- `whitelist_check` answers only 0 or 1.
  pub whitelist_check-bool :
      (hash : List ℕ) (w : Whitelist sql.Db)
      → whitelist_check sql hash w ≡ (if listed w hash then pos 1 else pos 0)
  unfolding whitelist_check
  whitelist_check-bool hash w = ground arith

  -- A start that reports success leaves the database open and every statement prepared.
  pub whitelist_init-IsOpen :
      (db_path : List ℕ) (w : Whitelist sql.Db)
      → (whitelist_init sql db_path w).0 ≡ pos 0
      → IsOpen (whitelist_init sql db_path w).1
  unfolding whitelist_init
  whitelist_init-IsOpen db_path w h = ground arith

  -- Every call keeps the database open.
  pub whitelist_add-IsOpen :
      (now : ℕ) (h p : List ℕ) (s : ℤ) (w : Whitelist sql.Db)
      → IsOpen w
      → IsOpen (whitelist_add sql now h p s w).1
  unfolding whitelist_add
  whitelist_add-IsOpen now h p s w o = add_kept w.db w.stmt_add o.handle
    where
      add_kept :
          (db : Option sql.Db) (prepared : Bool)
          → db ≢ none
          → IsOpen (add_in sql db prepared now h p s w).1
      add_kept none b n = absurd (n refl)
      add_kept (some db) true n = ground (arith, o.handle, o.check, o.add, o.remove)
      add_kept (some db) false n = o

  pub whitelist_close-listed :
      (w : Whitelist sql.Db) (q : List ℕ) → listed (whitelist_close sql w) q ≡ false
  unfolding whitelist_close whitelist_check
  whitelist_close-listed w q = refl

module _ (sql : Sqlite) (laws : IsSqlite sql) where
  add_in-listed :
      (db : Option sql.Db) (prepared : Bool) (now : ℕ) (h p : List ℕ) (s : ℤ) (w : Whitelist sql.Db)
      (q : List ℕ)
      → w.db ≡ db
      → w.stmt_check ≡ true
      → listed sql (add_in sql db prepared now h p s w).1 q
        ≡ (is_zero (add_in sql db prepared now h p s w).0 && same_bytes h q || listed sql w q)
  unfolding add_in whitelist_check
  add_in-listed none b now h p s w q e c = ground arith
  add_in-listed (some db) false now h p s w q e c = ground arith
  add_in-listed (some db) true now h p s w q e c =
      ground (arith, laws.insert_done db h p now s q, laws.insert_fails db h p now s q)

  -- With the check statement prepared, after `whitelist_add` exactly the hashes that were accepted before are accepted, and the new
  -- one if the call returned 0; a call that fails changes nothing.
  pub whitelist_add-listed :
      (now : ℕ) (h p : List ℕ) (s : ℤ) (w : Whitelist sql.Db) (q : List ℕ)
      → w.stmt_check ≡ true
      → let (r, w') = whitelist_add sql now h p s w in
        listed sql w' q ≡ (is_zero r && same_bytes h q || listed sql w q)
  unfolding whitelist_add
  whitelist_add-listed now h p s w q c = add_in-listed w.db w.stmt_add now h p s w q refl c

  remove_in-listed :
      (db : Option sql.Db) (prepared : Bool) (h : List ℕ) (w : Whitelist sql.Db) (q : List ℕ)
      → w.db ≡ db
      → w.stmt_check ≡ true
      → listed sql (remove_in sql db prepared h w).1 q
        ≡ (not (is_zero (remove_in sql db prepared h w).0 && same_bytes h q) && listed sql w q)
  unfolding remove_in whitelist_check
  remove_in-listed none b h w q e c = ground arith
  remove_in-listed (some db) false h w q e c = ground arith
  remove_in-listed (some db) true h w q e c =
      ground (arith, laws.delete_done db h q, laws.delete_fails db h q)

  -- With the check statement prepared, `whitelist_remove` takes exactly the given hash away if it returns 0, and nothing otherwise.
  pub whitelist_remove-listed :
      (h : List ℕ) (w : Whitelist sql.Db) (q : List ℕ)
      → w.stmt_check ≡ true
      → let (r, w') = whitelist_remove sql h w in
        listed sql w' q ≡ (not (is_zero r && same_bytes h q) && listed sql w q)
  unfolding whitelist_remove
  whitelist_remove-listed h w q c = remove_in-listed w.db w.stmt_remove h w q refl c

module _ (sql : Sqlite)
    (stores : (db : sql.Db) (h p : List ℕ) (t : ℕ) (s : ℤ)
      → (sql.insert_or_replace db h p t s).0 ≡ sqlite_done) where
  add_in-stored :
      (db : Option sql.Db) (now : ℕ) (h p : List ℕ) (s : ℤ) (w : Whitelist sql.Db)
      → db ≢ none
      → (add_in sql db true now h p s w).0 ≡ pos 0
  unfolding add_in
  add_in-stored none now h p s w n = absurd (n refl)
  add_in-stored (some db) now h p s w n = ground (arith, stores db h p now s)

  -- On an open database whose insertions succeed, so does `whitelist_add`.
  pub whitelist_add-stored :
      (now : ℕ) (h p : List ℕ) (s : ℤ) (w : Whitelist sql.Db)
      → IsOpen sql w
      → (whitelist_add sql now h p s w).0 ≡ pos 0
  unfolding whitelist_add
  whitelist_add-stored now h p s w o =
      ap (λ b. (add_in sql w.db b now h p s w).0) o.add ∙ add_in-stored w.db now h p s w o.handle
