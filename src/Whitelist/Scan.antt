-- ===== src/Whitelist/Scan.antt =====
-- `whitelist_scan_directory` and `is_executable_file` of src/daemon/whitelist.c. What the file system
-- answers below a directory is a tree.
use linux_anti_executable.Base.{
  ℕ, ◌+◌, ◌≡◌, refl, Bool, false, not, ◌&&◌, ◌||◌, Option, none, some, List, ◌∷◌, ◌++◌, arith,
  if◌then◌else◌, ℤ, pos, is_zero, codes, same_bytes, take, Option-cases, Bool-cases, inl, inr,
}
use linux_anti_executable.Hash.File.{Sha256, ReadAnswer, OpenFile, hash_file}
use linux_anti_executable.Fanotify.SharedLibrary.{is_elf_magic}
use linux_anti_executable.Whitelist.{Sqlite, Whitelist, whitelist_add, sqlite_done}
use linux_anti_executable.Whitelist.Laws.{
  IsSqlite, IsOpen, listed, whitelist_add-listed, whitelist_add-IsOpen, whitelist_add-stored,
}

-- A file that `lstat` reports: whether it is a regular file with an execute bit, the first bytes if
-- `fopen` works, and the file that `open` gives for the hash.
pub record FileEntry : Type 0 where
  pub regular : Bool
  pub executable : Bool
  pub magic : Option ReadAnswer
  pub content : Option OpenFile

-- The entries of a directory in the order of `readdir`, each with its name. A directory that cannot
-- be opened has no entries.
pub data Entries : Type 0 where
  end : Entries
  vanished : List ℕ → Entries → Entries
  file : List ℕ → FileEntry → Entries → Entries
  directory : List ℕ → Entries → Entries → Entries

is_dot : List ℕ → Bool
is_dot name = same_bytes name (codes ".") || same_bytes name (codes "..")

magic_is_elf : Option ReadAnswer → Bool
magic_is_elf none = false
magic_is_elf (some answer) = is_elf_magic answer

unfoldable pub is_executable_file : FileEntry → Bool
unfolding magic_is_elf
is_executable_file f = f.regular && (f.executable && magic_is_elf f.magic)

-- `snprintf(path, sizeof(path), "%s/%s", dir_path, entry->d_name)`
child_path : List ℕ → List ℕ → List ℕ
child_path dir_path name = take 4095 (dir_path ++ b'/' ∷ name)

module _ (sql : Sqlite) (sha : Sha256) (now : ℕ) where
  add_hash : List ℕ → Option (List ℕ) → Whitelist sql.Db → ℕ × Whitelist sql.Db
  add_hash path none w = (0, w)
  add_hash path (some hash) w =
      let (r, w') = whitelist_add sql now hash path (pos 1) w in (if is_zero r then 1 else 0, w')

  scan_file : List ℕ → FileEntry → Whitelist sql.Db → ℕ × Whitelist sql.Db
  unfolding add_hash
  scan_file path f w =
      if is_executable_file f then add_hash path (hash_file sha f.content) w else (0, w)

  -- The count and the whitelist after the loop over the entries.
  unfoldable pub whitelist_scan_directory :
      List ℕ → Bool → Entries → Whitelist sql.Db → ℕ × Whitelist sql.Db
  unfolding scan_file child_path is_dot
  whitelist_scan_directory dir_path recursive end w = (0, w)
  whitelist_scan_directory dir_path recursive (vanished name rest) w =
      whitelist_scan_directory dir_path recursive rest w
  whitelist_scan_directory dir_path recursive (file name f rest) w =
      let (n, w1) = if is_dot name then (0, w) else scan_file (child_path dir_path name) f w in
      let (m, w2) = whitelist_scan_directory dir_path recursive rest w1 in (n + m, w2)
  whitelist_scan_directory dir_path recursive (directory name below rest) w =
      let inside = whitelist_scan_directory (child_path dir_path name) recursive below w in
      let (n, w1) = if is_dot name || not recursive then (0, w) else inside in
      let (m, w2) = whitelist_scan_directory dir_path recursive rest w1 in (n + m, w2)

-- The hashes of the executables in a tree.
same_hash : List ℕ → Option (List ℕ) → Bool
same_hash q none = false
same_hash q (some hash) = same_bytes hash q

module _ (sha : Sha256) where
  pub holds_executable : List ℕ → Bool → Entries → Bool
  holds_executable q recursive end = false
  holds_executable q recursive (vanished name rest) = holds_executable q recursive rest
  holds_executable q recursive (file name f rest) =
      not (is_dot name) && is_executable_file f && same_hash q (hash_file sha f.content)
      || holds_executable q recursive rest
  holds_executable q recursive (directory name below rest) =
      not (is_dot name || not recursive) && holds_executable q recursive below
      || holds_executable q recursive rest

module _ (sql : Sqlite) (laws : IsSqlite sql) (sha : Sha256) (now : ℕ)
    (stores : (db : sql.Db) (h p : List ℕ) (t : ℕ) (s : ℤ)
      → (sql.insert_or_replace db h p t s).0 ≡ sqlite_done) where
  -- What a part of the scan does to the whitelist, and that it stays open.
  record Adds (w w' : Whitelist sql.Db) (q : List ℕ) (there : Bool) : Type 0 where
    lists : listed sql w' q ≡ (there || listed sql w q)
    opened : IsOpen sql w'

  add_hash-Adds :
      (path : List ℕ) (hash : Option (List ℕ)) (w : Whitelist sql.Db) (q : List ℕ)
      → IsOpen sql w
      → Adds w (add_hash sql sha now path hash w).1 q (same_hash q hash)
  unfolding add_hash same_hash
  add_hash-Adds path none w q o = record { lists = refl; opened = o }
  add_hash-Adds path (some hash) w q o = record {
    lists = ground (
      arith,
      whitelist_add-listed sql laws now hash path (pos 1) w q o.check,
      whitelist_add-stored sql stores now hash path (pos 1) w o,
    );
    opened = whitelist_add-IsOpen sql now hash path (pos 1) w o;
  }

  scan_file-Adds :
      (path : List ℕ) (f : FileEntry) (w : Whitelist sql.Db) (q : List ℕ)
      → IsOpen sql w
      → Adds w
          (scan_file sql sha now path f w).1
          q
          (is_executable_file f && same_hash q (hash_file sha f.content))
  unfolding scan_file
  scan_file-Adds path f w q o = elim (Bool-cases (is_executable_file f)) [
    | inl e ↦ simp e (add_hash-Adds path (hash_file sha f.content) w q o)
    | inr e ↦ simp e (record { lists = refl; opened = o })
  ]

  Adds-then :
      {w w1 w2 : Whitelist sql.Db} {q : List ℕ} {a b : Bool}
      → Adds w w1 q a
      → Adds w1 w2 q b
      → Adds w w2 q (a || b)
  Adds-then {a = a} {b = b} x y = record {
    lists = ground (arith, x.lists, y.lists);
    opened = y.opened;
  }

  scan-Adds :
      (dir_path : List ℕ) (recursive : Bool) (es : Entries) (w : Whitelist sql.Db) (q : List ℕ)
      → IsOpen sql w
      → Adds w
          (whitelist_scan_directory sql sha now dir_path recursive es w).1
          q
          (holds_executable sha q recursive es)
  unfolding whitelist_scan_directory holds_executable
  scan-Adds dir_path recursive end w q o = record { lists = refl; opened = o }
  scan-Adds dir_path recursive (vanished name rest) w q o = scan-Adds dir_path recursive rest w q o
  scan-Adds dir_path recursive (file name f rest) w q o = elim (Bool-cases (is_dot name)) [
    | inl dot ↦ simp dot (scan-Adds dir_path recursive rest w q o)
    | inr plain ↦
        let one = scan_file-Adds (child_path dir_path name) f w q o in
        simp plain (
          Adds-then one (
            scan-Adds dir_path recursive rest
              (scan_file sql sha now (child_path dir_path name) f w).1 q one.opened))
  ]
  scan-Adds dir_path recursive (directory name below rest) w q o =
      elim (Bool-cases (is_dot name || not recursive)) [
        | inl passed ↦ simp passed (scan-Adds dir_path recursive rest w q o)
        | inr entered ↦
            let inside = scan-Adds (child_path dir_path name) recursive below w q o in
            simp entered (
              Adds-then inside (
                scan-Adds dir_path recursive rest
                  (whitelist_scan_directory sql sha now (child_path dir_path name) recursive below
                    w).1
                  q inside.opened))
      ]

  -- Where the database is open and insertions succeed, a scan adds the hash of every executable below the directory, in the
  -- directories below it too if it is recursive, and no other; nothing is taken away.
  pub whitelist_scan_directory-listed :
      (dir_path : List ℕ) (recursive : Bool) (es : Entries) (w : Whitelist sql.Db) (q : List ℕ)
      → IsOpen sql w
      → listed sql (whitelist_scan_directory sql sha now dir_path recursive es w).1 q
        ≡ (holds_executable sha q recursive es || listed sql w q)
  whitelist_scan_directory-listed dir_path recursive es w q o =
      (scan-Adds dir_path recursive es w q o).lists

module _ (sql : Sqlite) (sha : Sha256) (now : ℕ) where
  scan_file-IsOpen :
      (path : List ℕ) (f : FileEntry) (w : Whitelist sql.Db)
      → IsOpen sql w
      → IsOpen sql (scan_file sql sha now path f w).1
  unfolding scan_file add_hash
  scan_file-IsOpen path f w o = elim (Option-cases (hash_file sha f.content)) [
    | inl e ↦ ground (arith, o)
    | inr (hash, e) ↦ ground (arith, o, whitelist_add-IsOpen sql now hash path (pos 1) w o)
  ]

  -- A scan leaves an open database open, whether its insertions succeed or not.
  pub whitelist_scan_directory-IsOpen :
      (dir_path : List ℕ) (recursive : Bool) (es : Entries) (w : Whitelist sql.Db)
      → IsOpen sql w
      → IsOpen sql (whitelist_scan_directory sql sha now dir_path recursive es w).1
  unfolding whitelist_scan_directory
  whitelist_scan_directory-IsOpen dir_path recursive end w o = o
  whitelist_scan_directory-IsOpen dir_path recursive (vanished name rest) w o =
      whitelist_scan_directory-IsOpen dir_path recursive rest w o
  whitelist_scan_directory-IsOpen dir_path recursive (file name f rest) w o =
      elim (Bool-cases (is_dot name)) [
        | inl dot ↦ simp dot (whitelist_scan_directory-IsOpen dir_path recursive rest w o)
        | inr plain ↦ simp plain (
            whitelist_scan_directory-IsOpen dir_path recursive rest
              (scan_file sql sha now (child_path dir_path name) f w).1
              (scan_file-IsOpen (child_path dir_path name) f w o))
      ]
  whitelist_scan_directory-IsOpen dir_path recursive (directory name below rest) w o =
      let child = child_path dir_path name in
      elim (Bool-cases (is_dot name || not recursive)) [
        | inl passed ↦ simp passed (whitelist_scan_directory-IsOpen dir_path recursive rest w o)
        | inr entered ↦ simp entered (
            whitelist_scan_directory-IsOpen dir_path recursive rest
              (whitelist_scan_directory sql sha now child recursive below w).1
              (whitelist_scan_directory-IsOpen child recursive below w o))
      ]
