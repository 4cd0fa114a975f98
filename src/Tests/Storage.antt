-- ===== src/Tests/Storage.antt =====
-- Runs of the hashing, the database and the cache.
use linux_anti_executable.Base.{
  ℕ, ◌≡◌, refl, true, false, ◌||◌, none, some, List, [], ◌∷◌, arith, pos, minus_one, codes,
  same_bytes,
}
use linux_anti_executable.Hash.Hex.{bytes_to_hex, hex_to_bytes, hex_to_bytes-bytes_to_hex}
use linux_anti_executable.Hash.File.{OpenFile, chunk, failed, hash_fd, hash_file}
use linux_anti_executable.Hash.File.Digest.{contents, hex_digest, hash_fd-digest}
use linux_anti_executable.Whitelist.{whitelist_init, whitelist_add}
use linux_anti_executable.Whitelist.Laws.{listed}
use linux_anti_executable.Fanotify.SharedLibrary.{is_elf_magic}
use linux_anti_executable.Whitelist.Scan.{
  is_executable_file, FileEntry, Entries, end, file, directory, whitelist_scan_directory,
  holds_executable, whitelist_scan_directory-listed,
}
use linux_anti_executable.Cache.{
  Stores, cache_init, cache_check, cache_add, cache_remove, cache_clear,
}
use linux_anti_executable.Cache.Bloom.{bloom_add, bloom_check, bloom_hashes}
use linux_anti_executable.Cache.Chain.{find_entry, hash_to_index, unlink}
use linux_anti_executable.Cache.Invariant.{IsValid}
use linux_anti_executable.Cache.Contents.{member}
use linux_anti_executable.Cache.History.{
  Call, checks, adds, removes, clears, run, spec_run, Holds, run-refines, run-IsValid,
}
use linux_anti_executable.Tests.Samples.{
  sample_libc, memory_sqlite, memory_sqlite-IsSqlite, sum_digest, sample_sha, sample_sha-IsSha256,
  elf_file, empty_cache, empty_cache-IsValid, open_whitelist, open_whitelist-IsOpen, empty_stores,
}

-- Two digests and their texts.
abbrev first_hash : List ℕ
first_hash = sum_digest (1 ∷ [])

abbrev first_hex : List ℕ
first_hex = bytes_to_hex first_hash

abbrev second_hex : List ℕ
second_hex = bytes_to_hex (sum_digest (2 ∷ 3 ∷ []))

abbrev history : List Call
history =
    adds true 5 first_hex (codes "/bin/a") (pos 0)
    ∷ checks first_hex
    ∷ checks second_hex
    ∷ adds false 6 second_hex (codes "/bin/b") (pos 0)
    ∷ removes first_hex
    ∷ removes first_hex
    ∷ checks (codes "short")
    ∷ clears
    ∷ []

-- The history's answers, computed by the cache itself.
history_answers :
    (run ⦃libc = sample_libc⦄ memory_sqlite history empty_stores).0
    ≡ pos 0 ∷ pos 1 ∷ pos 0 ∷ minus_one ∷ pos 0 ∷ minus_one ∷ pos 0 ∷ pos 0 ∷ []
unfolding run cache_init cache_add cache_check cache_remove cache_clear bytes_to_hex sum_digest
    whitelist_add find_entry bloom_check bloom_hashes bloom_add hex_to_bytes hash_to_index
    same_bytes unlink
history_answers = refl

nothing_there : (q : List ℕ) → member empty_cache q ≡ false
unfolding cache_init find_entry
nothing_there q = refl

run-refines_example :
    ((run ⦃libc = sample_libc⦄ memory_sqlite history empty_stores).0
      ≡ (spec_run ⦃libc = sample_libc⦄ history (λ q. false)).0)
    × Holds ⦃libc = sample_libc⦄ memory_sqlite
        (run ⦃libc = sample_libc⦄ memory_sqlite history empty_stores).1
        (spec_run ⦃libc = sample_libc⦄ history (λ q. false)).1
unfolding cache_init
run-refines_example =
    run-refines ⦃libc = sample_libc⦄ memory_sqlite history empty_stores (λ q. false)
      empty_cache-IsValid refl nothing_there

-- A cache with one entry.
abbrev one_entry : Stores (List (List ℕ))
one_entry =
    (run ⦃libc = sample_libc⦄ memory_sqlite (adds true 5 first_hex (codes "/bin/a") (pos 0) ∷ [])
      empty_stores).1

one_entry-IsValid : IsValid one_entry.cache
one_entry-IsValid =
    run-IsValid ⦃libc = sample_libc⦄ memory_sqlite
      (adds true 5 first_hex (codes "/bin/a") (pos 0) ∷ []) empty_stores empty_cache-IsValid

one_entry_member : member one_entry.cache first_hash ≡ true
unfolding run cache_init cache_add bytes_to_hex sum_digest find_entry hash_to_index hex_to_bytes
    same_bytes
one_entry_member = refl

-- Two hashes come, one goes, and the set is cleared and filled again.
abbrev busy : List Call
busy =
    adds true 5 first_hex (codes "/bin/a") (pos 0)
    ∷ adds true 6 second_hex (codes "/bin/b") (pos 1)
    ∷ checks first_hex
    ∷ removes first_hex
    ∷ clears
    ∷ adds false 7 first_hex (codes "/bin/a") (pos 0)
    ∷ adds true 8 second_hex (codes "/bin/b") (pos 0)
    ∷ []

run-IsValid_example : IsValid (run ⦃libc = sample_libc⦄ memory_sqlite busy empty_stores).1.cache
run-IsValid_example =
    run-IsValid ⦃libc = sample_libc⦄ memory_sqlite busy empty_stores empty_cache-IsValid

hex_to_bytes-bytes_to_hex_example : hex_to_bytes ⦃libc = sample_libc⦄ first_hex ≡ first_hash
unfolding sum_digest
hex_to_bytes-bytes_to_hex_example =
    hex_to_bytes-bytes_to_hex ⦃libc = sample_libc⦄ first_hash refl (ground arith)

hash_fd-digest_example :
    ((hash_fd sample_sha elf_file).0 ≡ hex_digest sum_digest (contents elf_file.reads))
    × ((hash_fd sample_sha elf_file).1 ≡ elf_file)
hash_fd-digest_example = hash_fd-digest sample_sha sum_digest sample_sha-IsSha256 elf_file refl

-- A file whose second read fails.
abbrev broken_file : OpenFile
broken_file = record elf_file { reads = chunk (0x7f ∷ []) ∷ failed ∷ [] }

broken_hash : (hash_fd sample_sha broken_file).0 ≡ none
unfolding hash_fd
broken_hash = refl

-- `/usr` with an executable in a directory below it, and a text file.
abbrev program : FileEntry
program = record {
  regular = true;
  executable = true;
  magic = some (chunk (0x7f ∷ 69 ∷ 76 ∷ 70 ∷ []));
  content = some elf_file;
}

abbrev usr : Entries
usr = directory (codes ".") end (
    file (codes "notes") (record program { executable = false })
      (directory (codes "bin") (file (codes "ls") program end) end))

usr_count :
    (whitelist_scan_directory memory_sqlite sample_sha 5 (codes "/usr") true usr open_whitelist).0
    ≡ 1
unfolding whitelist_scan_directory whitelist_init whitelist_add hash_file hash_fd is_executable_file
    same_bytes is_elf_magic
usr_count = refl

whitelist_scan_directory-listed_example :
    listed memory_sqlite
      (whitelist_scan_directory memory_sqlite sample_sha 5 (codes "/usr") true usr open_whitelist).1
      first_hex
    ≡ (holds_executable sample_sha first_hex true usr
        || listed memory_sqlite open_whitelist first_hex)
whitelist_scan_directory-listed_example =
    whitelist_scan_directory-listed memory_sqlite memory_sqlite-IsSqlite sample_sha 5
      (λ db h p t s. refl) (codes "/usr") true usr open_whitelist first_hex open_whitelist-IsOpen
