-- ===== src/Cache/Contents.antt =====
-- The cache of whitelist_cache.c as a set of hashes: what its operations answer and change.
use linux_anti_executable.Base.{
  ℕ, ◌≡◌, Bool, false, not, ◌&&◌, ◌||◌, List, arith, ltb, leb, if◌then◌else◌, ℤ, pos, minus_one,
  is_true, is_zero, length, same_bytes, same_bytes-eq,
}
use linux_anti_executable.Hash.Hex.{Libc, hex_to_bytes}
use linux_anti_executable.Whitelist.{Sqlite, whitelist_add}
use linux_anti_executable.Cache.Chain.{hash_to_index, find_entry, find_entry-unlink}
use linux_anti_executable.Cache.Invariant.{IsValid, clear_table-empty}
use linux_anti_executable.Cache.{
  Cache, Stores, hash_hex_len, lookup, insert_entry, delete_entry, cache_check, cache_add,
  cache_remove, cache_clear,
}

-- The abstract view: the hash stands in the chain of its index.
abbrev pub member : Cache → List ℕ → Bool
member c hash = find_entry hash (c.table (hash_to_index hash c.table_size))

module _ {c : Cache} (v : IsValid c) (hash q : List ℕ) where
  -- The filter has no false negatives, so a lookup answers by the set alone.
  lookup-member : (lookup hash c).0 ≡ (if member c hash then pos 1 else pos 0)
  unfolding lookup
  lookup-member = ground (arith, v.filtered hash (hash_to_index hash c.table_size))

  lookup-keeps : member (lookup hash c).1 q ≡ member c q
  unfolding lookup
  lookup-keeps = ground arith

  insert_entry-member : member (insert_entry hash c) q ≡ (same_bytes hash q || member c q)
  unfolding insert_entry find_entry
  insert_entry-member = ground (arith, same_bytes-eq hash q)

  delete_entry-member : member (delete_entry hash c).1 q ≡ (not (same_bytes hash q) && member c q)
  unfolding delete_entry
  delete_entry-member = ground (
    arith,
    find_entry-unlink hash q (c.table (hash_to_index hash c.table_size))
        (v.distinct (hash_to_index hash c.table_size)),
    same_bytes-eq hash q,
  )

-- `cache_clear` empties the set of a valid cache.
pub cache_clear-member : {c : Cache} (q : List ℕ) → IsValid c → member (cache_clear c) q ≡ false
unfolding cache_clear
cache_clear-member {c} q v =
    ground (arith, v.live, clear_table-empty v q (hash_to_index q c.table_size))

module _ ⦃libc : Libc⦄ where
  -- On a valid cache and a text of 64 characters `cache_check` answers 1 exactly for the members,
  -- and its answer and its counters leave the set as it was.
  pub cache_check-member :
      {c : Cache} (hex q : List ℕ)
      → IsValid c
      → length hex ≡ hash_hex_len
      → ((cache_check hex c).0 ≡ (if member c (hex_to_bytes hex) then pos 1 else pos 0))
        × (member (cache_check hex c).1 q ≡ member c q)
  unfolding cache_check
  cache_check-member {c} hex q v len =
      let hash = hex_to_bytes hex in
      ground (arith, v.live, lookup-member v hash q, lookup-keeps v hash q)

  -- `cache_remove` answers 0 exactly for the members, and takes away that hash and no other.
  pub cache_remove-member :
      {c : Cache} (hex q : List ℕ)
      → IsValid c
      → length hex ≡ hash_hex_len
      → ((cache_remove hex c).0 ≡ (if member c (hex_to_bytes hex) then pos 0 else minus_one))
        × (member (cache_remove hex c).1 q ≡ (not (same_bytes (hex_to_bytes hex) q) && member c q))
  unfolding cache_remove delete_entry
  cache_remove-member {c} hex q v len =
      let hash = hex_to_bytes hex in ground (arith, v.live, delete_entry-member v hash q)

  module _ (sql : Sqlite) where
    -- The answer of `cache_add` in terms of the set: it refuses a full cache first, then accepts
    -- what is present, and adds the rest if there is memory.
    abbrev pub add_answer : Bool → List ℕ → Cache → ℤ
    add_answer malloc_ok hash c =
        if ltb 0 c.max_entries && leb c.max_entries c.entry_count
        then minus_one
        else if member c hash || malloc_ok
        then pos 0
        else minus_one

    -- `cache_add` on a valid cache and a text of 64 characters: the answer, the set afterwards, and
    -- the database, which only a new entry with `persist` set is written to.
    pub cache_add-member :
        (malloc_ok : Bool) (now : ℕ) (hex path : List ℕ) (persist : ℤ) (s : Stores sql.Db)
        (q : List ℕ)
        → IsValid s.cache
        → length hex ≡ hash_hex_len
        → let hash = hex_to_bytes hex in
          let (r, s') = cache_add sql malloc_ok now hex path persist s in
          (r ≡ add_answer malloc_ok hash s.cache)
          × (member s'.cache q ≡ (is_zero r && same_bytes hash q || member s.cache q))
          × (s'.whitelist ≡ (
              if is_zero r && not (member s.cache hash) && is_true persist
              then (whitelist_add sql now hex path (pos 0) s.whitelist).1
              else s.whitelist))
    unfolding cache_add
    cache_add-member malloc_ok now hex path persist s q v len =
        let hash = hex_to_bytes hex in
        ground (arith, v.live, insert_entry-member v hash q, same_bytes-eq hash q)
