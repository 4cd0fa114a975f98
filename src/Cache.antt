-- ===== src/Cache.antt =====
-- src/daemon/whitelist_cache.c: the hash table with its Bloom filter in front. The event loop's
-- thread makes all the calls, so an operation is one step; `malloc` and `calloc` answer by
-- an argument. An array is a function of its index, NULL the empty chain, and the chains are lists.
pub mod Bloom
pub mod Chain
pub mod Cells
pub mod Invariant
pub mod Contents
pub mod History
use linux_anti_executable.Base.{
  ℕ, zero, suc, ◌+◌, ◌-◌, ◌*◌, ◌/◌, ◌%◌, ◌^◌, Bool, true, false, not, ◌&&◌, ◌||◌, List, [], ◌∷◌,
  ltb, leb, ◌==◌, if◌then◌else◌, ℤ, pos, minus_one, is_true, length, update,
}
use linux_anti_executable.Hash.Hex.{Libc, hex_to_bytes}
use linux_anti_executable.Whitelist.{Sqlite, Whitelist, whitelist_add}
use linux_anti_executable.Cache.Bloom.{Bitmap, bloom_size_bytes, bloom_add, bloom_check}
use linux_anti_executable.Cache.Chain.{Entries, hash_to_index, find_entry, unlink}

abbrev pub hash_hex_len : ℕ
hash_hex_len = 64

abbrev pub default_table_size : ℕ
default_table_size = 65537

-- `uint32_t` and `uint64_t` counters
abbrev pub incr32 : ℕ → ℕ
incr32 n = (n + 1) % 2 ^ 32

abbrev pub decr32 : ℕ → ℕ
decr32 n = (n + 2 ^ 32 - 1) % 2 ^ 32

abbrev pub incr64 : ℕ → ℕ
incr64 n = (n + 1) % 2 ^ 64

-- `g_cache`
pub record Cache : Type 0 where
  pub table : ℕ → Entries
  pub table_size : ℕ
  pub entry_count : ℕ
  pub max_entries : ℕ
  pub collisions : ℕ
  pub bloom : Bitmap
  pub lookups : ℕ
  pub hits : ℕ
  pub misses : ℕ
  pub bloom_rejections : ℕ
  pub initialized : Bool

abbrev pub zero_cache : Cache
zero_cache = record {
  table = λ _. [];
  table_size = 0;
  entry_count = 0;
  max_entries = 0;
  collisions = 0;
  bloom = λ _. 0;
  lookups = 0;
  hits = 0;
  misses = 0;
  bloom_rejections = 0;
  initialized = false;
}

-- The answers of the two `calloc` calls come first. A table that was freed again is never read,
-- since `initialized` stays unset.
unfoldable pub cache_init : Bool → Bool → ℕ → Cache → ℤ × Cache
cache_init table_ok bloom_ok max_entries c =
    if c.initialized
    then (pos 0, c)
    else let c1 = record c {
      table = λ _. [];
      table_size = default_table_size;
      entry_count = 0;
      max_entries = max_entries;
      collisions = 0;
      lookups = 0;
      hits = 0;
      misses = 0;
      bloom_rejections = 0;
    } in
      if not table_ok
      then (minus_one, c1)
      else let c2 = record c1 { bloom = λ _. 0 } in
        if not bloom_ok then (minus_one, c2) else (pos 0, record c2 { initialized = true })

unfoldable pub cache_shutdown : Cache → Cache
cache_shutdown c =
    if not c.initialized
    then c
    else record c { table = λ _. []; bloom = λ _. 0; initialized = false }

-- The part of `cache_check` under the read lock.
lookup : List ℕ → Cache → ℤ × Cache
lookup hash c =
    let c1 = record c { lookups = incr64 c.lookups } in
    if not (bloom_check c1.bloom hash)
    then (
      pos 0,
      record c1 { bloom_rejections = incr64 c1.bloom_rejections; misses = incr64 c1.misses },
    )
    else if find_entry hash (c1.table (hash_to_index hash c1.table_size))
    then (pos 1, record c1 { hits = incr64 c1.hits })
    else (pos 0, record c1 { misses = incr64 c1.misses })

-- The part of `cache_add` from the new entry on.
insert_entry : List ℕ → Cache → Cache
insert_entry hash c =
    let idx = hash_to_index hash c.table_size in
    let head = c.table idx in
    record c {
      collisions = if ltb 0 (length head) then incr32 c.collisions else c.collisions;
      table = update c.table idx (hash ∷ head);
      entry_count = incr32 c.entry_count;
      bloom = bloom_add c.bloom hash;
    }

-- The part of `cache_remove` under the write lock.
delete_entry : List ℕ → Cache → ℤ × Cache
delete_entry hash c =
    let idx = hash_to_index hash c.table_size in
    if find_entry hash (c.table idx)
    then (
      pos 0,
      record c {
        table = update c.table idx (unlink hash (c.table idx));
        entry_count = decr32 c.entry_count;
      },
    )
    else (minus_one, c)

-- The loop that frees the chains and sets the heads to NULL.
pub clear_table : ℕ → (ℕ → Entries) → ℕ → Entries
clear_table zero table = table
clear_table (suc n) table = update (clear_table n table) n []

unfoldable pub cache_clear : Cache → Cache
unfolding clear_table
cache_clear c = if not c.initialized then c else record c {
  table = clear_table c.table_size c.table;
  bloom = λ i. if ltb i bloom_size_bytes then 0 else c.bloom i;
  entry_count = 0;
  collisions = 0;
}

-- `cache_stats_t`
pub record CacheStats : Type 0 where
  pub total_entries : ℕ
  pub hash_table_size : ℕ
  pub collisions : ℕ
  pub lookups : ℕ
  pub hits : ℕ
  pub misses : ℕ
  pub bloom_rejections : ℕ
  pub memory_bytes : ℕ

-- On a 64-bit host a pointer takes 8 bytes and an entry 40.
unfoldable pub cache_get_stats : Cache → CacheStats
cache_get_stats c =
    if not c.initialized
    then record {
      total_entries = 0;
      hash_table_size = 0;
      collisions = 0;
      lookups = 0;
      hits = 0;
      misses = 0;
      bloom_rejections = 0;
      memory_bytes = 0;
    }
    else record {
      total_entries = c.entry_count;
      hash_table_size = c.table_size;
      collisions = c.collisions;
      lookups = c.lookups;
      hits = c.hits;
      misses = c.misses;
      bloom_rejections = c.bloom_rejections;
      memory_bytes = (c.table_size * 8 + c.entry_count * 40 + bloom_size_bytes) % 2 ^ 64;
    }

-- The function only reports the number of entries.
unfoldable pub cache_load_from_db : Cache → ℕ
cache_load_from_db c = c.entry_count

-- The cache and the database behind it, which `cache_add` may write to.
pub record Stores (D : Type 0) : Type 0 where
  pub cache : Cache
  pub whitelist : Whitelist D

unusable : Cache → List ℕ → Bool
unusable c hash_hex = not c.initialized || not (length hash_hex == hash_hex_len)

module _ ⦃libc : Libc⦄ where
  unfoldable pub cache_check : List ℕ → Cache → ℤ × Cache
  unfolding lookup unusable
  cache_check hash_hex c =
      if unusable c hash_hex then (pos 0, c) else lookup (hex_to_bytes hash_hex) c

  unfoldable pub cache_remove : List ℕ → Cache → ℤ × Cache
  unfolding delete_entry unusable
  cache_remove hash_hex c =
      if unusable c hash_hex then (minus_one, c) else delete_entry (hex_to_bytes hash_hex) c

  is_full : Cache → Bool
  is_full c = ltb 0 c.max_entries && leb c.max_entries c.entry_count

  module _ (sql : Sqlite) where
    -- `malloc_ok` and `now` answer `malloc` and, in `whitelist_add`, `time`.
    unfoldable pub cache_add : Bool → ℕ → List ℕ → List ℕ → ℤ → Stores sql.Db → ℤ × Stores sql.Db
    unfolding insert_entry unusable is_full
    cache_add malloc_ok now hash_hex path persist s =
        if unusable s.cache hash_hex
        then (minus_one, s)
        else if is_full s.cache
        then (minus_one, s)
        else let hash = hex_to_bytes hash_hex in
          let idx = hash_to_index hash s.cache.table_size in
          if find_entry hash (s.cache.table idx)
          then (pos 0, s)
          else if not malloc_ok
          then (minus_one, s)
          else let s1 = record s { cache = insert_entry hash s.cache } in
            if is_true persist
            then (
              pos 0,
              record s1 {
                whitelist = (whitelist_add sql now hash_hex path (pos 0) s1.whitelist).1;
              },
            )
            else (pos 0, s1)
