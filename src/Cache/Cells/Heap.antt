-- ===== src/Cache/Cells/Heap.antt =====
-- `g_cache` of src/daemon/whitelist_cache.c with its memory: the operations on the chains' cells,
-- without the database behind them.
pub mod Steps
pub mod Adds
pub mod Removes
pub mod Clears
pub mod Runs
use linux_anti_executable.Base.{
  ℕ, Bool, true, false, not, ◌&&◌, ◌||◌, Option, none, some, List, [], ◌∷◌, ltb, leb, ◌==◌,
  if◌then◌else◌, ℤ, negsuc, pos, minus_one, length,
}
use linux_anti_executable.Hash.Hex.{Libc, hex_to_bytes}
use linux_anti_executable.Cache.Bloom.{Bitmap, bloom_size_bytes, bloom_add, bloom_check}
use linux_anti_executable.Cache.Chain.{Entries, hash_to_index}
use linux_anti_executable.Cache.{Cache, hash_hex_len, incr32, decr32, incr64}
use linux_anti_executable.Cache.History.{Call, checks, adds, removes, clears}
use linux_anti_executable.Cache.Cells.{
  Store, Walk, done, fault, walking, find_cell, remove_cell, add_cell,
}
use linux_anti_executable.Cache.Cells.Release.{free_chains}

-- `g_cache`
pub record Heap : Type 0 where
  pub store : Store
  pub table_size : ℕ
  pub entry_count : ℕ
  pub max_entries : ℕ
  pub collisions : ℕ
  pub bloom : Bitmap
  pub lookups : ℕ
  pub hits : ℕ
  pub misses : ℕ
  pub bloom_rejections : ℕ
  pub initialized : Bool

-- The cache with the chains as lists.
abbrev pub cache_of : Heap → (ℕ → Entries) → Cache
cache_of h table = record {
  table = table;
  table_size = h.table_size;
  entry_count = h.entry_count;
  max_entries = h.max_entries;
  collisions = h.collisions;
  bloom = h.bloom;
  lookups = h.lookups;
  hits = h.hits;
  misses = h.misses;
  bloom_rejections = h.bloom_rejections;
  initialized = h.initialized;
}

-- The end of `cache_check`, after the walk along the chain.
checked : Walk Bool → Heap → Walk (ℤ × Heap)
checked (done true) h = done (pos 1, record h { hits = incr64 h.hits })
checked (done false) h = done (pos 0, record h { misses = incr64 h.misses })
checked fault h = fault
checked walking h = walking

-- The end of `cache_add`, after the walk; `p` is the address that `malloc` gives.
added : Walk Bool → Bool → ℕ → List ℕ → Heap → Walk (ℤ × Heap)
added (done true) malloc_ok p hash h = done (pos 0, h)
added (done false) malloc_ok p hash h =
    if not malloc_ok
    then done (minus_one, h)
    else let idx = hash_to_index hash h.table_size in
      done (
        pos 0,
        record h {
          collisions = elim (h.store.table idx) [
            | none ↦ h.collisions
            | some head ↦ incr32 h.collisions
          ];
          store = add_cell idx p hash h.store;
          entry_count = incr32 h.entry_count;
          bloom = bloom_add h.bloom hash;
        },
      )
added fault malloc_ok p hash h = fault
added walking malloc_ok p hash h = walking

-- The end of `cache_remove`: the walk returns 0 where it unlinked and freed an entry.
dropped : Walk (ℤ × Store) → Heap → Walk (ℤ × Heap)
dropped (done (pos n, store)) h =
    done (pos n, record h { store = store; entry_count = decr32 h.entry_count })
dropped (done (negsuc n, store)) h = done (negsuc n, record h { store = store })
dropped fault h = fault
dropped walking h = walking

cleared : Walk Store → Heap → Walk (ℤ × Heap)
cleared (done store) h = done (
  pos 0,
  record h {
    store = store;
    bloom = λ i. if ltb i bloom_size_bytes then 0 else h.bloom i;
    entry_count = 0;
    collisions = 0;
  },
)
cleared fault h = fault
cleared walking h = walking

-- After the loop the table is freed as well.
shut : Walk Store → Heap → Walk Heap
shut (done store) h =
    done
      (record h { store = record store { table = λ _. none }; bloom = λ _. 0; initialized = false })
shut fault h = fault
shut walking h = walking

heap_unusable : Heap → List ℕ → Bool
heap_unusable h hash_hex = not h.initialized || not (length hash_hex == hash_hex_len)

-- The number bounds the steps of one walk along a chain.
module _ ⦃libc : Libc⦄ (fuel : ℕ) where
  unfoldable pub heap_check : List ℕ → Heap → Walk (ℤ × Heap)
  unfolding checked heap_unusable
  heap_check hash_hex h =
      if heap_unusable h hash_hex
      then done (pos 0, h)
      else let hash = hex_to_bytes hash_hex in
        let h1 = record h { lookups = incr64 h.lookups } in
        if not (bloom_check h1.bloom hash)
        then done (
          pos 0,
          record h1 { bloom_rejections = incr64 h1.bloom_rejections; misses = incr64 h1.misses },
        )
        else let head = h1.store.table (hash_to_index hash h1.table_size) in
          checked (find_cell fuel h1.store.cells head hash) h1

  unfoldable pub heap_add : Bool → ℕ → List ℕ → Heap → Walk (ℤ × Heap)
  unfolding added heap_unusable
  heap_add malloc_ok p hash_hex h =
      if heap_unusable h hash_hex
      then done (minus_one, h)
      else if ltb 0 h.max_entries && leb h.max_entries h.entry_count
      then done (minus_one, h)
      else let hash = hex_to_bytes hash_hex in
        let head = h.store.table (hash_to_index hash h.table_size) in
        added (find_cell fuel h.store.cells head hash) malloc_ok p hash h

  unfoldable pub heap_remove : List ℕ → Heap → Walk (ℤ × Heap)
  unfolding dropped heap_unusable
  heap_remove hash_hex h =
      if heap_unusable h hash_hex
      then done (minus_one, h)
      else let hash = hex_to_bytes hash_hex in
        let idx = hash_to_index hash h.table_size in
        dropped (remove_cell fuel idx none (h.store.table idx) hash h.store) h

  unfoldable pub heap_clear : Heap → Walk (ℤ × Heap)
  unfolding cleared
  heap_clear h =
      if not h.initialized
      then done (pos 0, h)
      else cleared (free_chains true fuel h.table_size 0 h.store) h

  unfoldable pub heap_shutdown : Heap → Walk Heap
  unfolding shut
  heap_shutdown h =
      if not h.initialized then done h else shut (free_chains false fuel h.table_size 0 h.store) h

  -- A call, with the address that `malloc` gives if it is asked.
  unfoldable pub heap_step : ℕ → Call → Heap → Walk (ℤ × Heap)
  heap_step p (checks hex) h = heap_check hex h
  heap_step p (adds malloc_ok now hex path persist) h = heap_add malloc_ok p hex h
  heap_step p (removes hex) h = heap_remove hex h
  heap_step p clears h = heap_clear h

  -- The answers of the calls in turn, and the cache at the end.
  unfoldable pub heap_run : List (Call × ℕ) → Heap → Walk (List ℤ × Heap)
  heap_run [] h = done ([], h)
  heap_run ((call, p) ∷ calls) h = elim (heap_step p call h) [
    | done (r, h') ↦ elim (heap_run calls h') [
      | done (rs, last) ↦ done (r ∷ rs, last)
      | fault ↦ fault
      | walking ↦ walking
    ]
    | fault ↦ fault
    | walking ↦ walking
  ]
