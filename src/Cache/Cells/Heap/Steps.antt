-- ===== src/Cache/Cells/Heap/Steps.antt =====
-- Each operation of src/daemon/whitelist_cache.c on the cells does what it does on the lists.
use linux_anti_executable.Base.{
  ℕ, ◌+◌, ◌<◌, ◌≤◌, ◌≡◌, ◌≢◌, sym, refl, true, none, List, arith, ℤ, length,
}
use linux_anti_executable.Hash.Hex.{Libc, hex_to_bytes}
use linux_anti_executable.Cache.Chain.{Entries, hash_to_index, find_entry}
use linux_anti_executable.Cache.{Cache, cache_check}
use linux_anti_executable.Cache.Cells.{Store, Walk, done, find_cell}
use linux_anti_executable.Cache.Cells.Refines.{Places, hashes, owns, find_cell-find_entry}
use linux_anti_executable.Cache.Cells.Table.{Represents}
use linux_anti_executable.Cache.Cells.Heap.{Heap, cache_of, heap_check}

-- The hashes of the chains.
abbrev pub chains : (ℕ → Places) → ℕ → Entries
chains t i = hashes (t i)

-- The memory holds these chains, and every cell that is allocated is in one of them.
pub record Held (h : Heap) (t : ℕ → Places) : Type 0 where
  pub represents : Represents h.store t
  pub sized : 0 < h.table_size
  pub owned :
      (a : ℕ) → h.store.cells a ≢ none → (i : ℕ) × (i < h.table_size) × (owns a (t i) ≡ true)

-- The cache's fields, with the cells instead of the lists.
abbrev pub heap_of : Store → Cache → Heap
heap_of store c = record {
  store = store;
  table_size = c.table_size;
  entry_count = c.entry_count;
  max_entries = c.max_entries;
  collisions = c.collisions;
  bloom = c.bloom;
  lookups = c.lookups;
  hits = c.hits;
  misses = c.misses;
  bloom_rejections = c.bloom_rejections;
  initialized = c.initialized;
}

-- The cache with the chains as lists.
abbrev pub lists : Heap → (ℕ → Places) → Cache
lists h t = cache_of h (chains t)

-- The outcome of a call on the cells, against the answer and the cache that the lists give.
pub record Refined (out : Walk (ℤ × Heap)) (r : ℤ) (c : Cache) (t : ℕ → Places) : Type 0 where
  pub heap : Heap
  pub places : ℕ → Places
  pub run : out ≡ done (r, heap)
  pub same : cache_of heap (chains places) ≡ c
  pub held : Held heap places
  pub grows : (i : ℕ) → length (places i) ≤ length (t i) + 1

pub cache_of-heap_of :
    (store : Store) (c : Cache) (table : ℕ → Entries)
    → c.table ≡ table
    → cache_of (heap_of store c) table ≡ c
cache_of-heap_of store c table e = rw (sym e) refl

module _ ⦃libc : Libc⦄ (fuel : ℕ) (h : Heap) (t : ℕ → Places) (held : Held h t)
    (enough : (i : ℕ) → length (t i) < fuel) where
  pub found :
      (hash : List ℕ)
      → let idx = hash_to_index hash h.table_size in
        find_cell fuel h.store.cells (h.store.table idx) hash
        ≡ done (find_entry hash (hashes (t idx)))
  found hash =
      let idx = hash_to_index hash h.table_size in
      find_cell-find_entry fuel h.store.cells (h.store.table idx) hash (t idx)
        (held.represents.chains idx) (enough idx)

  heap_check-run :
      (hex : List ℕ)
      → let (r, c) = cache_check hex (lists h t) in
        (heap_check fuel hex h ≡ done (r, heap_of h.store c)) × (c.table ≡ chains t)
  unfolding heap_check cache_check
  heap_check-run hex = (ground (arith, found (hex_to_bytes hex)), ground arith)

  -- A call that leaves the cells alone.
  pub unchanged :
      (out : Walk (ℤ × Heap)) (r : ℤ) (c : Cache)
      → out ≡ done (r, heap_of h.store c)
      → c.table ≡ chains t
      → c.table_size ≡ h.table_size
      → Refined out r c t
  unchanged out r c run table size = record {
    heap = heap_of h.store c;
    places = t;
    run = run;
    same = cache_of-heap_of h.store c (chains t) table;
    held = record {
      represents = held.represents;
      sized = rw size held.sized;
      owned = rw size held.owned;
    };
    grows = λ i. omega arith;
  }

  pub heap_check-Refined :
      (hex : List ℕ)
      → Refined
          (heap_check fuel hex h)
          (cache_check hex (lists h t)).0
          (cache_check hex (lists h t)).1
          t
  unfolding cache_check
  heap_check-Refined hex =
      let (run, table) = heap_check-run hex in
      unchanged (heap_check fuel hex h) (cache_check hex (lists h t)).0
        (cache_check hex (lists h t)).1 run table (ground arith)
