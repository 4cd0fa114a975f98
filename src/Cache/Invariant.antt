-- ===== src/Cache/Invariant.antt =====
-- The well-formedness of the cache, and that each operation of whitelist_cache.c keeps it.
use linux_anti_executable.Base.{
  ℕ, zero, suc, ◌+◌, ◌%◌, ◌^◌, ◌<◌, ◌≤◌, ◌≡◌, refl, Bool, true, false, List, [], ◌∷◌, arith, ltb,
  ◌==◌, if◌then◌else◌, Bool-cases, inl, inr, ℤ, pos, update, same_bytes-eq,
}
use linux_anti_executable.Hash.Hex.{Libc, hex_to_bytes}
use linux_anti_executable.Whitelist.{Sqlite}
use linux_anti_executable.Cache.Bloom.{
  IsBytes, bloom_add, bloom_check, bloom_add-IsBytes, bloom_check-bloom_add,
  bloom_check-bloom_add_mono,
}
use linux_anti_executable.Cache.Chain.{
  Entries, hash_to_index, hash_to_index-lt, find_entry, unlink, IsDistinct, find_entry-unlink,
  unlink-IsDistinct, length-unlink, total, total-update, total_empty,
}
use linux_anti_executable.Cache.{
  Cache, Stores, default_table_size, lookup, insert_entry, delete_entry, clear_table, cache_init,
  cache_check, cache_add, cache_remove, cache_clear,
}

pub record IsValid (c : Cache) : Type 0 where
  pub live : c.initialized ≡ true
  pub sized : c.table_size ≡ default_table_size
  -- every entry stands in the chain of its index, and once
  pub placed :
      (h : List ℕ) (i : ℕ) → find_entry h (c.table i) ≡ true → hash_to_index h c.table_size ≡ i
  pub distinct : (i : ℕ) → IsDistinct (c.table i)
  -- the filter lets every entry through
  pub bytes : IsBytes c.bloom
  pub filtered :
      (h : List ℕ) (i : ℕ) → find_entry h (c.table i) ≡ true → bloom_check c.bloom h ≡ true
  -- the counter is the number of entries, in 32 bits, and within the limit if there is one
  pub counted : c.entry_count ≡ total c.table_size c.table % 2 ^ 32
  pub limit : c.max_entries < 2 ^ 32
  pub bounded : 0 < c.max_entries → total c.table_size c.table ≤ c.max_entries
  -- every lookup was a hit or a miss
  pub balanced : c.lookups ≡ (c.hits + c.misses) % 2 ^ 64

-- A start of a cache that is not in use, with a limit of 32 bits, leaves it valid if it reports
-- success.
pub cache_init-IsValid :
    (bloom_ok : Bool) (n : ℕ) (c : Cache)
    → c.initialized ≡ false
    → n < 2 ^ 32
    → (cache_init true bloom_ok n c).0 ≡ pos 0
    → IsValid (cache_init true bloom_ok n c).1
unfolding cache_init find_entry
cache_init-IsValid false n c z lt h = ground arith
cache_init-IsValid true n c z lt h =
    rw (z, cache_init)
      (record {
        live = refl;
        sized = refl;
        placed = λ q i f. cc;
        distinct = λ i. tt;
        bytes = λ i. omega arith;
        filtered = λ q i f. cc;
        counted = rw (total_empty default_table_size _ (λ i p. refl));
        limit = lt;
        bounded = λ p. rw (total_empty default_table_size _ (λ i p. refl)) (omega arith);
        balanced = refl;
      })

module _ {c : Cache} (v : IsValid c) (hash : List ℕ) where
  abbrev home : ℕ
  home = hash_to_index hash c.table_size

  home-lt : home < c.table_size
  home-lt = hash_to_index-lt hash c.table_size (rw v.sized (omega arith))

  lookup-IsValid : IsValid (lookup hash c).1
  unfolding lookup
  lookup-IsValid = ground (arith, v)

  module _ (fresh : find_entry hash (c.table home) ≡ false)
      (room : 0 < c.max_entries → c.entry_count < c.max_entries) where
    insert_entry-placed :
        (q : List ℕ) (i : ℕ)
        → find_entry q (update c.table home (hash ∷ c.table home) i) ≡ true
        → hash_to_index q c.table_size ≡ i
    unfolding find_entry
    insert_entry-placed q i f = ground (arith, v.placed q i, same_bytes-eq hash q)

    insert_entry-IsDistinct : (i : ℕ) → IsDistinct (update c.table home (hash ∷ c.table home) i)
    insert_entry-IsDistinct i = elim (Bool-cases (home == i)) [
      | inl e ↦ rw e (fresh, v.distinct home)
      | inr e ↦ rw e (v.distinct i)
    ]

    insert_entry-filtered :
        (q : List ℕ) (i : ℕ)
        → find_entry q (update c.table home (hash ∷ c.table home) i) ≡ true
        → bloom_check (bloom_add c.bloom hash) q ≡ true
    unfolding find_entry
    insert_entry-filtered q i f = ground (
      arith,
      v.filtered q i,
      same_bytes-eq hash q,
      bloom_check-bloom_add c.bloom hash v.bytes,
      bloom_check-bloom_add_mono c.bloom hash q v.bytes,
    )

    insert_entry-total :
        total c.table_size (update c.table home (hash ∷ c.table home))
        ≡ total c.table_size c.table + 1
    insert_entry-total =
        omega (arith, total-update c.table_size c.table home (hash ∷ c.table home) home-lt)

    insert_entry-IsValid : IsValid (insert_entry hash c)
    unfolding insert_entry
    insert_entry-IsValid = record {
      live = v.live;
      sized = v.sized;
      placed = insert_entry-placed;
      distinct = insert_entry-IsDistinct;
      bytes = bloom_add-IsBytes c.bloom hash v.bytes;
      filtered = insert_entry-filtered;
      counted = rw insert_entry-total (omega (arith, v.counted));
      limit = v.limit;
      bounded = λ p. rw insert_entry-total (omega (arith, v.counted, v.limit, v.bounded p, room p));
      balanced = v.balanced;
    }

  unlink-found :
      (q : List ℕ) (i : ℕ)
      → find_entry q (update c.table home (unlink hash (c.table home)) i) ≡ true
      → find_entry q (c.table i) ≡ true
  unlink-found q i f = ground (arith, find_entry-unlink hash q (c.table home) (v.distinct home))

  delete_entry-IsDistinct :
      (i : ℕ) → IsDistinct (update c.table home (unlink hash (c.table home)) i)
  delete_entry-IsDistinct i = elim (Bool-cases (home == i)) [
    | inl e ↦ rw e (unlink-IsDistinct hash (c.table home) (v.distinct home))
    | inr e ↦ rw e (v.distinct i)
  ]

  unlink-total :
      find_entry hash (c.table home) ≡ true
      → total c.table_size (update c.table home (unlink hash (c.table home))) + 1
        ≡ total c.table_size c.table
  unlink-total there = omega (
    arith,
    total-update c.table_size c.table home (unlink hash (c.table home)) home-lt,
    length-unlink hash (c.table home) there,
  )

  delete_entry-IsValid : IsValid (delete_entry hash c).1
  unfolding delete_entry
  delete_entry-IsValid = elim (Bool-cases (find_entry hash (c.table home))) [
    | inr absent ↦ rw absent v
    | inl there ↦ rw there (record {
      live = v.live;
      sized = v.sized;
      placed = λ q i f. v.placed q i (unlink-found q i f);
      distinct = delete_entry-IsDistinct;
      bytes = v.bytes;
      filtered = λ q i f. v.filtered q i (unlink-found q i f);
      counted = omega (arith, v.counted, unlink-total there);
      limit = v.limit;
      bounded = λ p. omega (arith, v.bounded p, unlink-total there);
      balanced = v.balanced;
    })
  ]

clear_table-below :
    (n : ℕ) (t : ℕ → Entries) (i : ℕ) → clear_table n t i ≡ (if ltb i n then [] else t i)
unfolding clear_table
clear_table-below zero t i = ground arith
clear_table-below (suc n) t i = ground (arith, clear_table-below n t i)

-- A cleared table holds no entry in any chain.
pub clear_table-empty :
    {c : Cache}
    → IsValid c
    → (h : List ℕ) (i : ℕ) → find_entry h (clear_table c.table_size c.table i) ≡ false
unfolding find_entry
clear_table-empty {c} v h i =
    ground (arith, clear_table-below c.table_size c.table i, v.placed h i, home-lt v h)

-- `cache_clear` keeps the cache valid.
pub cache_clear-IsValid : {c : Cache} → IsValid c → IsValid (cache_clear c)
unfolding cache_clear
cache_clear-IsValid {c} v = rw v.live (record {
  live = refl;
  sized = v.sized;
  placed = λ q i f. ground (arith, clear_table-empty v q i);
  distinct = λ i. clear_distinct i;
  bytes = λ i. ground (arith, v.bytes i);
  filtered = λ q i f. ground (arith, clear_table-empty v q i);
  counted = rw nothing refl;
  limit = v.limit;
  bounded = λ p. omega (arith, nothing);
  balanced = v.balanced;
})
  where
    clear_distinct : (i : ℕ) → IsDistinct (clear_table c.table_size c.table i)
    clear_distinct i = elim (Bool-cases (ltb i c.table_size)) [
      | inl e ↦ rw (clear_table-below, e) tt
      | inr e ↦ rw (clear_table-below, e) (v.distinct i)
    ]

    nothing : total c.table_size (clear_table c.table_size c.table) ≡ 0
    nothing =
        total_empty c.table_size _ (λ i p. ground (arith, clear_table-below c.table_size c.table i))

module _ ⦃libc : Libc⦄ where
  -- `cache_check` and `cache_remove` keep the cache valid, whatever text they are given.
  pub cache_check-IsValid : {c : Cache} (hex : List ℕ) → IsValid c → IsValid (cache_check hex c).1
  unfolding cache_check
  cache_check-IsValid {c} hex v = ground (arith, v, lookup-IsValid v (hex_to_bytes hex))

  pub cache_remove-IsValid : {c : Cache} (hex : List ℕ) → IsValid c → IsValid (cache_remove hex c).1
  unfolding cache_remove
  cache_remove-IsValid {c} hex v = ground (arith, v, delete_entry-IsValid v (hex_to_bytes hex))

  -- So does `cache_add`, on every branch: refused, present, out of memory and added.
  pub cache_add-IsValid :
      (sql : Sqlite) (malloc_ok : Bool) (now : ℕ) (hex path : List ℕ) (persist : ℤ)
      (s : Stores sql.Db)
      → IsValid s.cache
      → IsValid (cache_add sql malloc_ok now hex path persist s).1.cache
  unfolding cache_add
  cache_add-IsValid sql malloc_ok now hex path persist s v =
      ground (arith, v, insert_entry-IsValid v (hex_to_bytes hex))

  -- The limit is set by `cache_init` only.
  pub cache_check-max_entries :
      (hex : List ℕ) (c : Cache) → (cache_check hex c).1.max_entries ≡ c.max_entries
  unfolding cache_check
  cache_check-max_entries hex c = ground arith

  pub cache_add-max_entries :
      (sql : Sqlite) (malloc_ok : Bool) (now : ℕ) (hex path : List ℕ) (persist : ℤ)
      (s : Stores sql.Db)
      → (cache_add sql malloc_ok now hex path persist s).1.cache.max_entries ≡ s.cache.max_entries
  unfolding cache_add
  cache_add-max_entries sql malloc_ok now hex path persist s = ground arith

  -- Without `persist` the database is left alone.
  pub cache_add-whitelist :
      (sql : Sqlite) (malloc_ok : Bool) (now : ℕ) (hex path : List ℕ) (s : Stores sql.Db)
      → (cache_add sql malloc_ok now hex path (pos 0) s).1.whitelist ≡ s.whitelist
  unfolding cache_add
  cache_add-whitelist sql malloc_ok now hex path s = ground arith
