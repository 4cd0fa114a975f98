-- ===== src/Cache/Cells/Heap/Adds.antt =====
-- `cache_add` of src/daemon/whitelist_cache.c on the cells does what it does on the lists.
use linux_anti_executable.Base.{
  ℕ, ◌<◌, ◌≡◌, ◌≢◌, ◌∙◌, ap, sym, Bool, true, false, not, ◌&&◌, Option, none, some, List, [], ◌∷◌,
  ltb, leb, ◌==◌, arith, if◌then◌else◌, ℤ, length, update, Bool-cases, inl, inr, fun_ext,
}
use linux_anti_executable.Hash.Hex.{Libc, hex_to_bytes}
use linux_anti_executable.Whitelist.{Sqlite, Whitelist}
use linux_anti_executable.Cache.Chain.{hash_to_index, hash_to_index-lt, find_entry}
use linux_anti_executable.Cache.{Stores, hash_hex_len, incr32, cache_add}
use linux_anti_executable.Cache.Cells.{Cell, done, add_cell}
use linux_anti_executable.Cache.Cells.Refines.{Places, hashes, owns, Points}
use linux_anti_executable.Cache.Cells.Table.{grown, add_cell-Represents}
use linux_anti_executable.Cache.Cells.Heap.{Heap, heap_add}
use linux_anti_executable.Cache.Cells.Heap.Steps.{
  chains, Held, heap_of, lists, Refined, cache_of-heap_of, found, unchanged,
}

collided :
    (cells : ℕ → Option Cell) (head : Option ℕ) (l : Places) (n : ℕ)
    → Points cells head l
    → elim head [ none ↦ n | some p ↦ incr32 n ]
      ≡ (if ltb 0 (length (hashes l)) then incr32 n else n)
collided cells head [] n c = ground (arith, c)
collided cells head (place ∷ rest) n c = ground (arith, c.0)

module _ ⦃libc : Libc⦄ (fuel : ℕ) (h : Heap) (t : ℕ → Places) (held : Held h t)
    (enough : (i : ℕ) → length (t i) < fuel) where
  module _ (sql : Sqlite) (malloc_ok : Bool) (now : ℕ) (hex path : List ℕ) (persist : ℤ)
      (w : Whitelist sql.Db) (p : ℕ) (free : h.store.cells p ≡ none) where
    abbrev hash : List ℕ
    hash = hex_to_bytes hex

    abbrev idx : ℕ
    idx = hash_to_index hash h.table_size

    abbrev pub out : ℤ × Stores sql.Db
    out = cache_add sql malloc_ok now hex path persist (record { cache = lists h t; whitelist = w })

    -- The call gets as far as the new entry.
    inserts : Bool
    inserts =
        h.initialized
        && length hex == hash_hex_len
        && not (ltb 0 h.max_entries && leb h.max_entries h.entry_count)
        && not (find_entry hash (hashes (t idx)))
        && malloc_ok

    kept_out :
        inserts ≡ false
        → (heap_add fuel malloc_ok p hex h ≡ done (out.0, heap_of h.store out.1.cache))
          × (out.1.cache ≡ lists h t)
    unfolding inserts heap_add cache_add
    kept_out no_insert = (
      ground (arith, no_insert, found fuel h t held enough (hex_to_bytes hex)),
      ground (arith, no_insert),
    )

    taken_in :
        inserts ≡ true
        → (heap_add fuel malloc_ok p hex h
            ≡ done (out.0, heap_of (add_cell idx p hash h.store) out.1.cache))
          × (out.1.cache.table ≡ update (chains t) idx (hash ∷ chains t idx))
          × (out.1.cache.table_size ≡ h.table_size)
    unfolding inserts heap_add cache_add
    taken_in insert = (
      ground (
        arith,
        insert,
        found fuel h t held enough (hex_to_bytes hex),
        collided h.store.cells (h.store.table idx) (t idx) h.collisions
            (held.represents.chains idx),
      ),
      ground (arith, insert),
      ground (arith, insert),
    )

    grown_places : ℕ → Places
    grown_places = grown idx p hash h.store t

    grown_hashes : (i : ℕ) → hashes (grown_places i) ≡ update (chains t) idx (hash ∷ chains t idx) i
    unfolding grown_places
    grown_hashes i = ground arith

    grown_owned :
        (a : ℕ)
        → (add_cell idx p hash h.store).cells a ≢ none
        → (i : ℕ) × (i < h.table_size) × (owns a (grown_places i) ≡ true)
    unfolding grown_places add_cell
    grown_owned a there = elim (Bool-cases (p == a)) [
      | inl new ↦ (idx, hash_to_index-lt hash h.table_size held.sized, ground (arith, new))
      | inr old ↦
          let (i, low, own) = held.owned a (ground (arith, old, there)) in
          (i, low, ground (arith, own))
    ]

    pub heap_add-Refined : Refined (heap_add fuel malloc_ok p hex h) out.0 out.1.cache t
    unfolding grown_places
    heap_add-Refined = elim (Bool-cases inserts) [
      | inr no_insert ↦
          let (run, same) = kept_out no_insert in
          unchanged fuel h t held enough (heap_add fuel malloc_ok p hex h) out.0 out.1.cache run
            (ap (λ c. c.table) same) (ap (λ c. c.table_size) same)
      | inl insert ↦
          let (run, table, size) = taken_in insert in
          record {
            heap = heap_of (add_cell idx p hash h.store) out.1.cache;
            places = grown_places;
            run = run;
            same =
                cache_of-heap_of (add_cell idx p hash h.store) out.1.cache (chains grown_places)
                  (table ∙ sym (fun_ext grown_hashes));
            held = record {
              represents = add_cell-Represents idx p hash h.store t held.represents free;
              sized = rw size held.sized;
              owned = rw size grown_owned;
            };
            grows = λ i. ground arith;
          }
    ]
