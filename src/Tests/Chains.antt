-- ===== src/Tests/Chains.antt =====
-- Runs of the hash table's chains in memory.
use linux_anti_executable.Base.{
  ℕ, ◌≡◌, refl, true, none, List, [], ◌∷◌, arith, ℤ, pos, codes, length, ◌≤◌, same_bytes,
}
use linux_anti_executable.Hash.Hex.{hex_to_bytes}
use linux_anti_executable.Whitelist.{closed}
use linux_anti_executable.Cache.Bloom.{bloom_check, bloom_hashes, bloom_add}
use linux_anti_executable.Cache.Chain.{hash_to_index}
use linux_anti_executable.Cache.{zero_cache, cache_init}
use linux_anti_executable.Cache.History.{Call, adds, checks, removes, clears, run}
use linux_anti_executable.Cache.Cells.{
  Store, Walk, done, fault, walking, find_cell, remove_cell, add_cell, free, set_next,
}
use linux_anti_executable.Cache.Cells.Refines.{Places}
use linux_anti_executable.Cache.Cells.Table.{Represents}
use linux_anti_executable.Cache.Cells.Heap.{
  Heap, heap_step, heap_run, heap_add, heap_check, heap_remove, heap_shutdown,
}
use linux_anti_executable.Cache.Cells.Heap.Steps.{lists, Held, heap_of}
use linux_anti_executable.Cache.Cells.Heap.Runs.{
  calls_of, Fresh, stores_of, heap_run-refines, heap_run-frees,
}
use linux_anti_executable.Tests.Samples.{sample_libc, memory_sqlite}

abbrev empty : Store
empty = record { cells = λ _. none; table = λ _. none }

abbrev no_places : ℕ → Places
no_places i = []

empty-Represents : Represents empty no_places
empty-Represents = record { chains = λ i. refl; apart = λ i j a hi hj. absurd cc }

-- A cache that was just set up, with its memory, and calls on it.
abbrev fresh_heap : Heap
fresh_heap = heap_of empty (cache_init true true 0 zero_cache).1

fresh_heap-Held : Held fresh_heap no_places
unfolding cache_init
fresh_heap-Held = record {
  represents = empty-Represents;
  sized = omega arith;
  owned = λ a there. absurd (there refl);
}

abbrev hex_a : List ℕ
hex_a = codes "aaaaaaaaaaaaaaaaaaaaaaaaaaaaaaaaaaaaaaaaaaaaaaaaaaaaaaaaaaaaaaaa"

abbrev from_remove : List (Call × ℕ)
from_remove = (removes hex_a, 200) ∷ (clears, 300) ∷ []

abbrev from_check : List (Call × ℕ)
from_check = (checks hex_a, 200) ∷ from_remove

abbrev history : List (Call × ℕ)
history = (adds true 0 hex_a (codes "/bin/a") (pos 0), 100) ∷ from_check

heap_after : Walk (ℤ × Heap) → Heap
heap_after (done (r, h)) = h
heap_after fault = fresh_heap
heap_after walking = fresh_heap

Fresh-heap_after :
    (out : Walk (ℤ × Heap)) (calls : List (Call × ℕ))
    → Fresh ⦃libc = sample_libc⦄ 9 calls (heap_after out)
    → (r : ℤ) (h : Heap) → out ≡ done (r, h)
    → Fresh ⦃libc = sample_libc⦄ 9 calls h
unfolding heap_after
Fresh-heap_after out calls f r h e = rw e at f

heap_1 : Heap
heap_1 =
    heap_after
      (heap_step ⦃libc = sample_libc⦄ 9 100 (adds true 0 hex_a (codes "/bin/a") (pos 0)) fresh_heap)

heap_2 : Heap
heap_2 = heap_after (heap_step ⦃libc = sample_libc⦄ 9 200 (checks hex_a) heap_1)

heap_3 : Heap
heap_3 = heap_after (heap_step ⦃libc = sample_libc⦄ 9 200 (removes hex_a) heap_2)

history-Fresh : Fresh ⦃libc = sample_libc⦄ 9 history fresh_heap
unfolding heap_after heap_1 heap_2 heap_3 heap_step heap_add heap_check heap_remove find_cell
    remove_cell add_cell bloom_check hex_to_bytes hash_to_index cache_init bloom_hashes bloom_add
    same_bytes free set_next
history-Fresh = (
  refl,
  Fresh-heap_after
      (heap_step ⦃libc = sample_libc⦄ 9 100 (adds true 0 hex_a (codes "/bin/a") (pos 0)) fresh_heap)
      from_check
      (
        refl,
        Fresh-heap_after (heap_step ⦃libc = sample_libc⦄ 9 200 (checks hex_a) heap_1) from_remove (
          refl,
          Fresh-heap_after (heap_step ⦃libc = sample_libc⦄ 9 200 (removes hex_a) heap_2)
              ((clears, 300) ∷ []) (refl, λ r h e. tt),
        ),
      ),
)

heap_run-refines_example :
    let (answers, s) =
      run ⦃libc = sample_libc⦄ memory_sqlite
        (calls_of history)
        (stores_of ⦃libc = sample_libc⦄ 9 memory_sqlite closed fresh_heap no_places) in
    (last : Heap) × (t' : ℕ → Places) × (heap_run ⦃libc = sample_libc⦄ 9 history fresh_heap
      ≡ done (answers, last))
    × (lists last t' ≡ s.cache)
    × Held last t'
    × ((i : ℕ) → length (t' i) ≤ 4)
unfolding cache_init
heap_run-refines_example =
    heap_run-refines ⦃libc = sample_libc⦄ 9 memory_sqlite history fresh_heap no_places closed
      fresh_heap-Held (λ i. omega arith) history-Fresh

heap_run-frees_example :
    (answers : List ℤ) × (used : Heap) × (last : Heap) × (heap_run ⦃libc = sample_libc⦄ 9 history
        fresh_heap
      ≡ done (answers, used))
    × (heap_shutdown ⦃libc = sample_libc⦄ 9 used ≡ done last)
    × ((a : ℕ) → last.store.cells a ≡ none)
unfolding cache_init
heap_run-frees_example =
    heap_run-frees ⦃libc = sample_libc⦄ 9 memory_sqlite history fresh_heap no_places closed
      fresh_heap-Held refl (λ i. omega arith) history-Fresh
