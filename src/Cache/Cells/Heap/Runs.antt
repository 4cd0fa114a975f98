-- ===== src/Cache/Cells/Heap/Runs.antt =====
-- Histories of calls of src/daemon/whitelist_cache.c on the cells, against the same calls on the
-- lists, and what is left in memory after the shutdown.
use linux_anti_executable.Base.{
  ℕ, ◌+◌, ◌<◌, ◌≤◌, ◌≡◌, ◌∙◌, ap, refl, true, none, List, [], ◌∷◌, map, arith, ℤ, length,
}
use linux_anti_executable.Hash.Hex.{Libc}
use linux_anti_executable.Whitelist.{Sqlite, Whitelist}
use linux_anti_executable.Cache.{Stores, cache_check, cache_add, cache_remove, cache_clear}
use linux_anti_executable.Cache.History.{Call, checks, adds, removes, clears, step, run}
use linux_anti_executable.Cache.Cells.{done}
use linux_anti_executable.Cache.Cells.Refines.{Places}
use linux_anti_executable.Cache.Cells.Heap.{Heap, heap_step, heap_run, heap_shutdown}
use linux_anti_executable.Cache.Cells.Heap.Steps.{lists, Held, Refined, heap_check-Refined}
use linux_anti_executable.Cache.Cells.Heap.Adds.{heap_add-Refined}
use linux_anti_executable.Cache.Cells.Heap.Removes.{heap_remove-Refined}
use linux_anti_executable.Cache.Cells.Heap.Clears.{heap_clear-Refined, heap_shutdown_frees}

-- The calls without the addresses.
abbrev pub calls_of : List (Call × ℕ) → List Call
calls_of = map (λ c. c.0)

module _ ⦃libc : Libc⦄ (fuel : ℕ) where
  -- Whatever `malloc` gives in the history is not allocated at that time.
  abbrev pub Fresh : List (Call × ℕ) → Heap → Type 0
  Fresh [] h = Unit {0}
  Fresh ((call, p) ∷ calls) h =
      (h.store.cells p ≡ none)
      × ((r : ℤ) (h' : Heap) → heap_step fuel p call h ≡ done (r, h') → Fresh calls h')

  module _ (sql : Sqlite) where
    -- The stores with the chains as lists.
    abbrev pub stores_of : Whitelist sql.Db → Heap → (ℕ → Places) → Stores sql.Db
    stores_of w h t = record { cache = lists h t; whitelist = w }

    heap_step-Refined :
        (call : Call) (p : ℕ) (h : Heap) (t : ℕ → Places) (w : Whitelist sql.Db)
        → Held h t
        → ((i : ℕ) → length (t i) < fuel)
        → h.store.cells p ≡ none
        → let (r, s) = step sql call (stores_of w h t) in
          Refined (heap_step fuel p call h) r s.cache t
    unfolding heap_step step
    heap_step-Refined (checks hex) p h t w held enough free =
        heap_check-Refined fuel h t held enough hex
    heap_step-Refined (adds malloc_ok now hex path persist) p h t w held enough free =
        heap_add-Refined fuel h t held enough sql malloc_ok now hex path persist w p free
    heap_step-Refined (removes hex) p h t w held enough free =
        heap_remove-Refined fuel h t held enough hex
    heap_step-Refined clears p h t w held enough free = heap_clear-Refined fuel h t held enough

    -- With fuel for more steps than a chain can get cells in the history, and if `malloc` gives no
    -- address that is in use, every history of calls on the cells ends without a step into memory
    -- that is not allocated. The answers are those of the same calls on the lists, and so is the
    -- cache at the end; no two chains share a cell, every allocated cell is in a chain, and no chain
    -- has got more cells than there were calls.
    pub heap_run-refines :
        (calls : List (Call × ℕ)) (h : Heap) (t : ℕ → Places) (w : Whitelist sql.Db)
        → Held h t
        → ((i : ℕ) → length (t i) + length calls < fuel)
        → Fresh calls h
        → let (answers, s) = run sql (calls_of calls) (stores_of w h t) in
          (last : Heap) × (t' : ℕ → Places) × (heap_run fuel calls h ≡ done (answers, last))
          × (lists last t' ≡ s.cache)
          × Held last t'
          × ((i : ℕ) → length (t' i) ≤ length (t i) + length calls)
    unfolding heap_run run
    heap_run-refines [] h t w held enough fresh = (h, t, refl, refl, held, λ i. omega arith)
    heap_run-refines ((call, p) ∷ calls) h t w held enough (free, later) =
        let s = (step sql call (stores_of w h t)).1 in
        let here = heap_step-Refined call p h t w held (λ i. omega (arith, enough i)) free in
        let (last, t', ran, same, kept, grows) =
          heap_run-refines calls here.heap here.places s.whitelist here.held
            (λ i. omega (arith, enough i, here.grows i)) (later _ here.heap here.run) in
        let joined : stores_of s.whitelist here.heap here.places ≡ s =
          ap (λ c. record s { cache = c }) here.same in
        (
          last,
          t',
          ground (arith, here.run, ran, ap (run sql (calls_of calls)) joined),
          same ∙ ap (λ x. (run sql (calls_of calls) x).1.cache) joined,
          kept,
          λ i. omega (arith, grows i, here.grows i),
        )

    step-initialized :
        (call : Call) (s : Stores sql.Db)
        → (step sql call s).1.cache.initialized ≡ s.cache.initialized
    unfolding step cache_check cache_add cache_remove cache_clear
    step-initialized (checks hex) s = ground arith
    step-initialized (adds malloc_ok now hex path persist) s = ground arith
    step-initialized (removes hex) s = ground arith
    step-initialized clears s = ground arith

    run-initialized :
        (calls : List Call) (s : Stores sql.Db)
        → (run sql calls s).1.cache.initialized ≡ s.cache.initialized
    unfolding run
    run-initialized [] s = refl
    run-initialized (call ∷ calls) s =
        run-initialized calls (step sql call s).1 ∙ step-initialized call s

    -- No entry leaks and none is freed twice: from a cache in use, any history of calls and then
    -- `cache_shutdown` end without a step into memory that is not allocated, with no cell allocated,
    -- if there is fuel for the chains and `malloc` gives no address that is in use.
    pub heap_run-frees :
        (calls : List (Call × ℕ)) (h : Heap) (t : ℕ → Places) (w : Whitelist sql.Db)
        → Held h t
        → h.initialized ≡ true
        → ((i : ℕ) → length (t i) + length calls < fuel)
        → Fresh calls h
        → (answers : List ℤ) × (used : Heap) × (last : Heap) × (heap_run fuel calls h
            ≡ done (answers, used))
          × (heap_shutdown fuel used ≡ done last)
          × ((a : ℕ) → last.store.cells a ≡ none)
    heap_run-frees calls h t w held live enough fresh =
        let (used, t', ran, same, kept, grows) = heap_run-refines calls h t w held enough fresh in
        let in_use =
          ap (λ c. c.initialized) same
          ∙ run-initialized (calls_of calls) (stores_of w h t)
          ∙ live in
        let (last, ended, gone, unset) =
          heap_shutdown_frees fuel used t' kept (λ i. omega (arith, grows i, enough i)) in_use in
        (_, used, last, ran, ended, gone)
