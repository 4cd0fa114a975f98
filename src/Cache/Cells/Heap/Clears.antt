-- ===== src/Cache/Cells/Heap/Clears.antt =====
-- `cache_clear` and `cache_shutdown` of src/daemon/whitelist_cache.c on the cells.
use linux_anti_executable.Base.{
  ℕ, zero, suc, ◌<◌, ◌≡◌, refl, true, false, Option, none, some, [], ltb, arith, if◌then◌else◌, pos,
  length, Bool-cases, inl, inr, fun_ext,
}
use linux_anti_executable.Hash.Hex.{Libc}
use linux_anti_executable.Cache.Chain.{Entries}
use linux_anti_executable.Cache.{clear_table, cache_clear}
use linux_anti_executable.Cache.Cells.{Cell, Store, done}
use linux_anti_executable.Cache.Cells.Refines.{Places}
use linux_anti_executable.Cache.Cells.Table.{Represents}
use linux_anti_executable.Cache.Cells.Release.{Left, free_chains-Left}
use linux_anti_executable.Cache.Cells.Heap.{Heap, heap_clear, heap_shutdown}
use linux_anti_executable.Cache.Cells.Heap.Steps.{
  chains, Held, heap_of, lists, Refined, cache_of-heap_of, unchanged,
}

module _ ⦃libc : Libc⦄ (fuel : ℕ) (h : Heap) (t : ℕ → Places) (held : Held h t)
    (enough : (i : ℕ) → length (t i) < fuel) where
  -- The chains after the heads of the table were gone through.
  abbrev emptied : ℕ → Places
  emptied i = if ltb i h.table_size then [] else t i

  clear_table_at :
      (n : ℕ) (table : ℕ → Entries) (i : ℕ)
      → clear_table n table i ≡ (if ltb i n then [] else table i)
  unfolding clear_table
  clear_table_at zero table i = ground arith
  clear_table_at (suc n) table i = ground (arith, clear_table_at n table i)

  emptied-Represents :
      (s : Store)
      → Left h.table_size h.table_size s t
      → ((j : ℕ) → j < h.table_size → s.table j ≡ none)
      → Represents s emptied
  emptied-Represents s left unset = record {
    chains = λ i. elim (Bool-cases (ltb i h.table_size)) [
      | inl low ↦ simp low (unset i (ground (arith, low)))
      | inr high ↦ simp high (left.chains i (ground (arith, high)))
    ];
    apart =
        λ i j a own own'. held.represents.apart i j a (ground (arith, own)) (ground (arith, own'));
  }

  all_Left : Left 0 h.table_size h.store t
  all_Left = record {
    chains = λ j low. held.represents.chains j;
    owned = λ a there. let (i, low, own) = held.owned a there in (i, omega arith, low, own);
  }

  pub heap_clear-Refined : Refined (heap_clear fuel h) (pos 0) (cache_clear (lists h t)) t
  unfolding heap_clear cache_clear
  heap_clear-Refined = elim (Bool-cases h.initialized) [
    | inr unused ↦
        unchanged fuel h t held enough (heap_clear fuel h) (pos 0) (cache_clear (lists h t))
          (ground (arith, unused)) (ground (arith, unused)) (ground (arith, unused))
    | inl used ↦
        let (s', ran, left, unset) =
          free_chains-Left t held.represents.apart true fuel h.table_size 0 h.table_size h.store
            (omega arith) enough all_Left (λ on j low. absurd (omega (arith, low))) in
        let c = cache_clear (lists h t) in
        let size : c.table_size ≡ h.table_size = ground arith in
        record {
          heap = heap_of s' c;
          places = emptied;
          run = ground (arith, used, ran);
          same =
              cache_of-heap_of s' c (chains emptied)
                (fun_ext (λ i. ground (arith, used, clear_table_at h.table_size (chains t) i)));
          held = record {
            represents = emptied-Represents s' left (unset refl);
            sized = rw size held.sized;
            owned = λ a there.
                let (j, low, high, own) = left.owned a there in absurd (omega (arith, low, high));
          };
          grows = λ i. ground arith;
        }
  ]

  -- With fuel for every chain `cache_shutdown` ends, meets no freed memory, and leaves no cell
  -- allocated.
  pub heap_shutdown_frees :
      h.initialized ≡ true
      → (last : Heap) × (heap_shutdown fuel h ≡ done last)
        × ((a : ℕ) → last.store.cells a ≡ none)
        × (last.initialized ≡ false)
  unfolding heap_shutdown
  heap_shutdown_frees used =
      let (s', ran, left, unset) =
        free_chains-Left t held.represents.apart false fuel h.table_size 0 h.table_size h.store
          (omega arith) enough all_Left (λ on j low. cc) in
      (
        record h { store = record s' { table = λ _. none }; bloom = λ _. 0; initialized = false },
        ground (arith, used, ran),
        λ a. nothing_left s' left a (s'.cells a) refl,
        refl,
      )
    where
      nothing_left :
          (s' : Store)
          → Left h.table_size h.table_size s' t
          → (a : ℕ) (cell : Option Cell) → s'.cells a ≡ cell
          → cell ≡ none
      nothing_left s' left a none e = refl
      nothing_left s' left a (some cell) e =
          let (j, low, high, own) = left.owned a (λ gone. ground (arith, e, gone)) in
          absurd (omega (arith, low, high))
