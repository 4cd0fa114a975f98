-- ===== src/Cache/Cells.antt =====
-- The chains of src/daemon/whitelist_cache.c as cells in a store: the walks of `cache_check`,
-- `cache_add` and `cache_remove` along the `next` pointers, and the memory that they write.
pub mod Refines
pub mod Removal
pub mod Table
pub mod Release
pub mod Heap
use linux_anti_executable.Base.{
  ℕ, zero, suc, Bool, true, false, Option, none, some, List, ◌==◌, if◌then◌else◌, ℤ, pos, minus_one,
  update, same_bytes,
}

-- A `hash_entry_t`, where `none` is NULL.
pub record Cell : Type 0 where
  pub hash : List ℕ
  pub next : Option ℕ

-- The cell at an address, if one is allocated there, and the heads of the chains.
pub record Store : Type 0 where
  pub cells : ℕ → Option Cell
  pub table : ℕ → Option ℕ

-- A walk ends, reads or writes where no cell is, or has not ended after the given number of steps.
pub data Walk {ℓ} (A : Type ℓ) : Type ℓ where
  done : A → Walk A
  fault : Walk A
  walking : Walk A

-- The loop of `cache_check` and of `cache_add`.
unfoldable pub find_cell : ℕ → (ℕ → Option Cell) → Option ℕ → List ℕ → Walk Bool
find_cell zero cells entry hash = walking
find_cell (suc fuel) cells none hash = done false
find_cell (suc fuel) cells (some p) hash = elim (cells p) [
  | none ↦ fault
  | some cell ↦
      let rest = find_cell fuel cells cell.next hash in
      if same_bytes cell.hash hash then done true else rest
]

-- `prev->next = next`, or `g_cache.table[idx] = next` without a cell before.
unfoldable pub set_next : ℕ → Option ℕ → Option ℕ → Store → Walk Store
set_next idx none next s = done (record s { table = update s.table idx next })
set_next idx (some q) next s = elim (s.cells q) [
  | none ↦ fault
  | some cell ↦ done (record s { cells = update s.cells q (some (record cell { next = next })) })
]

-- `free(entry)`
unfoldable pub free : ℕ → Walk Store → Walk (ℤ × Store)
free p (done s) = done (pos 0, record s { cells = update s.cells p none })
free p fault = fault
free p walking = walking

-- The loop of `cache_remove`.
unfoldable pub remove_cell : ℕ → ℕ → Option ℕ → Option ℕ → List ℕ → Store → Walk (ℤ × Store)
remove_cell zero idx prev entry hash s = walking
remove_cell (suc fuel) idx prev none hash s = done (minus_one, s)
remove_cell (suc fuel) idx prev (some p) hash s = elim (s.cells p) [
  | none ↦ fault
  | some cell ↦
      let rest = remove_cell fuel idx (some p) cell.next hash s in
      if same_bytes cell.hash hash then free p (set_next idx prev cell.next s) else rest
]

-- The new cell at the head of its chain; the address is what `malloc` gave.
unfoldable pub add_cell : ℕ → ℕ → List ℕ → Store → Store
add_cell idx p hash s = record {
  cells = update s.cells p (some (record { hash = hash; next = s.table idx }));
  table = update s.table idx (some p);
}
