-- ===== src/Cache/Cells/Release.antt =====
-- The loops of `cache_clear` and `cache_shutdown` of src/daemon/whitelist_cache.c that free the
-- chains.
use linux_anti_executable.Base.{
  ℕ, zero, suc, ◌+◌, ◌<◌, ◌≤◌, ◌≡◌, ◌≢◌, ◌∙◌, ap, refl, Bool, true, false, Option, none, some, [],
  ◌∷◌, ◌==◌, arith, if◌then◌else◌, length, update, Bool-cases, inl, inr, ==_iff,
}
use linux_anti_executable.Cache.Cells.{Store, Walk, done, fault, walking}
use linux_anti_executable.Cache.Cells.Refines.{Places, owns, Points, owns_apart, Points-frame}

-- The loop over one chain: `next` is read before the entry is freed.
unfoldable pub free_chain : ℕ → Option ℕ → Store → Walk Store
free_chain zero entry s = walking
free_chain (suc fuel) none s = done s
free_chain (suc fuel) (some p) s = elim (s.cells p) [
  | none ↦ fault
  | some cell ↦ free_chain fuel cell.next (record s { cells = update s.cells p none })
]

-- `g_cache.table[i] = NULL`, which `cache_clear` does and `cache_shutdown` does not.
abbrev pub unset_head : Bool → ℕ → Store → Store
unset_head unset i s = if unset then record s { table = update s.table i none } else s

-- The loop over the heads: how many are left, and the index of the next.
unfoldable pub free_chains : Bool → ℕ → ℕ → ℕ → Store → Walk Store
free_chains unset fuel zero i s = done s
free_chains unset fuel (suc left) i s = elim (free_chain fuel (s.table i) s) [
  | done s' ↦ free_chains unset fuel left (i + 1) (unset_head unset i s')
  | fault ↦ fault
  | walking ↦ walking
]

-- The cells of a chain are freed, and nothing else is written.
record Freed (l : Places) (s s' : Store) : Type 0 where
  table : s'.table ≡ s.table
  gone : (a : ℕ) → owns a l ≡ true → s'.cells a ≡ none
  others : (a : ℕ) → owns a l ≡ false → s'.cells a ≡ s.cells a

free_chain-Freed :
    (fuel : ℕ) (head : Option ℕ) (l : Places) (s : Store)
    → Points s.cells head l
    → length l < fuel
    → (s' : Store) × (free_chain fuel head s ≡ done s') × Freed l s s'
unfolding free_chain
free_chain-Freed zero head l s c f = absurd (omega arith)
free_chain-Freed (suc fuel) head [] s c f =
    (s, rw c refl, record { table = refl; gone = λ a h. cc; others = λ a h. refl })
free_chain-Freed (suc fuel) head ((p, e) ∷ rest) s (here, fresh, (next, cell, tail)) f =
    let s1 = record s { cells = update s.cells p none } in
    let kept =
      Points-frame s.cells s1.cells next rest
        (λ a own. ground (arith, owns_apart a p rest own fresh)) tail in
    let (s', run, freed) = free_chain-Freed fuel next rest s1 kept (omega arith) in
    (
      s',
      ground (arith, here, cell, run),
      record {
        table = freed.table;
        gone = λ a own. elim (Bool-cases (owns a rest)) [
          | inl later ↦ freed.gone a later
          | inr first ↦ freed.others a first ∙ ground (arith, own, first)
        ];
        others = λ a other. freed.others a (ground arith) ∙ ground (arith, other);
      },
    )

-- The chains from an index on are still there, and every allocated cell is in one of them.
pub record Left (i n : ℕ) (s : Store) (t : ℕ → Places) : Type 0 where
  pub chains : (j : ℕ) → i ≤ j → Points s.cells (s.table j) (t j)
  pub owned : (a : ℕ) → s.cells a ≢ none → (j : ℕ) × (i ≤ j) × (j < n) × (owns a (t j) ≡ true)

module _ (t : ℕ → Places)
    (apart : (i j a : ℕ) → owns a (t i) ≡ true → owns a (t j) ≡ true → i ≡ j) where
  unset_head_table :
      (unset : Bool) (i j : ℕ) (s : Store) → i < j → (unset_head unset i s).table j ≡ s.table j
  unset_head_table unset i j s h = ground (arith, h)

  unset_head_cells : (unset : Bool) (i : ℕ) (s : Store) → (unset_head unset i s).cells ≡ s.cells
  unset_head_cells unset i s = ground arith

  apart_later : (i j a : ℕ) → i < j → owns a (t j) ≡ true → owns a (t i) ≡ false
  apart_later i j a h own = elim (Bool-cases (owns a (t i))) [
    | inl both ↦ absurd (omega (arith, apart i j a both own))
    | inr alone ↦ alone
  ]

  Freed-Left :
      (unset : Bool) (i n : ℕ) (s s' : Store)
      → Left i n s t
      → Freed (t i) s s'
      → Left (i + 1) n (unset_head unset i s') t
  Freed-Left unset i n s s' l f = record {
    chains = λ j h.
        rw (unset_head_cells unset i s', unset_head_table unset i j s' (omega arith), f.table)
          (Points-frame s.cells s'.cells (s.table j) (t j)
            (λ a own. f.others a (apart_later i j a (omega arith) own)) (l.chains j (omega arith)));
    owned = λ a there.
        let kept : s'.cells a ≢ none =
          λ gone. there (ap (λ c. c a) (unset_head_cells unset i s') ∙ gone) in
        elim (Bool-cases (owns a (t i))) [
          | inl mine ↦ absurd (kept (f.gone a mine))
          | inr other ↦
              let (j, low, high, own) = l.owned a (λ gone. kept (f.others a other ∙ gone)) in
              (j, later i j a low other own, high, own)
        ];
  }
    where
      later : (i j a : ℕ) → i ≤ j → owns a (t i) ≡ false → owns a (t j) ≡ true → i + 1 ≤ j
      later i j a low other own = elim (Bool-cases (i == j)) [
        | inl same ↦ absurd (ground (arith, ap (λ k. owns a (t k)) ((==_iff i j).0 same)))
        | inr different ↦ ground (arith, low, different)
      ]

  -- The heads before an index are NULL, if the loop unsets them.
  abbrev Unset : Bool → ℕ → Store → Type 0
  Unset unset i s = unset ≡ true → (j : ℕ) → j < i → s.table j ≡ none

  Unset-next :
      (unset : Bool) (i : ℕ) (s s' : Store)
      → s'.table ≡ s.table
      → Unset unset i s
      → Unset unset (i + 1) (unset_head unset i s')
  Unset-next unset i s s' same z on j h = elim (Bool-cases (i == j)) [
    | inl here ↦ ground (arith, on, here)
    | inr other ↦ ground (arith, on, other, ap (λ f. f j) same, z on j)
  ]

  -- With fuel for every chain the loop ends, meets no freed memory, and leaves no cell allocated.
  pub free_chains-Left :
      (unset : Bool) (fuel left i n : ℕ) (s : Store)
      → i + left ≡ n
      → ((j : ℕ) → length (t j) < fuel)
      → Left i n s t
      → Unset unset i s
      → (s' : Store) × (free_chains unset fuel left i s ≡ done s')
        × Left n n s' t
        × Unset unset n s'
  unfolding free_chains
  free_chains-Left unset fuel zero i n s e f l z =
      (s, refl, ground (arith, l, e), ground (arith, z, e))
  free_chains-Left unset fuel (suc left) i n s e f l z =
      let (s1, run, freed) =
        free_chain-Freed fuel (s.table i) (t i) s (l.chains i (omega arith)) (f i) in
      let (s', rest, last, unset_all) =
        free_chains-Left unset fuel left (i + 1) n (unset_head unset i s1) (omega (arith, e)) f
          (Freed-Left unset i n s s1 l freed) (Unset-next unset i s s1 freed.table z) in
      (s', ground (arith, run, rest), last, unset_all)
