-- ===== src/Cache/Cells/Table.antt =====
-- The table of src/daemon/whitelist_cache.c with all its chains in one store: what `cache_check`,
-- `cache_add` and `cache_remove` do to it.
use linux_anti_executable.Base.{
  ℕ, ◌<◌, ◌≡◌, ◌∙◌, ap, sym, refl, true, false, ◌||◌, Option, none, List, [], ◌∷◌, ◌==◌, arith,
  if◌then◌else◌, length, update, Bool-cases, ◌⊎◌, inl, inr, ==_iff,
}
use linux_anti_executable.Cache.Chain.{Entries, find_entry, unlink}
use linux_anti_executable.Cache.Cells.{Cell, Store, done, find_cell, remove_cell, add_cell}
use linux_anti_executable.Cache.Cells.Refines.{
  Places, hashes, owns, Points, removed, hashes-removed, owns-removed, owns_apart, Points-frame,
  find_cell-find_entry,
}
use linux_anti_executable.Cache.Cells.Removal.{answer, Whole, remove_cell-Whole}

-- A store holds these chains, and no two of them share a cell.
pub record Represents (s : Store) (t : ℕ → Places) : Type 0 where
  pub chains : (i : ℕ) → Points s.cells (s.table i) (t i)
  pub apart : (i j a : ℕ) → owns a (t i) ≡ true → owns a (t j) ≡ true → i ≡ j

owns-removed_back :
    (a : ℕ) (hash : List ℕ) (l : Places) → owns a (removed hash l) ≡ true → owns a l ≡ true
owns-removed_back a hash l h = elim (Bool-cases (owns a l)) [
  | inl own ↦ own
  | inr other ↦ absurd (ground (arith, owns-removed a hash l other))
]

owns-without :
    (t : ℕ → Places) (idx i a : ℕ) (hash : List ℕ)
    → owns a (update t idx (removed hash (t idx)) i) ≡ true
    → owns a (t i) ≡ true
owns-without t idx i a hash h = elim (Bool-cases (idx == i)) [
  | inl here ↦
      let own = owns-removed_back a hash (t idx) (simp here at h) in
      rw (sym ((==_iff idx i).0 here)) own
  | inr other ↦ simp other at h
]

-- A cell of one chain is in no other.
other_chain :
    {s : Store} {t : ℕ → Places} (r : Represents s t) (idx i a : ℕ)
    → (idx == i) ≡ false
    → owns a (t i) ≡ true
    → owns a (t idx) ≡ false
other_chain {t = t} r idx i a other own = elim (Bool-cases (owns a (t idx))) [
  | inl both ↦ absurd (ground (arith, r.apart idx i a both own, other))
  | inr alone ↦ alone
]

-- Taking a cell out of one chain leaves the others.
pub Whole-Represents :
    (hash : List ℕ) (idx : ℕ) (s s' : Store) (t : ℕ → Places)
    → Represents s t
    → Whole hash idx (t idx) s s'
    → Represents s' (update t idx (removed hash (t idx)))
Whole-Represents hash idx s s' t r w = record {
  chains = λ i. elim (Bool-cases (idx == i)) [
    | inl here ↦ simp here (rw (sym ((==_iff idx i).0 here)) w.points)
    | inr other ↦
        let kept =
          λ (a : ℕ) (own : owns a (t i) ≡ true). w.others a (other_chain r idx i a other own) in
        simp (other, w.table i other)
          (Points-frame s.cells s'.cells (s.table i) (t i) kept (r.chains i))
  ];
  apart = λ i j a hi hj.
      r.apart i j a (owns-without t idx i a hash hi) (owns-without t idx j a hash hj);
}

-- An address that a chain goes through is allocated.
Points-allocated :
    (cells : ℕ → Option Cell) (head : Option ℕ) (l : Places) (a : ℕ)
    → Points cells head l
    → cells a ≡ none
    → owns a l ≡ false
Points-allocated cells head [] a c free = refl
Points-allocated cells head ((p, e) ∷ rest) a (here, fresh, (next, cell, tail)) free =
    elim (Bool-cases (p == a)) [
      | inl same ↦ absurd (ground (arith, ap cells ((==_iff p a).0 same)))
      | inr other ↦ ground (arith, Points-allocated cells next rest a tail free)
    ]

module _ (idx p : ℕ) (hash : List ℕ) (s : Store) (t : ℕ → Places) where
  -- The chains with the new cell.
  abbrev pub grown : ℕ → Places
  grown = update t idx ((p, hash) ∷ t idx)

  owns-grown : (i a : ℕ) → owns a (grown i) ≡ true → ((idx ≡ i) × (p ≡ a)) ⊎ (owns a (t i) ≡ true)
  owns-grown i a h = elim (Bool-cases (idx == i)) [
    | inl here ↦
        let e = (==_iff idx i).0 here in
        let h1 : (p == a || owns a (t idx)) ≡ true = simp here at h in
        elim (Bool-cases (p == a)) [
          | inl same ↦ inl (e, (==_iff p a).0 same)
          | inr different ↦ inr (rw (sym e) (ground (arith, h1, different)))
        ]
    | inr other ↦ inr (simp other at h)
  ]

  clash : (j a : ℕ) → owns p (t j) ≡ false → p ≡ a → owns a (t j) ≡ true → ⊥
  clash j a no_owner same own = ground (arith, ap (λ x. owns x (t j)) same)

  pub add_cell-Represents :
      Represents s t → s.cells p ≡ none → Represents (add_cell idx p hash s) grown
  unfolding add_cell
  add_cell-Represents r free =
      let outside = λ (i : ℕ). Points-allocated s.cells (s.table i) (t i) p (r.chains i) free in
      let kept = λ (i a : ℕ) (own : owns a (t i) ≡ true). owns_apart a p (t i) own (outside i) in
      record {
        chains = λ i. elim (Bool-cases (idx == i)) [
          | inl here ↦ simp here (
            refl,
            outside idx,
            (
              s.table idx,
              ground arith,
              Points-frame s.cells _ (s.table idx) (t idx) (λ a own. ground (arith, kept idx a own))
                  (r.chains idx),
            ),
          )
          | inr other ↦ simp other (
              Points-frame s.cells _ (s.table i) (t i) (λ a own. ground (arith, kept i a own))
                (r.chains i))
        ];
        apart = λ i j a hi hj. elim (owns-grown i a hi) [
          | inl (here, new) ↦ elim (owns-grown j a hj) [
            | inl (there, again) ↦ sym here ∙ there
            | inr old ↦ absurd (clash j a (outside j) new old)
          ]
          | inr mine ↦ elim (owns-grown j a hj) [
            | inl (there, new) ↦ absurd (clash i a (outside i) new mine)
            | inr old ↦ r.apart i j a mine old
          ]
        ];
      }

-- The table with other hashes in one chain.
abbrev pub with_chain : (ℕ → Places) → ℕ → Entries → ℕ → Entries
with_chain t idx chain i = if idx == i then chain else hashes (t i)

module _ (idx : ℕ) (hash : List ℕ) (s : Store) (t : ℕ → Places) (r : Represents s t) where
  -- In a store that holds chains without a common cell, with fuel for more steps than the chain has
  -- cells, the walks along a chain meet no freed memory and end. The lookup answers like
  -- `find_entry` on the list of the chain's hashes. The removal answers like it too, and leaves
  -- chains without a common cell, in which `unlink` has taken the hash out of that list. A new cell
  -- at an address that was free leaves such chains too, with the hash in front of that list.
  pub walks-refine :
      (fuel p : ℕ)
      → length (t idx) < fuel
      → s.cells p ≡ none
      → (find_cell fuel s.cells (s.table idx) hash ≡ done (find_entry hash (hashes (t idx))))
        × ((s' : Store) × (t' : ℕ → Places) × (remove_cell fuel idx none (s.table idx) hash s
              ≡ done (answer hash (t idx), s'))
            × Represents s' t'
            × ((i : ℕ) → hashes (t' i) ≡ with_chain t idx (unlink hash (hashes (t idx))) i))
        × ((t' : ℕ → Places) × Represents (add_cell idx p hash s) t'
            × ((i : ℕ) → hashes (t' i) ≡ with_chain t idx (hash ∷ hashes (t idx)) i))
  walks-refine fuel p enough free =
      let (s', run, w) = remove_cell-Whole fuel idx hash (t idx) s (r.chains idx) enough in
      (
        find_cell-find_entry fuel s.cells (s.table idx) hash (t idx) (r.chains idx) enough,
        (
          s',
          update t idx (removed hash (t idx)),
          run,
          Whole-Represents hash idx s s' t r w,
          λ i. ground (arith, hashes-removed hash (t idx)),
        ),
        (grown idx p hash s t, add_cell-Represents idx p hash s t r free, λ i. ground arith),
      )
