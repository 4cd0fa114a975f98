-- ===== src/Cache/Cells/Removal.antt =====
-- The walk of `cache_remove` of src/daemon/whitelist_cache.c along a chain in the store.
use linux_anti_executable.Base.{
  ℕ, zero, suc, ◌<◌, ◌≡◌, ◌∙◌, ap, refl, true, false, Option, none, some, List, [], ◌∷◌, ◌==◌,
  arith, if◌then◌else◌, ℤ, pos, minus_one, length, update, same_bytes, Bool-cases, inl, inr,
  ==_refl,
}
use linux_anti_executable.Cache.Chain.{find_entry}
use linux_anti_executable.Cache.Cells.{Store, done, set_next, free, remove_cell}
use linux_anti_executable.Cache.Cells.Refines.{
  Places, hashes, owns, Points, removed, owns-removed, owns_apart, Points-frame,
}

-- The answer of `cache_remove`.
abbrev pub answer : List ℕ → Places → ℤ
answer hash l = if find_entry hash (hashes l) then pos 0 else minus_one

-- The rest of a chain behind a cell after the walk: without the cell of the hash, and nothing else
-- is written.
record After (hash : List ℕ) (q : ℕ) (d : List ℕ) (rest : Places) (s s' : Store) : Type 0 where
  points : Points s'.cells (some q) ((q, d) ∷ removed hash rest)
  table : s'.table ≡ s.table
  others : (a : ℕ) → owns a ((q, d) ∷ rest) ≡ false → s'.cells a ≡ s.cells a
  gone : (a : ℕ) → owns a rest ≡ true → owns a (removed hash rest) ≡ false → s'.cells a ≡ none

-- The cell behind `q` is taken out.
taken_out : ℕ → List ℕ → ℕ → Option ℕ → Store → Store
taken_out q d p next s = record s {
  cells = update (update s.cells q (some (record { hash = d; next = next }))) p none;
}

remove_cell-hit :
    (fuel idx : ℕ) (prev entry : Option ℕ) (p : ℕ) (e : List ℕ) (next : Option ℕ) (hash : List ℕ)
    (s : Store)
    → entry ≡ some p
    → s.cells p ≡ some (record { hash = e; next = next })
    → same_bytes e hash ≡ true
    → remove_cell (suc fuel) idx prev entry hash s ≡ free p (set_next idx prev next s)
unfolding remove_cell
remove_cell-hit fuel idx prev entry p e next hash s here there hit =
    ground (arith, here, there, hit)

set_next-some :
    (idx q : ℕ) (d : List ℕ) (old next : Option ℕ) (s : Store)
    → s.cells q ≡ some (record { hash = d; next = old })
    → set_next idx (some q) next s
      ≡ done (record s { cells = update s.cells q (some (record { hash = d; next = next })) })
unfolding set_next
set_next-some idx q d old next s cell = ground (arith, cell)

unlinked :
    (hash : List ℕ) (q p : ℕ) (d e : List ℕ) (rest : Places) (next : Option ℕ) (s : Store)
    → owns q ((p, e) ∷ rest) ≡ false
    → owns p rest ≡ false
    → Points s.cells next rest
    → same_bytes e hash ≡ true
    → After hash q d ((p, e) ∷ rest) s (taken_out q d p next s)
unfolding removed taken_out
unlinked hash q p d e rest next s apart fresh tail hit = record {
  points = (
    refl,
    ground (arith, apart),
    (
      next,
      ground (arith, apart),
      simp hit (
          Points-frame s.cells _ next rest
            (λ a own. ground (
              arith,
              owns_apart a p rest own fresh,
              owns_apart a q rest own (ground (arith, apart)),
            ))
            tail),
    ),
  );
  table = refl;
  others = λ a other. ground (arith, other);
  gone = λ a own out. ground (arith, own, out, hit);
}

remove_cell-After :
    (fuel idx q : ℕ) (d hash : List ℕ) (next : Option ℕ) (rest : Places) (s : Store)
    → owns q rest ≡ false
    → s.cells q ≡ some (record { hash = d; next = next })
    → Points s.cells next rest
    → length rest < fuel
    → (s' : Store) × (remove_cell fuel idx (some q) next hash s ≡ done (answer hash rest, s'))
      × After hash q d rest s s'
unfolding remove_cell free find_entry removed taken_out
remove_cell-After zero idx q d hash next rest s apart cell tail f = absurd (omega arith)
remove_cell-After (suc fuel) idx q d hash next [] s apart cell tail f = (
  s,
  rw tail refl,
  record {
    points = (refl, refl, (next, cell, tail));
    table = refl;
    others = λ a other. refl;
    gone = λ a own out. cc;
  },
)
remove_cell-After (suc fuel) idx q d hash next ((p, e) ∷ rest) s apart cell
      (here, fresh, (after, there, tail)) f =
    elim (Bool-cases (same_bytes e hash)) [
      | inl hit ↦ (
        taken_out q d p after s,
        remove_cell-hit fuel idx (some q) next p e after hash s here there hit
            ∙ ap (free p) (set_next-some idx q d next after s cell)
            ∙ ap (λ status. done (status, taken_out q d p after s)) (ground (arith, hit)),
        unlinked hash q p d e rest after s apart fresh tail hit,
      )
      | inr miss ↦
          let (s', run, a) =
            remove_cell-After fuel idx p e hash after rest s fresh there tail (omega arith) in
          (
            s',
            ground (arith, here, there, run, miss),
            record {
              points = (
                refl,
                owns-removed q hash ((p, e) ∷ rest) apart,
                (
                  some p,
                  a.others q apart ∙ cell ∙ ap (λ n. some (record { hash = d; next = n })) here,
                  simp miss a.points,
                ),
              );
              table = a.table;
              others = λ x other. a.others x (ground arith);
              gone = λ x own out.
                  a.gone x (ground (arith, own, out, miss)) (ground (arith, out, miss));
            },
          )
    ]

-- A chain after the walk from its head: without the cell of the hash, and nothing else is written.
pub record Whole (hash : List ℕ) (idx : ℕ) (l : Places) (s s' : Store) : Type 0 where
  pub points : Points s'.cells (s'.table idx) (removed hash l)
  pub table : (j : ℕ) → (idx == j) ≡ false → s'.table j ≡ s.table j
  pub others : (a : ℕ) → owns a l ≡ false → s'.cells a ≡ s.cells a
  pub gone : (a : ℕ) → owns a l ≡ true → owns a (removed hash l) ≡ false → s'.cells a ≡ none

-- The first cell of a chain is taken out.
first_out : ℕ → ℕ → Option ℕ → Store → Store
first_out idx p next s = record s { cells = update s.cells p none; table = update s.table idx next }

first_out-Whole :
    (idx p : ℕ) (e hash : List ℕ) (rest : Places) (next : Option ℕ) (s : Store)
    → owns p rest ≡ false
    → Points s.cells next rest
    → same_bytes e hash ≡ true
    → Whole hash idx ((p, e) ∷ rest) s (first_out idx p next s)
unfolding first_out removed
first_out-Whole idx p e hash rest next s fresh tail hit = record {
  points =
      simp (hit, ==_refl idx)
        (Points-frame s.cells _ next rest (λ a own. ground (arith, owns_apart a p rest own fresh))
          tail);
  table = λ j other. ground (arith, other);
  others = λ a other. ground (arith, other);
  gone = λ a own out. ground (arith, own, out, hit);
}

pub remove_cell-Whole :
    (fuel idx : ℕ) (hash : List ℕ) (l : Places) (s : Store)
    → Points s.cells (s.table idx) l
    → length l < fuel
    → (s' : Store) × (remove_cell fuel idx none (s.table idx) hash s ≡ done (answer hash l, s'))
      × Whole hash idx l s s'
unfolding remove_cell set_next free find_entry removed first_out
remove_cell-Whole zero idx hash l s c f = absurd (omega arith)
remove_cell-Whole (suc fuel) idx hash [] s c f = (
  s,
  rw c refl,
  record { points = c; table = λ j other. refl; others = λ a other. refl; gone = λ a own out. cc },
)
remove_cell-Whole (suc fuel) idx hash ((p, e) ∷ rest) s (here, fresh, (next, there, tail)) f =
    elim (Bool-cases (same_bytes e hash)) [
      | inl hit ↦ (
        first_out idx p next s,
        remove_cell-hit fuel idx none (s.table idx) p e next hash s here there hit
            ∙ ap (λ status. done (status, first_out idx p next s)) (ground (arith, hit)),
        first_out-Whole idx p e hash rest next s fresh tail hit,
      )
      | inr miss ↦
          let (s', run, a) =
            remove_cell-After fuel idx p e hash next rest s fresh there tail (omega arith) in
          (
            s',
            ground (arith, here, there, run, miss),
            record {
              points = rw (a.table, here) (simp miss a.points);
              table = λ j other. rw a.table refl;
              others = a.others;
              gone = λ x own out.
                  a.gone x (ground (arith, own, out, miss)) (ground (arith, out, miss));
            },
          )
    ]
