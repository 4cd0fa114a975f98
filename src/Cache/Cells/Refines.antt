-- ===== src/Cache/Cells/Refines.antt =====
-- The chains of src/daemon/whitelist_cache.c in the store, and the lookup's walk along one of them.
use linux_anti_executable.Base.{
  ℕ, zero, suc, ◌<◌, ◌≡◌, ◌∙◌, ap, refl, Bool, true, false, ◌||◌, Option, none, some, List, [], ◌∷◌,
  ◌==◌, arith, if◌then◌else◌, length, same_bytes, Bool-cases, inl, inr, ==_iff,
}
use linux_anti_executable.Cache.Chain.{Entries, find_entry, unlink}
use linux_anti_executable.Cache.Cells.{Cell, done, find_cell}

-- The cells of a chain: their addresses and hashes.
abbrev pub Places : Type 0
Places = List (ℕ × List ℕ)

abbrev pub hashes : Places → Entries
hashes [] = []
hashes ((p, hash) ∷ rest) = hash ∷ hashes rest

abbrev pub owns : ℕ → Places → Bool
owns a [] = false
owns a ((p, hash) ∷ rest) = p == a || owns a rest

-- A pointer leads along these cells to NULL, and through no cell twice.
abbrev pub Points : (ℕ → Option Cell) → Option ℕ → Places → Type 0
Points cells head [] = head ≡ none
Points cells head ((p, hash) ∷ rest) =
    (head ≡ some p)
    × (owns p rest ≡ false)
    × ((next : Option ℕ) × (cells p ≡ some (record { hash = hash; next = next }))
        × Points cells next rest)

-- The cell with this hash is taken out.
unfoldable pub removed : List ℕ → Places → Places
removed hash [] = []
removed hash ((p, e) ∷ rest) = if same_bytes e hash then rest else (p, e) ∷ removed hash rest

pub hashes-removed : (hash : List ℕ) (l : Places) → hashes (removed hash l) ≡ unlink hash (hashes l)
unfolding removed unlink
hashes-removed hash [] = refl
hashes-removed hash ((p, e) ∷ rest) = ground (arith, hashes-removed hash rest)

pub owns-removed :
    (a : ℕ) (hash : List ℕ) (l : Places) → owns a l ≡ false → owns a (removed hash l) ≡ false
unfolding removed
owns-removed a hash [] h = refl
owns-removed a hash ((p, e) ∷ rest) h = ground (arith, owns-removed a hash rest (ground arith))

-- Only the chain's own cells matter.
pub Points-frame :
    (cells other : ℕ → Option Cell) (head : Option ℕ) (l : Places)
    → ((a : ℕ) → owns a l ≡ true → other a ≡ cells a)
    → Points cells head l
    → Points other head l
Points-frame cells other head [] same h = h
Points-frame cells other head ((p, e) ∷ rest) same (here, fresh, (next, cell, tail)) = (
  here,
  fresh,
  (
    next,
    same p (ground arith) ∙ cell,
    Points-frame cells other next rest (λ a o. same a (ground arith)) tail,
  ),
)

found_here :
    (e hash : List ℕ) (rest : Entries)
    → (if same_bytes e hash then done true else done (find_entry hash rest))
      ≡ done (same_bytes e hash || find_entry hash rest)
found_here e hash rest = ground arith

pub find_cell-find_entry :
    (fuel : ℕ) (cells : ℕ → Option Cell) (head : Option ℕ) (hash : List ℕ) (l : Places)
    → Points cells head l
    → length l < fuel
    → find_cell fuel cells head hash ≡ done (find_entry hash (hashes l))
unfolding find_cell find_entry
find_cell-find_entry zero cells head hash l c f = absurd (omega arith)
find_cell-find_entry (suc fuel) cells head hash [] c f = rw c refl
find_cell-find_entry (suc fuel) cells head hash ((p, e) ∷ rest) (here, fresh, (next, cell, tail))
      f =
    ground (arith, here, cell, find_cell-find_entry fuel cells next hash rest tail (omega arith))

pub owns_apart : (a b : ℕ) (l : Places) → owns a l ≡ true → owns b l ≡ false → (b == a) ≡ false
owns_apart a b l h k = elim (Bool-cases (b == a)) [
  | inl same ↦ absurd (ground (arith, ap (λ x. owns x l) ((==_iff b a).0 same)))
  | inr other ↦ other
]
