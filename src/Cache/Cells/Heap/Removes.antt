-- ===== src/Cache/Cells/Heap/Removes.antt =====
-- `cache_remove` of src/daemon/whitelist_cache.c on the cells does what it does on the lists.
use linux_anti_executable.Base.{
  ℕ, ◌<◌, ◌≤◌, ◌≡◌, ◌≢◌, ◌∙◌, ap, refl, true, false, ◌&&◌, none, List, [], ◌∷◌, ◌==◌, arith, length,
  update, Bool-cases, inl, inr, fun_ext, ==_iff,
}
use linux_anti_executable.Hash.Hex.{Libc, hex_to_bytes}
use linux_anti_executable.Cache.Chain.{Entries, hash_to_index, hash_to_index-lt, find_entry, unlink}
use linux_anti_executable.Cache.{hash_hex_len, cache_remove}
use linux_anti_executable.Cache.Cells.{Store}
use linux_anti_executable.Cache.Cells.Refines.{Places, hashes, owns, removed, hashes-removed}
use linux_anti_executable.Cache.Cells.Removal.{Whole, remove_cell-Whole}
use linux_anti_executable.Cache.Cells.Table.{Whole-Represents}
use linux_anti_executable.Cache.Cells.Heap.{Heap, heap_remove}
use linux_anti_executable.Cache.Cells.Heap.Steps.{
  chains, Held, heap_of, lists, Refined, cache_of-heap_of, unchanged,
}

unlink_absent : (hash : List ℕ) (c : Entries) → find_entry hash c ≡ false → unlink hash c ≡ c
unfolding find_entry unlink
unlink_absent hash [] h = refl
unlink_absent hash (entry ∷ next) h = ground (arith, h, unlink_absent hash next)

length-removed : (hash : List ℕ) (l : Places) → length (removed hash l) ≤ length l
unfolding removed
length-removed hash [] = omega arith
length-removed hash ((p, e) ∷ rest) = ground (arith, length-removed hash rest)

module _ ⦃libc : Libc⦄ (fuel : ℕ) (h : Heap) (t : ℕ → Places) (held : Held h t)
    (enough : (i : ℕ) → length (t i) < fuel) where
  -- A cell that is allocated after the walk was in its chain before and was not taken out of it.
  removed_owned :
      (hash : List ℕ) (idx : ℕ) (s' : Store)
      → idx < h.table_size
      → Whole hash idx (t idx) h.store s'
      → (a : ℕ) → s'.cells a ≢ none
      → (i : ℕ) × (i < h.table_size) × (owns a (update t idx (removed hash (t idx)) i) ≡ true)
  removed_owned hash idx s' low_idx whole a there =
      elim (Bool-cases (owns a (removed hash (t idx)))) [
        | inl stays ↦ (idx, low_idx, ground (arith, stays))
        | inr gone ↦ elim (Bool-cases (owns a (t idx))) [
          | inl was ↦ absurd (there (whole.gone a was gone))
          | inr other ↦
              let (i, low, own) =
                held.owned a (λ none_there. there (whole.others a other ∙ none_there)) in
              (i, low, elsewhere i own other)
        ]
      ]
    where
      elsewhere :
          (i : ℕ)
          → owns a (t i) ≡ true
          → owns a (t idx) ≡ false
          → owns a (update t idx (removed hash (t idx)) i) ≡ true
      elsewhere i own other = elim (Bool-cases (idx == i)) [
        | inl here ↦
            absurd (ground (arith, own, other, ap (λ k. owns a (t k)) ((==_iff idx i).0 here)))
        | inr apart ↦ ground (arith, own, apart)
      ]

  pub heap_remove-Refined :
      (hex : List ℕ)
      → Refined
          (heap_remove fuel hex h)
          (cache_remove hex (lists h t)).0
          (cache_remove hex (lists h t)).1
          t
  unfolding heap_remove cache_remove
  heap_remove-Refined hex =
      let hash = hex_to_bytes hex in
      let idx = hash_to_index hash h.table_size in
      let low = hash_to_index-lt hash h.table_size held.sized in
      let (s', ran, whole) =
        remove_cell-Whole fuel idx hash (t idx) h.store (held.represents.chains idx) (enough idx) in
      let c = (cache_remove hex (lists h t)).1 in
      let size : c.table_size ≡ h.table_size = ground arith in
      let places = update t idx (removed hash (t idx)) in
      elim (Bool-cases (h.initialized && length hex == hash_hex_len)) [
        | inr unusable ↦
            unchanged fuel h t held enough (heap_remove fuel hex h) (cache_remove hex (lists h t)).0
              c (ground (arith, unusable)) (ground (arith, unusable)) (ground (arith, unusable))
        | inl usable ↦ record {
          heap = heap_of s' c;
          places = places;
          run = ground (arith, usable, ran);
          same = cache_of-heap_of s' c (chains places) (
              fun_ext (λ i. ground (
                arith,
                usable,
                hashes-removed hash (t idx),
                unlink_absent hash (hashes (t idx)),
                (==_iff idx i).0,
                ap (λ k. hashes (t k)),
              )));
          held = record {
            represents = Whole-Represents hash idx h.store s' t held.represents whole;
            sized = rw size held.sized;
            owned = rw size (removed_owned hash idx s' low whole);
          };
          grows = λ i. ground (arith, length-removed hash (t i), length-removed hash (t idx));
        }
      ]
