-- ===== src/Cache/Chain.antt =====
-- One chain of the hash table of src/daemon/whitelist_cache.c, and the table's index function.
-- A `hash_entry_t` is the 32 bytes of its hash; the list that `next` links is a list.
use Prim.Native.Nat.{bit_xor}
use linux_anti_executable.Base.{
  ℕ, zero, suc, ◌+◌, ◌*◌, ◌%◌, ◌^◌, ◌<◌, ◌≤◌, ◌≡◌, refl, Bool, true, false, not, ◌&&◌, ◌||◌, List,
  [], ◌∷◌, arith, if◌then◌else◌, length, update, same_bytes, same_bytes_refl, same_bytes-eq,
  same_bytes_symm,
}

-- The rounds of the FNV-1a loop, and the value of `h` so far.
fnv_loop : List ℕ → ℕ → ℕ
fnv_loop [] h = h
fnv_loop (b ∷ bs) h = fnv_loop bs (bit_xor h b * 16777619 % 2 ^ 32)

unfoldable pub hash_to_index : List ℕ → ℕ → ℕ
unfolding fnv_loop
hash_to_index hash table_size = fnv_loop hash 2166136261 % table_size

pub hash_to_index-lt : (hash : List ℕ) (n : ℕ) → 0 < n → hash_to_index hash n < n
unfolding hash_to_index
hash_to_index-lt hash n h = omega arith

abbrev pub Entries : Type 0
Entries = List (List ℕ)

-- The walk along a chain that stops at an entry with this hash.
unfoldable pub find_entry : List ℕ → Entries → Bool
find_entry hash [] = false
find_entry hash (entry ∷ next) = same_bytes entry hash || find_entry hash next

-- The walk of `cache_remove`: the entry with this hash is unlinked from the one before it.
unfoldable pub unlink : List ℕ → Entries → Entries
unlink hash [] = []
unlink hash (entry ∷ next) = if same_bytes entry hash then next else entry ∷ unlink hash next

-- No hash stands in a chain twice.
abbrev pub IsDistinct : Entries → Type 0
IsDistinct [] = Unit {0}
IsDistinct (entry ∷ next) = (find_entry entry next ≡ false) × IsDistinct next

pub find_entry_congr :
    (a b : List ℕ) (c : Entries) → same_bytes a b ≡ true → find_entry a c ≡ find_entry b c
find_entry_congr a b c h = rw (same_bytes-eq a b h)

pub find_entry-unlink :
    (h q : List ℕ) (c : Entries)
    → IsDistinct c
    → find_entry q (unlink h c) ≡ (not (same_bytes h q) && find_entry q c)
unfolding find_entry unlink
find_entry-unlink h q [] d = ground arith
find_entry-unlink h q (e ∷ c) d = ground (
  arith,
  find_entry-unlink h q c d.1,
  find_entry_congr e q c,
  same_bytes_symm h q,
  same_bytes_symm e q,
  same_bytes-eq e h,
  same_bytes-eq h q,
  same_bytes-eq e q,
  same_bytes_refl q,
)

pub unlink-IsDistinct : (h : List ℕ) (c : Entries) → IsDistinct c → IsDistinct (unlink h c)
unfolding unlink
unlink-IsDistinct h [] d = tt
unlink-IsDistinct h (e ∷ c) d =
    ground (arith, unlink-IsDistinct h c d.1, find_entry-unlink h e c d.1)

pub length-unlink :
    (h : List ℕ) (c : Entries) → find_entry h c ≡ true → length (unlink h c) + 1 ≡ length c
unfolding find_entry unlink
length-unlink h [] f = cc
length-unlink h (e ∷ c) f = ground (arith, length-unlink h c)

-- The entries in the first `n` chains of a table.
pub total : ℕ → (ℕ → Entries) → ℕ
total zero t = 0
total (suc n) t = total n t + length (t n)

total-update_above :
    (n : ℕ) (t : ℕ → Entries) (i : ℕ) (c : Entries) → n ≤ i → total n (update t i c) ≡ total n t
unfolding total
total-update_above zero t i c h = refl
total-update_above (suc n) t i c h = ground (arith, total-update_above n t i c)

pub total-update :
    (n : ℕ) (t : ℕ → Entries) (i : ℕ) (c : Entries)
    → i < n
    → total n (update t i c) + length (t i) ≡ total n t + length c
unfolding total
total-update zero t i c h = absurd (omega arith)
total-update (suc n) t i c h = ground (arith, total-update n t i c, total-update_above n t i c)

pub total_empty : (n : ℕ) (t : ℕ → Entries) → ((i : ℕ) → i < n → t i ≡ []) → total n t ≡ 0
unfolding total
total_empty zero t h = refl
total_empty (suc n) t h = rw (h n (omega arith), total_empty n t (λ i p. h i (omega arith)))

pub length-le-total : (n : ℕ) (t : ℕ → Entries) (i : ℕ) → i < n → length (t i) ≤ total n t
unfolding total
length-le-total zero t i h = absurd (omega arith)
length-le-total (suc n) t i h = ground (arith, length-le-total n t i)
