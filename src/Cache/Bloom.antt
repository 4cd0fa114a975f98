-- ===== src/Cache/Bloom.antt =====
-- The bloom filter of src/daemon/whitelist_cache.c: `bloom_hashes`, `bloom_add`, `bloom_check`.
-- The bitmap is a function from the byte's index; the daemon's hosts are little-endian, so the
-- `memcpy` of four bytes reads the lowest first.
use Prim.Native.Nat.{bit_and, bit_or, bit_xor}
use linux_anti_executable.Base.{
  ℕ, ◌+◌, ◌*◌, ◌/◌, ◌%◌, ◌^◌, ◌<◌, ◌≡◌, refl, Bool, true, false, not, ◌&&◌, ◌||◌, List, [], ◌∷◌,
  arith, ◌==◌, passes_below, passes_below_at, get_or, update, All,
}

-- `BLOOM_SIZE_BITS` and `BLOOM_SIZE_BYTES`
abbrev pub bloom_size_bits : ℕ
bloom_size_bits = 64 * 1024 * 8

abbrev pub bloom_size_bytes : ℕ
bloom_size_bytes = 65536

abbrev pub Bitmap : Type 0
Bitmap = ℕ → ℕ

load_u32 : List ℕ → ℕ → ℕ
load_u32 hash offset =
    get_or hash offset 0
    + 256 * get_or hash (offset + 1) 0
    + 65536 * get_or hash (offset + 2) 0
    + 16777216 * get_or hash (offset + 3) 0

-- One round of the loop of `bloom_hashes`.
bloom_hash : List ℕ → ℕ → ℕ
unfolding load_u32
bloom_hash hash i =
    let h = load_u32 hash (i * 4 % 32) in
    let h1 = bit_xor h (h / 2 ^ 16) in
    let h2 = h1 * 0x85ebca6b % 2 ^ 32 in let h3 = bit_xor h2 (h2 / 2 ^ 13) in h3 % bloom_size_bits

unfoldable pub bloom_hashes : List ℕ → List ℕ
unfolding bloom_hash
bloom_hashes hash =
    bloom_hash hash 0
    ∷ bloom_hash hash 1
    ∷ bloom_hash hash 2
    ∷ bloom_hash hash 3
    ∷ bloom_hash hash 4
    ∷ bloom_hash hash 5
    ∷ bloom_hash hash 6
    ∷ []

-- `bloom[i / 8] |= (1 << (i % 8))`, stored back to a byte
pub set_bit : Bitmap → ℕ → Bitmap
set_bit bloom i = update bloom (i / 8) (bit_or (bloom (i / 8)) (2 ^ (i % 8)) % 256)

-- `bloom[i / 8] & (1 << (i % 8))`, as a condition
pub test_bit : Bitmap → ℕ → Bool
test_bit bloom i = not (bit_and (bloom (i / 8)) (2 ^ (i % 8)) == 0)

pub set_bits : Bitmap → List ℕ → Bitmap
unfolding set_bit
set_bits bloom [] = bloom
set_bits bloom (i ∷ is) = set_bits (set_bit bloom i) is

pub test_bits : Bitmap → List ℕ → Bool
unfolding test_bit
test_bits bloom [] = true
test_bits bloom (i ∷ is) = test_bit bloom i && test_bits bloom is

unfoldable pub bloom_add : Bitmap → List ℕ → Bitmap
unfolding set_bits
bloom_add bloom hash = set_bits bloom (bloom_hashes hash)

unfoldable pub bloom_check : Bitmap → List ℕ → Bool
unfolding test_bits
bloom_check bloom hash = test_bits bloom (bloom_hashes hash)

abbrev pub IsBytes : Bitmap → Type 0
IsBytes bloom = (i : ℕ) → bloom i < 256

-- Facts about one byte, checked at every byte and every pair of bits.
agree : Bool → Bool → Bool
agree true b = b
agree false b = not b

agree-eq : (a b : Bool) → agree a b ≡ true → a ≡ b
unfolding agree
agree-eq a b h = ground arith

keeps : ℕ → ℕ → ℕ → Bool
unfolding agree
keeps x k j =
    agree (not (bit_and (bit_or x (2 ^ k) % 256) (2 ^ j) == 0))
      (k == j || not (bit_and x (2 ^ j) == 0))

-- The same for every bit that is read, for every bit that is written, and for every byte.
keeps_bits : ℕ → ℕ → Bool
keeps_bits x k = passes_below (keeps x k) 8

keeps_byte : ℕ → Bool
unfolding keeps_bits
keeps_byte x = passes_below (keeps_bits x) 8

keeps_table : passes_below keeps_byte 256 ≡ true
unfolding passes_below keeps_byte keeps
keeps_table = refl

byte_bit :
    (x k j : ℕ)
    → x < 256
    → k < 8
    → j < 8
    → not (bit_and (bit_or x (2 ^ k) % 256) (2 ^ j) == 0) ≡ (k == j || not (bit_and x (2 ^ j) == 0))
unfolding keeps keeps_bits keeps_byte
byte_bit x k j hx hk hj =
    let of_byte = passes_below_at keeps_byte 256 keeps_table x hx in
    let of_bit = passes_below_at (keeps_bits x) 8 of_byte k hk in
    agree-eq _ _ (passes_below_at (keeps x k) 8 of_bit j hj)

no_bits : ℕ → Bool
no_bits k = bit_and 0 (2 ^ k) == 0

no_bits_table : passes_below no_bits 8 ≡ true
unfolding passes_below no_bits
no_bits_table = refl

zero_byte : (j : ℕ) → j < 8 → (bit_and 0 (2 ^ j) == 0) ≡ true
unfolding no_bits
zero_byte j h = passes_below_at no_bits 8 no_bits_table j h

pub set_bit-IsBytes : (bloom : Bitmap) (i : ℕ) → IsBytes bloom → IsBytes (set_bit bloom i)
unfolding set_bit
set_bit-IsBytes bloom i h j = ground (arith, h j)

-- In a bitmap of bytes a bit reads as set after `set_bit` exactly when it is the one that was written or was set.
pub test_bit-set_bit :
    (bloom : Bitmap) (i j : ℕ)
    → IsBytes bloom
    → test_bit (set_bit bloom i) j ≡ (i == j || test_bit bloom j)
unfolding set_bit test_bit
test_bit-set_bit bloom i j h = ground (arith, byte_bit (bloom (i / 8)) (i % 8) (j % 8) (h (i / 8)))

test_bits-set_bit :
    (bloom : Bitmap) (i : ℕ) (js : List ℕ)
    → IsBytes bloom
    → test_bits bloom js ≡ true
    → test_bits (set_bit bloom i) js ≡ true
unfolding test_bits
test_bits-set_bit bloom i [] h t = refl
test_bits-set_bit bloom i (j ∷ js) h t =
    ground (arith, test_bit-set_bit bloom i j h, test_bits-set_bit bloom i js h)

pub set_bits-IsBytes : (bloom : Bitmap) (is : List ℕ) → IsBytes bloom → IsBytes (set_bits bloom is)
unfolding set_bits
set_bits-IsBytes bloom [] h = h
set_bits-IsBytes bloom (i ∷ is) h =
    set_bits-IsBytes (set_bit bloom i) is (set_bit-IsBytes bloom i h)

test_bits-set_bits_mono :
    (bloom : Bitmap) (is js : List ℕ)
    → IsBytes bloom
    → test_bits bloom js ≡ true
    → test_bits (set_bits bloom is) js ≡ true
unfolding set_bits
test_bits-set_bits_mono bloom [] js h t = t
test_bits-set_bits_mono bloom (i ∷ is) js h t =
    test_bits-set_bits_mono (set_bit bloom i) is js (set_bit-IsBytes bloom i h)
      (test_bits-set_bit bloom i js h t)

test_bits-set_bits_one :
    (bloom : Bitmap) (is : List ℕ) (j : ℕ)
    → IsBytes bloom
    → test_bit bloom j ≡ true
    → test_bit (set_bits bloom is) j ≡ true
unfolding test_bits
test_bits-set_bits_one bloom is j h t = ground (arith, test_bits-set_bits_mono bloom is (j ∷ []) h)

test_bits-set_bits_self :
    (bloom : Bitmap) (is : List ℕ) → IsBytes bloom → test_bits (set_bits bloom is) is ≡ true
unfolding set_bits test_bits
test_bits-set_bits_self bloom [] h = refl
test_bits-set_bits_self bloom (i ∷ is) h =
    let kept = set_bit-IsBytes bloom i h in
    ground (
      arith,
      test_bits-set_bits_self (set_bit bloom i) is kept,
      test_bits-set_bits_one (set_bit bloom i) is i kept,
      test_bit-set_bit bloom i i h,
    )

pub bloom_add-IsBytes :
    (bloom : Bitmap) (hash : List ℕ) → IsBytes bloom → IsBytes (bloom_add bloom hash)
unfolding bloom_add
bloom_add-IsBytes bloom hash h = set_bits-IsBytes bloom (bloom_hashes hash) h

-- Whatever bytes the filter held before, it lets a hash through after it was added.
pub bloom_check-bloom_add :
    (bloom : Bitmap) (hash : List ℕ)
    → IsBytes bloom
    → bloom_check (bloom_add bloom hash) hash ≡ true
unfolding bloom_check bloom_add
bloom_check-bloom_add bloom hash h = test_bits-set_bits_self bloom (bloom_hashes hash) h

-- A hash that the filter lets through is let through after another one was added.
pub bloom_check-bloom_add_mono :
    (bloom : Bitmap) (added hash : List ℕ)
    → IsBytes bloom
    → bloom_check bloom hash ≡ true
    → bloom_check (bloom_add bloom added) hash ≡ true
unfolding bloom_check bloom_add
bloom_check-bloom_add_mono bloom added hash h t =
    test_bits-set_bits_mono bloom (bloom_hashes added) (bloom_hashes hash) h t

-- Every index stays inside the bitmap that `cache_init` allocates.
pub bloom_hashes-InRange : (hash : List ℕ) → All (λ i. i / 8 < bloom_size_bytes) (bloom_hashes hash)
unfolding bloom_hashes
bloom_hashes-InRange hash = omega arith

-- A cleared bitmap rejects every hash.
pub bloom_check-zero : (hash : List ℕ) → bloom_check (λ _. 0) hash ≡ false
unfolding bloom_check bloom_hashes test_bits
bloom_check-zero hash = ground (arith, zero_byte (bloom_hash hash 0 % 8))
