-- ===== src/Hash/Hex.antt =====
-- Hexadecimal text: `bytes_to_hex` of src/common/hash.c and the decoder `hex_to_bytes` of
-- src/daemon/whitelist_cache.c. Text is the list of its bytes, without the closing zero.
use linux_anti_executable.Base.{
  ℕ, zero, suc, ◌+◌, ◌-◌, ◌*◌, ◌/◌, ◌%◌, ◌<◌, ◌≡◌, refl, ap, Bool, true, false, ◌&&◌, Option, none,
  some, List, [], ◌∷◌, arith, leb, ◌==◌, if◌then◌else◌, passes_below, passes_below_at, length,
  get_or, drop, All,
}

-- What `sscanf(text, "%2x", &val)` leaves in `val` where the text does not begin with two
-- hexadecimal digits: the value of one digit, a signed or spaced one, or the old contents.
pub record Libc : Type 0 where
  pub scan_other : List ℕ → ℕ

abbrev hex_chars : List ℕ
hex_chars =
    b'0' ∷ b'1' ∷ b'2' ∷ b'3' ∷ b'4' ∷ b'5' ∷ b'6' ∷ b'7' ∷ b'8' ∷ b'9' ∷ b'a' ∷ b'b' ∷ b'c' ∷ b'd'
    ∷ b'e' ∷ b'f' ∷ []

-- The loop over the bytes; it writes two characters for each.
unfoldable pub bytes_to_hex : List ℕ → List ℕ
bytes_to_hex [] = []
bytes_to_hex (b ∷ bs) =
    get_or hex_chars (b / 16 % 16) 0 ∷ get_or hex_chars (b % 16) 0 ∷ bytes_to_hex bs

abbrev hash_bytes : ℕ
hash_bytes = 32

-- A digit of `%x`.
hex_digit : ℕ → Option ℕ
hex_digit c =
    if leb b'0' c && leb c b'9'
    then some (c - b'0')
    else if leb b'a' c && leb c b'f'
    then some (c - b'a' + 10)
    else if leb b'A' c && leb c b'F'
    then some (c - b'A' + 10)
    else none

pair_value : Option ℕ → Option ℕ → ℕ → ℕ
pair_value (some a) (some b) other = a * 16 + b
pair_value _ _ other = other

module _ ⦃libc : Libc⦄ where
  -- `sscanf(text, "%2x", &val)`
  scan_2x : List ℕ → ℕ
  scan_2x (a ∷ b ∷ rest) = pair_value (hex_digit a) (hex_digit b) (libc.scan_other (a ∷ b ∷ rest))
  scan_2x text = libc.scan_other text

  -- The rounds of the loop that are left, and `hex + (i * 2)`.
  hex_to_bytes_loop : ℕ → List ℕ → List ℕ
  hex_to_bytes_loop zero hex = []
  hex_to_bytes_loop (suc n) hex = (scan_2x hex % 256) ∷ hex_to_bytes_loop n (drop 2 hex)

  unfoldable pub hex_to_bytes : List ℕ → List ℕ
  unfolding hex_to_bytes_loop scan_2x pair_value hex_digit
  hex_to_bytes hex = hex_to_bytes_loop hash_bytes hex

  hex_to_bytes_loop-length : (n : ℕ) (hex : List ℕ) → length (hex_to_bytes_loop n hex) ≡ n
  unfolding hex_to_bytes_loop
  hex_to_bytes_loop-length zero hex = refl
  hex_to_bytes_loop-length (suc n) hex = ap suc (hex_to_bytes_loop-length n (drop 2 hex))

  -- The decoder always fills the whole buffer.
  pub length-hex_to_bytes : (hex : List ℕ) → length (hex_to_bytes hex) ≡ 32
  unfolding hex_to_bytes
  length-hex_to_bytes hex = hex_to_bytes_loop-length 32 hex

  hex_to_bytes_loop-All : (n : ℕ) (hex : List ℕ) → All (λ b. b < 256) (hex_to_bytes_loop n hex)
  unfolding hex_to_bytes_loop
  hex_to_bytes_loop-All zero hex = tt
  hex_to_bytes_loop-All (suc n) hex = (omega arith, hex_to_bytes_loop-All n (drop 2 hex))

  pub hex_to_bytes-All : (hex : List ℕ) → All (λ b. b < 256) (hex_to_bytes hex)
  unfolding hex_to_bytes
  hex_to_bytes-All hex = hex_to_bytes_loop-All 32 hex

is_digit_of : ℕ → Bool
is_digit_of n = same (hex_digit (get_or hex_chars n 0))
  where
    same : Option ℕ → Bool
    same none = false
    same (some d) = d == n

digit_table : passes_below is_digit_of 16 ≡ true
unfolding passes_below is_digit_of hex_digit
digit_table = refl

hex_digit-hex_chars : (n : ℕ) → n < 16 → hex_digit (get_or hex_chars n 0) ≡ some n
unfolding is_digit_of
hex_digit-hex_chars n h = ground (arith, passes_below_at is_digit_of 16 digit_table n h)

pub length-bytes_to_hex : (bs : List ℕ) → length (bytes_to_hex bs) ≡ 2 * length bs
unfolding bytes_to_hex
length-bytes_to_hex [] = omega arith
length-bytes_to_hex (b ∷ bs) = omega (arith, length-bytes_to_hex bs)

module _ ⦃libc : Libc⦄ where
  hex_to_bytes_loop-bytes_to_hex :
      (bs : List ℕ) → All (λ b. b < 256) bs → hex_to_bytes_loop (length bs) (bytes_to_hex bs) ≡ bs
  unfolding hex_to_bytes_loop scan_2x bytes_to_hex pair_value
  hex_to_bytes_loop-bytes_to_hex [] h = refl
  hex_to_bytes_loop-bytes_to_hex (b ∷ bs) h =
      rw
        (
          hex_digit-hex_chars (b / 16 % 16) (omega arith),
          hex_digit-hex_chars (b % 16) (omega arith),
          hex_to_bytes_loop-bytes_to_hex bs h.1,
        )
        (ap (λ x. x ∷ bs) (omega arith))

  -- Decoding the text that `bytes_to_hex` writes for a digest of 32 bytes gives the digest back.
  pub hex_to_bytes-bytes_to_hex :
      (bs : List ℕ) → length bs ≡ 32 → All (λ b. b < 256) bs → hex_to_bytes (bytes_to_hex bs) ≡ bs
  unfolding hex_to_bytes
  hex_to_bytes-bytes_to_hex bs h small = rw h at (hex_to_bytes_loop-bytes_to_hex bs small)
