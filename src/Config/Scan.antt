-- ===== src/Config/Scan.antt =====
-- One line of the configuration file, as `parse_config_file` of src/daemon/main.c reads it with
-- `sscanf(p, "%255[^= ] = %767[^\n]", key, value)`, and the standard library's `atoi`.
pub mod Written
pub mod Number
use linux_anti_executable.Base.{
  ℕ, zero, suc, ◌+◌, ◌-◌, ◌*◌, ◌%◌, ◌^◌, Bool, not, ◌&&◌, ◌||◌, List, [], ◌∷◌, leb, ltb, ◌==◌,
  if◌then◌else◌, ℤ, pos, negsuc,
}

abbrev newline : ℕ
newline = 10

is_blank : ℕ → Bool
is_blank c = c == b' ' || c == 9

-- `isspace`
unfoldable pub is_space : ℕ → Bool
is_space c = c == b' ' || leb 9 c && leb c 13

-- The longest beginning of bytes that pass, and what follows; the bound is the field's width.
drop_while : (ℕ → Bool) → List ℕ → List ℕ
drop_while p [] = []
drop_while p (c ∷ cs) = if p c then drop_while p cs else c ∷ cs

take_while : ℕ → (ℕ → Bool) → List ℕ → List ℕ
take_while zero p cs = []
take_while (suc n) p [] = []
take_while (suc n) p (c ∷ cs) = if p c then c ∷ take_while n p cs else []

rest_while : ℕ → (ℕ → Bool) → List ℕ → List ℕ
rest_while zero p cs = cs
rest_while (suc n) p [] = []
rest_while (suc n) p (c ∷ cs) = if p c then rest_while n p cs else c ∷ cs

pub data Line : Type 0 where
  skipped : Line
  unmatched : Line
  setting : List ℕ → List ℕ → Line

is_key_byte : ℕ → Bool
is_key_byte c = not (c == b'=') && not (c == b' ')

unfoldable pub is_value_byte : ℕ → Bool
is_value_byte c = not (c == newline)

-- `%767[^\n]`, which wants a byte, and the trim of blanks in front of the value.
scan_value : List ℕ → List ℕ → Line
scan_value key [] = unmatched
scan_value key (c ∷ cs) = setting key (drop_while is_blank (take_while 767 is_value_byte (c ∷ cs)))

-- The literal `=` between two runs of white space.
scan_equals : List ℕ → List ℕ → Line
unfolding scan_value
scan_equals key [] = unmatched
scan_equals key (c ∷ cs) = if c == b'=' then scan_value key (drop_while is_space cs) else unmatched

-- `%255[^= ]` wants a byte too.
scan_key : List ℕ → List ℕ → Line
unfolding scan_equals
scan_key [] rest = unmatched
scan_key (k ∷ ks) rest = scan_equals (k ∷ ks) (drop_while is_space rest)

-- A comment, an empty line, or text up to the newline.
scan_text : List ℕ → Line
unfolding scan_key
scan_text [] = skipped
scan_text (c ∷ cs) =
    if c == b'#' || c == newline
    then skipped
    else let text = take_while 1023 is_value_byte (c ∷ cs) in
      scan_key (take_while 255 is_key_byte text) (rest_while 255 is_key_byte text)

unfoldable pub scan_line : List ℕ → Line
unfolding scan_text take_while rest_while drop_while is_key_byte is_value_byte is_space is_blank
scan_line line = scan_text (drop_while is_blank line)

is_digit : ℕ → Bool
is_digit c = leb b'0' c && leb c b'9'

digits_value : ℕ → List ℕ → ℕ
digits_value n [] = n
digits_value n (c ∷ cs) = if is_digit c then digits_value (n * 10 + (c - b'0')) cs else n

pub negated : ℕ → ℤ
negated zero = pos 0
negated (suc n) = negsuc n

signed_value : List ℕ → ℤ
signed_value [] = pos 0
signed_value (c ∷ cs) =
    if c == b'-'
    then negated (digits_value 0 cs)
    else if c == b'+'
    then pos (digits_value 0 cs)
    else pos (digits_value 0 (c ∷ cs))

-- A number cut to the 32 bits of an `int`.
unfoldable pub wrap_int : ℤ → ℤ
wrap_int (pos n) =
    let low = n % 2 ^ 32 in if ltb low (2 ^ 31) then pos low else negsuc (2 ^ 32 - 1 - low)
wrap_int (negsuc n) =
    let low = n % 2 ^ 32 in if ltb low (2 ^ 31) then negsuc low else pos (2 ^ 32 - 1 - low)

-- `strtol` stops at the bounds of a `long`.
clamp_long : ℤ → ℤ
clamp_long (pos n) = if ltb n (2 ^ 63) then pos n else pos (2 ^ 63 - 1)
clamp_long (negsuc n) = if ltb n (2 ^ 63) then negsuc n else negsuc (2 ^ 63 - 1)

-- `(int) strtol(text, NULL, 10)`
unfoldable pub atoi : List ℕ → ℤ
unfolding signed_value negated digits_value is_digit drop_while is_space clamp_long wrap_int
atoi text = wrap_int (clamp_long (signed_value (drop_while is_space text)))

-- The product before it is stored.
unfoldable pub product_1000 : ℤ → ℤ
unfolding negated
product_1000 (pos n) = pos (n * 1000)
product_1000 (negsuc n) = negated ((n + 1) * 1000)

-- The product of two `int`s, which wraps around on the hosts of the daemon; in C a product that leaves
-- the range has no defined meaning.
unfoldable pub times_1000 : ℤ → ℤ
unfolding product_1000 wrap_int
times_1000 z = wrap_int (product_1000 z)
