-- ===== src/Config/Scan/Number.antt =====
-- A number as the text that `%d` prints, and `atoi`, which src/daemon/main.c calls on it.
use native.Mathlib.Nat.{pow-suc}
use linux_anti_executable.Base.{
  ℕ, zero, suc, ◌+◌, ◌/◌, ◌%◌, ◌^◌, ◌≤◌, ◌<◌, ◌≡◌, ◌∙◌, ap, refl, true, List, [], ◌∷◌, ℤ, pos,
  negsuc, arith, length, digits, decimal,
}
use linux_anti_executable.Config.Scan.{
  is_space, drop_while, is_value_byte, is_digit, digits_value, negated, signed_value, clamp_long,
  wrap_int, atoi,
}
use linux_anti_executable.Config.Scan.Written.{all, starts_plain, IsValue}

-- A `%d`.
unfoldable pub print_int : ℤ → List ℕ
print_int (pos n) = decimal n
print_int (negsuc n) = b'-' ∷ decimal (suc n)

-- The number's value, then the digits behind it.
digits_value-digits :
    (fuel n : ℕ) (found : List ℕ)
    → n ≤ fuel
    → digits_value 0 (digits fuel n found) ≡ digits_value n found
unfolding digits digits_value is_digit
digits_value-digits zero n found h = ground arith
digits_value-digits (suc fuel) zero found h = refl
digits_value-digits (suc fuel) (suc m) found h =
    let rest = digits_value-digits fuel (suc m / 10) ((b'0' + suc m % 10) ∷ found) (omega arith) in
    rest ∙ ground arith

digits-all :
    (fuel n : ℕ) (found : List ℕ)
    → all is_digit found ≡ true
    → all is_digit (digits fuel n found) ≡ true
unfolding digits is_digit
digits-all zero n found h = h
digits-all (suc fuel) zero found h = h
digits-all (suc fuel) (suc m) found h =
    digits-all fuel (suc m / 10) ((b'0' + suc m % 10) ∷ found) (ground (arith, h))

-- No more digits than the power of ten has zeros.
length-digits :
    (k fuel n : ℕ) (found : List ℕ) → n < 10 ^ k → length (digits fuel n found) ≤ length found + k
unfolding digits
length-digits k zero n found h = omega arith
length-digits k (suc fuel) zero found h = omega arith
length-digits zero (suc fuel) (suc m) found h = absurd (omega arith)
length-digits (suc k) (suc fuel) (suc m) found h =
    let power = pow-suc 10 k in
    omega (
      arith,
      power,
      length-digits k fuel (suc m / 10) ((b'0' + suc m % 10) ∷ found) (omega (arith, power)),
    )

digits-starts_plain :
    (fuel n : ℕ) (found : List ℕ)
    → starts_plain found ≡ true
    → starts_plain (digits fuel n found) ≡ true
unfolding digits starts_plain is_space
digits-starts_plain zero n found h = h
digits-starts_plain (suc fuel) zero found h = h
digits-starts_plain (suc fuel) (suc m) found h =
    digits-starts_plain fuel (suc m / 10) ((b'0' + suc m % 10) ∷ found) (ground arith)

decimal-all : (n : ℕ) → all is_digit (decimal n) ≡ true
unfolding decimal is_digit
decimal-all zero = refl
decimal-all (suc m) = digits-all (suc m) (suc m) [] refl

digits_value-decimal : (n : ℕ) → digits_value 0 (decimal n) ≡ n
unfolding decimal digits_value is_digit
digits_value-decimal zero = refl
digits_value-decimal (suc m) = digits_value-digits (suc m) (suc m) [] (omega arith)

decimal-starts_plain : (n : ℕ) → starts_plain (decimal n) ≡ true
unfolding decimal digits starts_plain is_space
decimal-starts_plain zero = refl
decimal-starts_plain (suc m) =
    digits-starts_plain m (suc m / 10) ((b'0' + suc m % 10) ∷ []) (ground arith)

length-decimal : (n : ℕ) → n < 10 ^ 10 → length (decimal n) ≤ 10
unfolding decimal
length-decimal zero h = omega arith
length-decimal (suc m) h = length-digits 10 (suc m) (suc m) [] h

-- The range of `int`.
abbrev pub IsInt : ℤ → Type 0
IsInt (pos n) = n < 2 ^ 31
IsInt (negsuc n) = n < 2 ^ 31

-- A number in the range is not cut.
pub wrap_int-IsInt : (z : ℤ) → IsInt z → wrap_int z ≡ z
unfolding wrap_int
wrap_int-IsInt (pos n) h = ground arith
wrap_int-IsInt (negsuc n) h = ground arith

clamp_long-IsInt : (z : ℤ) → IsInt z → clamp_long z ≡ z
unfolding clamp_long
clamp_long-IsInt (pos n) h = ground arith
clamp_long-IsInt (negsuc n) h = ground arith

text_value : List ℕ → ℤ
unfolding drop_while is_space signed_value
text_value text = signed_value (drop_while is_space text)

text_value-digits : (xs : List ℕ) → all is_digit xs ≡ true → text_value xs ≡ pos (digits_value 0 xs)
unfolding text_value signed_value drop_while is_space is_digit digits_value
text_value-digits [] h = refl
text_value-digits (c ∷ cs) h = ground arith

text_value-minus : (xs : List ℕ) → text_value (b'-' ∷ xs) ≡ negated (digits_value 0 xs)
unfolding text_value signed_value drop_while is_space
text_value-minus xs = refl

text_value-print_int : (z : ℤ) → text_value (print_int z) ≡ z
unfolding print_int negated
text_value-print_int (pos n) =
    text_value-digits (decimal n) (decimal-all n) ∙ ap pos (digits_value-decimal n)
text_value-print_int (negsuc n) =
    rw (text_value-minus (decimal (suc n)), digits_value-decimal (suc n)) refl

-- `atoi` reads back the `int` that was printed.
pub atoi-print_int : (z : ℤ) → IsInt z → atoi (print_int z) ≡ z
unfolding atoi text_value
atoi-print_int z h =
    ap (λ x. wrap_int (clamp_long x)) (text_value-print_int z)
    ∙ ap wrap_int (clamp_long-IsInt z h)
    ∙ wrap_int-IsInt z h

all-is_value_byte : (xs : List ℕ) → all is_digit xs ≡ true → all is_value_byte xs ≡ true
unfolding is_digit is_value_byte
all-is_value_byte [] h = refl
all-is_value_byte (x ∷ xs) h = ground (arith, all-is_value_byte xs (ground arith))

pub print_int-IsValue : (z : ℤ) → IsInt z → IsValue (print_int z)
unfolding print_int is_value_byte is_space starts_plain
print_int-IsValue (pos n) h = record {
  first = decimal-starts_plain n;
  plain = all-is_value_byte (decimal n) (decimal-all n);
  short = omega (arith, length-decimal n (omega arith));
}
print_int-IsValue (negsuc n) h = record {
  first = refl;
  plain = all-is_value_byte (decimal (suc n)) (decimal-all (suc n));
  short = omega (arith, length-decimal (suc n) (omega arith));
}
