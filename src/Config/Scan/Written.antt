-- ===== src/Config/Scan/Written.antt =====
-- A setting as a line of the file that `parse_config_file` of src/daemon/main.c reads.
use linux_anti_executable.Base.{
  ℕ, zero, suc, ◌≤◌, ◌≡◌, ◌∙◌, ap, refl, Bool, true, false, not, ◌&&◌, ◌||◌, List, [], ◌∷◌, ◌++◌,
  leb, ◌==◌, arith, codes, length, length-append,
}
use linux_anti_executable.Config.Scan.{
  newline, is_blank, is_space, drop_while, take_while, rest_while, setting, is_key_byte,
  is_value_byte, scan_value, scan_equals, scan_key, scan_text, scan_line,
}

abbrev pub all : (ℕ → Bool) → List ℕ → Bool
all p [] = true
all p (x ∷ xs) = p x && all p xs

-- The bytes that pass end here.
abbrev stops : (ℕ → Bool) → List ℕ → Bool
stops p [] = true
stops p (x ∷ xs) = not (p x)

-- A line of the configuration file.
unfoldable pub print_setting : List ℕ → List ℕ → List ℕ
print_setting key value = (key ++ (codes " = " ++ value)) ++ newline ∷ []

take_while-append :
    (p : ℕ → Bool) (n : ℕ) (xs rest : List ℕ)
    → all p xs ≡ true
    → length xs ≤ n
    → stops p rest ≡ true
    → (take_while n p (xs ++ rest) ≡ xs) × (rest_while n p (xs ++ rest) ≡ rest)
unfolding take_while rest_while
take_while-append p zero [] rest h l e = (refl, refl)
take_while-append p zero (x ∷ xs) rest h l e = absurd (omega arith)
take_while-append p (suc n) [] [] h l e = (refl, refl)
take_while-append p (suc n) [] (r ∷ rest) h l e = ground arith
take_while-append p (suc n) (x ∷ xs) rest h l e =
    ground (arith, take_while-append p n xs rest (ground arith) (omega arith) e)

-- The first byte is no white space.
unfoldable pub starts_plain : List ℕ → Bool
starts_plain [] = false
starts_plain (c ∷ cs) = not (is_space c)

pub record IsValue (v : List ℕ) : Type 0 where
  pub first : starts_plain v ≡ true
  pub plain : all is_value_byte v ≡ true
  pub short : length v ≤ 767

-- No white space, no `=` and no newline, and no `#` in front.
plain_byte : ℕ → Bool
plain_byte c = is_key_byte c && is_value_byte c && not (is_space c)

unfoldable pub is_key : List ℕ → Bool
unfolding plain_byte is_key_byte is_value_byte is_space
is_key [] = false
is_key (c ∷ cs) = not (c == b'#') && all plain_byte (c ∷ cs) && leb (length cs) 200

drop_while-starts :
    (p : ℕ → Bool) (c : ℕ) (cs : List ℕ) → p c ≡ false → drop_while p (c ∷ cs) ≡ c ∷ cs
unfolding drop_while
drop_while-starts p c cs h = simp h refl

take_while-all :
    (p : ℕ → Bool) (n : ℕ) (xs : List ℕ) → all p xs ≡ true → length xs ≤ n → take_while n p xs ≡ xs
unfolding take_while
take_while-all p zero [] h l = refl
take_while-all p zero (x ∷ xs) h l = absurd (omega arith)
take_while-all p (suc n) [] h l = refl
take_while-all p (suc n) (x ∷ xs) h l =
    ground (arith, take_while-all p n xs (ground arith) (omega arith))

scan_value-value : (key v : List ℕ) → IsValue v → scan_value key v ≡ setting key v
unfolding scan_value starts_plain is_space is_blank
scan_value-value key [] i = absurd (ground (arith, i.first))
scan_value-value key (c ∷ cs) i =
    rw
      (
        take_while-all is_value_byte 767 (c ∷ cs) i.plain i.short,
        drop_while-starts is_blank c cs (ground (arith, i.first)),
      )
      refl

drop_while-space : (v : List ℕ) → starts_plain v ≡ true → drop_while is_space v ≡ v
unfolding starts_plain drop_while
drop_while-space [] h = refl
drop_while-space (c ∷ cs) h = ground arith

scan_equals-value : (key v : List ℕ) → IsValue v → scan_equals key (b'=' ∷ b' ' ∷ v) ≡ setting key v
unfolding scan_equals drop_while is_space
scan_equals-value key v i = rw (drop_while-space v i.first, scan_value-value key v i) refl

scan_key-value :
    (key v : List ℕ)
    → is_key key ≡ true
    → IsValue v
    → scan_key key (codes " = " ++ v) ≡ setting key v
unfolding scan_key is_key drop_while is_space
scan_key-value [] v k i = cc
scan_key-value (c ∷ cs) v k i = scan_equals-value (c ∷ cs) v i

all-and :
    (p q r : ℕ → Bool) (xs : List ℕ)
    → all (λ x. p x && q x && r x) xs ≡ true
    → (all p xs ≡ true) × (all q xs ≡ true)
all-and p q r [] h = (refl, refl)
all-and p q r (x ∷ xs) h = ground (arith, all-and p q r xs (ground arith))

all-append :
    (p : ℕ → Bool) (xs ys : List ℕ) → all p xs ≡ true → all p ys ≡ true → all p (xs ++ ys) ≡ true
all-append p [] ys h k = k
all-append p (x ∷ xs) ys h k = ground (arith, all-append p xs ys (ground arith) k)

first_byte-is_blank : (c : ℕ) (cs : List ℕ) → is_key (c ∷ cs) ≡ true → is_blank c ≡ false
unfolding is_key plain_byte is_space is_blank
first_byte-is_blank c cs k = ground arith

first_byte-no_comment :
    (c : ℕ) (cs : List ℕ) → is_key (c ∷ cs) ≡ true → (c == b'#' || c == newline) ≡ false
unfolding is_key plain_byte is_value_byte
first_byte-no_comment c cs k = ground arith

is_value_byte-equals :
    (v : List ℕ) → all is_value_byte v ≡ true → all is_value_byte (codes " = " ++ v) ≡ true
unfolding is_value_byte
is_value_byte-equals v h = h

is_value_byte-newline : stops is_value_byte (newline ∷ []) ≡ true
unfolding is_value_byte
is_value_byte-newline = refl

is_key_byte-space : (v : List ℕ) → stops is_key_byte (codes " = " ++ v) ≡ true
unfolding is_key_byte
is_key_byte-space v = refl

record IsPlainKey (c : ℕ) (cs : List ℕ) : Type 0 where
  key_bytes : all is_key_byte (c ∷ cs) ≡ true
  value_bytes : all is_value_byte (c ∷ cs) ≡ true
  short : length (c ∷ cs) ≤ 201
  not_blank : is_blank c ≡ false
  no_comment : (c == b'#' || c == newline) ≡ false

is_key-IsPlainKey : (c : ℕ) (cs : List ℕ) → is_key (c ∷ cs) ≡ true → IsPlainKey c cs
unfolding is_key
is_key-IsPlainKey c cs k =
    let bytes = all-and is_key_byte is_value_byte (λ x. not (is_space x)) (c ∷ cs) (ground arith) in
    record {
      key_bytes = bytes.0;
      value_bytes = bytes.1;
      short = ground arith;
      not_blank = first_byte-is_blank c cs k;
      no_comment = first_byte-no_comment c cs k;
    }

scan_text-body :
    (c : ℕ) (cs v : List ℕ)
    → IsPlainKey c cs
    → IsValue v
    → scan_text (((c ∷ cs) ++ (codes " = " ++ v)) ++ newline ∷ [])
      ≡ scan_key
          (take_while 255 is_key_byte ((c ∷ cs) ++ (codes " = " ++ v)))
          (rest_while 255 is_key_byte ((c ∷ cs) ++ (codes " = " ++ v)))
unfolding scan_text
scan_text-body c cs v f i =
    let body = (c ∷ cs) ++ (codes " = " ++ v) in
    let bytes : all is_value_byte body ≡ true =
      all-append is_value_byte (c ∷ cs) (codes " = " ++ v) f.value_bytes
        (is_value_byte-equals v i.plain) in
    let fits : length body ≤ 1023 =
      omega (arith, length-append (c ∷ cs) (codes " = " ++ v), f.short, i.short) in
    let text =
      (take_while-append is_value_byte 1023 body (newline ∷ []) bytes fits
        is_value_byte-newline).0 in
    rw (f.no_comment, text) refl

-- A line that was written with a plain key and value is read as that setting.
pub scan_line-print_setting :
    (key v : List ℕ)
    → is_key key ≡ true
    → IsValue v
    → scan_line (print_setting key v) ≡ setting key v
unfolding scan_line print_setting is_key
scan_line-print_setting [] v k i = cc
scan_line-print_setting (c ∷ cs) v k i =
    let f = is_key-IsPlainKey c cs k in
    let parts =
      take_while-append is_key_byte 255 (c ∷ cs) (codes " = " ++ v) f.key_bytes
        (omega (arith, f.short)) (is_key_byte-space v) in
    let body = (c ∷ cs) ++ (codes " = " ++ v) in
    let read : scan_key (take_while 255 is_key_byte body) (rest_while 255 is_key_byte body)
        ≡ setting (c ∷ cs) v =
      rw (parts.0, parts.1) (scan_key-value (c ∷ cs) v k i) in
    ap scan_text
      (drop_while-starts is_blank c ((cs ++ (codes " = " ++ v)) ++ newline ∷ []) f.not_blank)
    ∙ scan_text-body c cs v f i
    ∙ read
