-- ===== src/Config/Exclusion.antt =====
-- `is_path_excluded` of src/daemon/main.c: the comma-separated list of path prefixes that are not
-- checked. A C string is the list of its bytes.
use mathlib.Core.List.{append-nil, append_assoc}
use linux_anti_executable.Base.{
  ℕ, zero, suc, ◌+◌, ◌≤◌, ◌≡◌, ◌≢◌, refl, ap, ◌∙◌, Bool, true, false, ◌&&◌, ◌||◌, List, [], ◌∷◌,
  ◌++◌, arith, ◌==◌, if◌then◌else◌, Bool-cases, inl, inr, length, length-append, take, All, ==-ne,
}

abbrev pub space : ℕ
space = b' '

abbrev pub comma : ℕ
comma = b','

-- `strtok_r(_, ",", _)` skips empty pieces: a token begins at the first byte that is no comma. The
-- first argument is the token that is being read.
tokens : List ℕ → List ℕ → List (List ℕ)
tokens [] [] = []
tokens (t ∷ ts) [] = (t ∷ ts) ∷ []
tokens [] (c ∷ cs) = tokens (if c == comma then [] else c ∷ []) cs
tokens (t ∷ ts) (c ∷ cs) =
    let ended = (t ∷ ts) ∷ tokens [] cs in
    let longer = tokens (t ∷ ts ++ c ∷ []) cs in if c == comma then ended else longer

-- `while (*token == ' ') token++;`
skip_spaces : List ℕ → List ℕ
skip_spaces [] = []
skip_spaces (c ∷ cs) = if c == space then skip_spaces cs else c ∷ cs

-- A byte in front of what is left of the rest: a space goes if nothing is left behind it.
keep_unless_last_space : ℕ → List ℕ → List ℕ
keep_unless_last_space c [] = if c == space then [] else c ∷ []
keep_unless_last_space c (d ∷ ds) = c ∷ d ∷ ds

-- Spaces at the end are overwritten by zeros.
strip_end : List ℕ → List ℕ
unfolding keep_unless_last_space
strip_end [] = []
strip_end (c ∷ cs) = keep_unless_last_space c (strip_end cs)

-- The loop from the end stops above the token's first byte.
trim_end : List ℕ → List ℕ
trim_end [] = []
trim_end (c ∷ cs) = c ∷ strip_end cs

-- `strncmp(path, token, strlen(token)) == 0`
unfoldable pub is_prefix : List ℕ → List ℕ → Bool
is_prefix [] path = true
is_prefix (t ∷ ts) [] = false
is_prefix (t ∷ ts) (c ∷ cs) = t == c && is_prefix ts cs

-- The loop over the tokens.
any_prefix : List (List ℕ) → List ℕ → Bool
any_prefix [] path = false
any_prefix (token ∷ rest) path =
    is_prefix (trim_end (skip_spaces token)) path || any_prefix rest path

-- `sizeof(excludes) - 1`
abbrev pub max_excludes : ℕ
max_excludes = 4095

-- The configured list, and the path that is asked about.
unfoldable pub is_path_excluded : List ℕ → List ℕ → Bool
unfolding tokens skip_spaces trim_end strip_end is_prefix any_prefix
is_path_excluded exclude_paths path = any_prefix (tokens [] (take max_excludes exclude_paths)) path

tokens-comma : (cur xs ys : List ℕ) → tokens cur (xs ++ comma ∷ ys) ≡ tokens cur xs ++ tokens [] ys
unfolding tokens
tokens-comma [] [] ys = refl
tokens-comma (t ∷ ts) [] ys = refl
tokens-comma [] (c ∷ cs) ys = tokens-comma (if c == comma then [] else c ∷ []) cs ys
tokens-comma (t ∷ ts) (c ∷ cs) ys = elim (Bool-cases (c == comma)) [
  | inl e ↦ rw e (ap (λ r. (t ∷ ts) ∷ r) (tokens-comma [] cs ys))
  | inr e ↦ rw e (tokens-comma (t ∷ ts ++ c ∷ []) cs ys)
]

any_prefix-append :
    (xs ys : List (List ℕ)) (path : List ℕ)
    → any_prefix (xs ++ ys) path ≡ (any_prefix xs path || any_prefix ys path)
unfolding any_prefix
any_prefix-append [] ys path = refl
any_prefix-append (x ∷ xs) ys path = ground (arith, any_prefix-append xs ys path)

take_all : (n : ℕ) (xs : List ℕ) → length xs ≤ n → take n xs ≡ xs
take_all zero [] h = refl
take_all (suc n) [] h = refl
take_all zero (x ∷ xs) h = absurd (omega arith)
take_all (suc n) (x ∷ xs) h = ap (λ r. x ∷ r) (take_all n xs (omega arith))

-- A list of at most 4095 bytes that is cut at a comma excludes what one of its halves excludes.
pub is_path_excluded-comma :
    (xs ys path : List ℕ)
    → length (xs ++ comma ∷ ys) ≤ max_excludes
    → is_path_excluded (xs ++ comma ∷ ys) path
      ≡ (is_path_excluded xs path || is_path_excluded ys path)
unfolding is_path_excluded
is_path_excluded-comma xs ys path fits =
    let split : length (xs ++ comma ∷ ys) ≡ length xs + length (comma ∷ ys) =
      length-append xs (comma ∷ ys) in
    rw
      (
        take_all max_excludes (xs ++ comma ∷ ys) fits,
        take_all max_excludes xs (omega arith),
        take_all max_excludes ys (omega arith),
        tokens-comma [] xs ys,
      )
      (any_prefix-append (tokens [] xs) (tokens [] ys) path)

-- An entry without commas and spaces, as in the shipped configuration.
abbrev pub IsPlain : List ℕ → Type 0
IsPlain = All (λ c. (c ≢ comma) × (c ≢ space))

skip_spaces-plain : (e : List ℕ) → IsPlain e → skip_spaces e ≡ e
unfolding skip_spaces
skip_spaces-plain [] h = refl
skip_spaces-plain (c ∷ cs) h = ground arith

strip_end-plain : (e : List ℕ) → IsPlain e → strip_end e ≡ e
unfolding strip_end
strip_end-plain [] h = refl
strip_end-plain (c ∷ cs) h = rw (strip_end-plain cs h.1) (keep_plain c cs h.0.1)
  where
    keep_plain : (d : ℕ) (ds : List ℕ) → d ≢ space → keep_unless_last_space d ds ≡ d ∷ ds
    keep_plain d [] n = ground arith
    keep_plain d (x ∷ xs) n = refl

trim_end-plain : (e : List ℕ) → IsPlain e → trim_end e ≡ e
unfolding trim_end
trim_end-plain [] h = refl
trim_end-plain (c ∷ cs) h = ap (λ r. c ∷ r) (strip_end-plain cs h.1)

tokens-plain : (t : ℕ) (ts e : List ℕ) → IsPlain e → tokens (t ∷ ts) e ≡ (t ∷ ts ++ e) ∷ []
unfolding tokens
tokens-plain t ts [] h = rw append-nil
tokens-plain t ts (c ∷ cs) h =
    rw (==-ne c comma h.0.0) (tokens-plain t (ts ++ c ∷ []) cs h.1 ∙ rw append_assoc)

any_prefix-plain :
    (c : ℕ) (cs path : List ℕ)
    → IsPlain (c ∷ cs)
    → any_prefix (tokens [] (c ∷ cs)) path ≡ is_prefix (c ∷ cs) path
unfolding tokens any_prefix is_prefix
any_prefix-plain c cs path h =
    rw (tokens, ==-ne c comma h.0.0, tokens-plain c [] cs h.1, any_prefix)
      (rw (skip_spaces-plain (c ∷ cs) h, trim_end-plain (c ∷ cs) h) (ground arith))

-- A single plain entry excludes exactly the paths that begin with it, also where the name of a
-- directory only begins like the entry.
pub is_path_excluded-plain :
    (e path : List ℕ)
    → e ≢ []
    → IsPlain e
    → length e ≤ max_excludes
    → is_path_excluded e path ≡ is_prefix e path
unfolding is_path_excluded
is_path_excluded-plain [] path n h fits = absurd (n refl)
is_path_excluded-plain (c ∷ cs) path n h fits =
    ap (λ xs. any_prefix (tokens [] xs) path) (take_all max_excludes (c ∷ cs) fits)
    ∙ any_prefix-plain c cs path h

-- An entry of one space leaves an empty prefix, and every path begins with that.
blank_entry : (path : List ℕ) → is_path_excluded (space ∷ []) path ≡ true
unfolding is_path_excluded
blank_entry path = refl

-- A list that ends in a comma and a space excludes every path, whatever the other entries are.
pub is_path_excluded_blank :
    (xs path : List ℕ)
    → length xs + 2 ≤ max_excludes
    → is_path_excluded (xs ++ comma ∷ space ∷ []) path ≡ true
is_path_excluded_blank xs path fits =
    let size : length (xs ++ comma ∷ space ∷ []) ≡ length xs + 2 =
      length-append xs (comma ∷ space ∷ []) in
    ground (arith, is_path_excluded-comma xs (space ∷ []) path, blank_entry path)

-- Entries written one after the other, as in the configuration file.
unfoldable pub joined : List (List ℕ) → List ℕ
joined [] = []
joined (e ∷ []) = e
joined (e ∷ f ∷ es) = e ++ comma ∷ joined (f ∷ es)

abbrev pub begins_with_any : List (List ℕ) → List ℕ → Bool
begins_with_any [] path = false
begins_with_any (e ∷ es) path = is_prefix e path || begins_with_any es path

abbrev pub IsEntry : List ℕ → Type 0
IsEntry e = (e ≢ []) × IsPlain e

-- For a list of plain entries that fits the buffer, a path is excluded exactly if it begins with
-- one of the entries.
pub is_path_excluded-joined :
    (es : List (List ℕ)) (path : List ℕ)
    → All IsEntry es
    → length (joined es) ≤ max_excludes
    → is_path_excluded (joined es) path ≡ begins_with_any es path
unfolding joined
is_path_excluded-joined [] path plain fits = unfold is_path_excluded in refl
is_path_excluded-joined (e ∷ []) path plain fits =
    ground (arith, is_path_excluded-plain e path plain.0.0 plain.0.1 fits)
is_path_excluded-joined (e ∷ f ∷ es) path plain fits =
    let size : length (e ++ comma ∷ joined (f ∷ es)) ≡ length e + length (comma ∷ joined (f ∷ es)) =
      length-append e (comma ∷ joined (f ∷ es)) in
    rw (is_path_excluded-comma e (joined (f ∷ es)) path fits) (
      rw
        (
          is_path_excluded-plain e path plain.0.0 plain.0.1 (omega arith),
          is_path_excluded-joined (f ∷ es) path plain.1 (omega arith),
        )
        refl)
