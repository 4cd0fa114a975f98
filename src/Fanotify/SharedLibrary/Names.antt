-- ===== src/Fanotify/SharedLibrary/Names.antt =====
-- Which names `is_shared_library` of src/daemon/fanotify_handler.c takes for libraries.
use linux_anti_executable.Base.{
  ℕ, ◌≡◌, ap, sym, ◌↔◌, ◌⊎◌, inl, inr, refl, true, Option, none, some, List, [], ◌∷◌, ◌++◌, ◌==◌,
  if◌then◌else◌, codes, same_bytes, same_bytes-eq, arith, Bool-cases,
}
use linux_anti_executable.Config.Exclusion.{is_prefix}
use linux_anti_executable.Fanotify.SharedLibrary.{last_dot, contains, is_so, is_shared_library}

-- The text ends in the part.
abbrev pub EndsIn : List ℕ → List ℕ → Type 0
EndsIn part text = (stem : List ℕ) × (text ≡ stem ++ part)

-- The part stands somewhere in the text.
abbrev pub Holds : List ℕ → List ℕ → Type 0
Holds part text = (before : List ℕ) × (after : List ℕ) × (text ≡ before ++ (part ++ after))

is_prefix-split :
    (part text : List ℕ) → is_prefix part text ≡ true → (after : List ℕ) × (text ≡ part ++ after)
unfolding is_prefix
is_prefix-split [] text h = (text, refl)
is_prefix-split (p ∷ ps) [] h = cc
is_prefix-split (p ∷ ps) (c ∷ cs) h =
    let (after, e) = is_prefix-split ps cs (ground arith) in (after, ground (arith, e))

is_prefix-append : (part after : List ℕ) → is_prefix part (part ++ after) ≡ true
unfolding is_prefix
is_prefix-append [] after = refl
is_prefix-append (p ∷ ps) after = ground (arith, is_prefix-append ps after)

contains-Holds : (part text : List ℕ) → contains part text ≡ true → Holds part text
unfolding contains
contains-Holds part [] h = let (after, e) = is_prefix-split part [] h in ([], after, e)
contains-Holds part (c ∷ cs) h = elim (Bool-cases (is_prefix part (c ∷ cs))) [
  | inl here ↦ let (after, e) = is_prefix-split part (c ∷ cs) here in ([], after, e)
  | inr later ↦
      let (before, after, e) = contains-Holds part cs (ground arith) in
      (c ∷ before, after, ap (λ rest. c ∷ rest) e)
]

contains-prefix : (part text : List ℕ) → is_prefix part text ≡ true → contains part text ≡ true
unfolding contains
contains-prefix part [] h = h
contains-prefix part (c ∷ cs) h = ground arith

contains-append : (part before after : List ℕ) → contains part (before ++ (part ++ after)) ≡ true
unfolding contains
contains-append part [] after = contains-prefix part (part ++ after) (is_prefix-append part after)
contains-append part (b ∷ bs) after = ground (arith, contains-append part bs after)

dot_here :
    (c : ℕ) (cs : List ℕ) (found : Option (List ℕ)) (ext : List ℕ)
    → (if c == b'.' then some (c ∷ cs) else found) ≡ some ext
    → (found ≡ some ext) ⊎ EndsIn ext (c ∷ cs)
dot_here c cs found ext h = elim (Bool-cases (c == b'.')) [
  | inl dot ↦ inr ([], ground arith)
  | inr other ↦ inl (ground arith)
]

-- The last dot was found before, or the text ends in what it begins.
last_dot-EndsIn :
    (text : List ℕ) (found : Option (List ℕ)) (ext : List ℕ)
    → last_dot text found ≡ some ext
    → (found ≡ some ext) ⊎ EndsIn ext text
unfolding last_dot
last_dot-EndsIn [] found ext h = inl h
last_dot-EndsIn (c ∷ cs) found ext h =
    elim (last_dot-EndsIn cs (if c == b'.' then some (c ∷ cs) else found) ext h) [
      | inl now ↦ dot_here c cs found ext now
      | inr (stem, e) ↦ inr (c ∷ stem, ap (λ rest. c ∷ rest) e)
    ]

last_dot-so :
    (stem : List ℕ) (found : Option (List ℕ))
    → last_dot (stem ++ codes ".so") found ≡ some (codes ".so")
unfolding last_dot
last_dot-so [] found = refl
last_dot-so (c ∷ cs) found = last_dot-so cs _

-- What an extension that is `.so` came from.
is_so-some : (o : Option (List ℕ)) → is_so o ≡ true → o ≡ some (codes ".so")
unfolding is_so
is_so-some none h = cc
is_so-some (some ext) h = ap some (same_bytes-eq ext (codes ".so") h)

is_so-EndsIn : (path : List ℕ) → is_so (last_dot path none) ≡ true → EndsIn (codes ".so") path
is_so-EndsIn path h = elim (last_dot-EndsIn path none (codes ".so") (is_so-some _ h)) [
  | inl nothing ↦ absurd cc
  | inr ends ↦ ends
]

EndsIn-is_so : (path : List ℕ) → EndsIn (codes ".so") path → is_so (last_dot path none) ≡ true
unfolding is_so same_bytes
EndsIn-is_so path (stem, e) = rw (e, last_dot-so stem none) refl

-- A path counts as a library exactly if it ends in `.so` or holds `.so.` somewhere.
pub is_shared_library_iff :
    (path : List ℕ)
    → (is_shared_library path ≡ true) ↔ (EndsIn (codes ".so") path ⊎ Holds (codes ".so.") path)
unfolding is_shared_library
is_shared_library_iff path = (
  λ h. elim (Bool-cases (is_so (last_dot path none))) [
    | inl so ↦ inl (is_so-EndsIn path so)
    | inr other ↦ inr (contains-Holds (codes ".so.") path (ground arith))
  ],
  λ named. elim named [
    | inl ends ↦ ground (arith, EndsIn-is_so path ends)
    | inr (before, after, e) ↦
        ground (arith, rw (sym e) at (contains-append (codes ".so.") before after))
  ],
)
