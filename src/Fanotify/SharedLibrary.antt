-- ===== src/Fanotify/SharedLibrary.antt =====
-- `is_shared_library` of src/daemon/fanotify_handler.c and the ELF test on the first four bytes.
pub mod Names
use linux_anti_executable.Base.{
  ℕ, Bool, false, ◌&&◌, ◌||◌, Option, none, some, List, [], ◌∷◌, ◌==◌, if◌then◌else◌, codes,
  same_bytes,
}
use linux_anti_executable.Config.Exclusion.{is_prefix}
use linux_anti_executable.Hash.File.{ReadAnswer, chunk}

-- `strrchr(path, '.')`: the text from the last dot on, given what was found so far.
last_dot : List ℕ → Option (List ℕ) → Option (List ℕ)
last_dot [] found = found
last_dot (c ∷ cs) found = last_dot cs (if c == b'.' then some (c ∷ cs) else found)

-- `strstr(text, part) != NULL`
unfoldable pub contains : List ℕ → List ℕ → Bool
contains part [] = is_prefix part []
contains part (c ∷ cs) = is_prefix part (c ∷ cs) || contains part cs

is_so : Option (List ℕ) → Bool
is_so none = false
is_so (some ext) = same_bytes ext (codes ".so")

unfoldable pub is_shared_library : List ℕ → Bool
unfolding last_dot is_so
is_shared_library path = is_so (last_dot path none) || contains (codes ".so.") path

-- The answer of `read(fd, magic, 4)`; a short one is no ELF file.
unfoldable pub is_elf_magic : ReadAnswer → Bool
is_elf_magic (chunk (a ∷ b ∷ c ∷ d ∷ [])) = a == 0x7f && (b == b'E' && (c == b'L' && d == b'F'))
is_elf_magic _ = false
