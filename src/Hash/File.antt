-- ===== src/Hash/File.antt =====
-- `hash_fd` and `hash_file` of src/common/hash.c. OpenSSL's SHA-256 is a parameter; the operating
-- system answers each `read` in turn from a list, so the reading loop ends with that list.
pub mod Digest
use linux_anti_executable.Base.{
  ℕ, ◌+◌, Bool, Option, none, some, List, [], ◌∷◌, length, if◌then◌else◌, not,
}
use linux_anti_executable.Hash.Hex.{bytes_to_hex}

-- `none` is the failure status of a call.
pub record Sha256 : Type 1 where
  pub Context : Type 0
  pub init : Option Context
  pub update : Context → List ℕ → Option Context
  pub final : Context → Option (List ℕ)

-- A chunk of no bytes is the end of the file.
pub data ReadAnswer : Type 0 where
  chunk : List ℕ → ReadAnswer
  failed : ReadAnswer

-- An open file: its offset, whether `lseek` works on it, and the answers to the reads of its
-- contents from the beginning. Past the list the file is at its end.
pub record OpenFile : Type 0 where
  pub offset : ℕ
  pub seekable : Bool
  pub reads : List ReadAnswer

-- `lseek(fd, pos, SEEK_SET)`; `none` is -1.
abbrev pub seek_set : OpenFile → ℕ → Option OpenFile
seek_set f pos = if f.seekable then some (record f { offset = pos }) else none

-- A seek whose result is not looked at.
abbrev pub seek_back : OpenFile → ℕ → OpenFile
seek_back f pos = if f.seekable then record f { offset = pos } else f

-- `lseek(fd, 0, SEEK_CUR)`, with 0 for a failure
original_pos : OpenFile → ℕ
original_pos f = if f.seekable then f.offset else 0

hex_of : Option (List ℕ) → Option (List ℕ)
hex_of none = none
hex_of (some hash) = some (bytes_to_hex hash)

module _ (sha : Sha256) where
  open sha use {Context, init, update, final}

  -- How the reading loop ends.
  pub data LoopEnd : Type 0 where
    update_failed : LoopEnd
    read_failed : LoopEnd
    at_end : Context → LoopEnd

  -- `while ((bytes_read = read(...)) > 0) if (!SHA256_Update(...)) ...`
  read_loop : List ReadAnswer → Context → LoopEnd
  read_loop [] ctx = at_end ctx
  read_loop (failed ∷ rest) ctx = read_failed
  read_loop (chunk [] ∷ rest) ctx = at_end ctx
  read_loop (chunk (b ∷ bs) ∷ rest) ctx = elim (update ctx (b ∷ bs)) [
    | none ↦ update_failed
    | some ctx' ↦ read_loop rest ctx'
  ]

  -- The bytes that the loop moved the offset by.
  bytes_consumed : List ReadAnswer → ℕ
  bytes_consumed [] = 0
  bytes_consumed (failed ∷ rest) = 0
  bytes_consumed (chunk [] ∷ rest) = 0
  bytes_consumed (chunk (b ∷ bs) ∷ rest) = length (b ∷ bs) + bytes_consumed rest

  digest_of : LoopEnd → Option (List ℕ)
  digest_of update_failed = none
  digest_of read_failed = none
  digest_of (at_end ctx) = final ctx

  hash_from_start : ℕ → OpenFile → Option Context → Option (List ℕ) × OpenFile
  hash_from_start pos f none = (none, f)
  hash_from_start pos f (some ctx) =
      let moved = record f { offset = f.offset + bytes_consumed f.reads } in
      (hex_of (digest_of (read_loop f.reads ctx)), seek_back moved pos)

  hash_seeked : ℕ → OpenFile → Option OpenFile → Option (List ℕ) × OpenFile
  unfolding hash_from_start
  hash_seeked pos f none = (none, f)
  hash_seeked pos f (some f0) = hash_from_start pos f0 init

  -- `none` is the status -1, and `some` the text in `hex_output`.
  unfoldable pub hash_fd : OpenFile → Option (List ℕ) × OpenFile
  unfolding hash_seeked read_loop digest_of hex_of bytes_consumed original_pos
  hash_fd f = hash_seeked (original_pos f) f (seek_set f 0)

  -- The argument is the answer of `open`.
  unfoldable pub hash_file : Option OpenFile → Option (List ℕ)
  hash_file none = none
  hash_file (some f) = (hash_fd f).0
