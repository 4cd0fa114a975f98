-- ===== src/Hash/File/Digest.antt =====
-- What OpenSSL documents of SHA-256, and what `hash_fd` and `hash_file` of src/common/hash.c
-- return on it.
use linux_anti_executable.Base.{
  ℕ, ◌<◌, ◌≡◌, ◌≢◌, refl, ap, ◌∙◌, sym, true, false, Option, none, some, List, [], ◌∷◌, ◌++◌, arith,
  length, All, Bool-cases, inl, inr,
}
use mathlib.Core.List.{append-nil, append_assoc}
use linux_anti_executable.Hash.Hex.{
  Libc, bytes_to_hex, length-bytes_to_hex, hex_to_bytes, hex_to_bytes-bytes_to_hex,
}
use linux_anti_executable.Hash.File.{
  Sha256, ReadAnswer, chunk, failed, OpenFile, read_loop, digest_of, hash_fd, hash_from_start,
  hex_of,
}

-- A context stands for the bytes that it has been given, and none of the calls fails.
pub record IsSha256 (sha : Sha256) (digest : List ℕ → List ℕ) : Type 0 where
  pub absorbed : sha.Context → List ℕ
  pub start : sha.Context
  pub init_starts : sha.init ≡ some start
  pub start_empty : absorbed start ≡ []
  pub feed : sha.Context → List ℕ → sha.Context
  pub update_feeds : (c : sha.Context) (bs : List ℕ) → sha.update c bs ≡ some (feed c bs)
  pub feed_appends : (c : sha.Context) (bs : List ℕ) → absorbed (feed c bs) ≡ absorbed c ++ bs
  pub final_digests : (c : sha.Context) → sha.final c ≡ some (digest (absorbed c))
  pub digest_length : (bs : List ℕ) → length (digest bs) ≡ 32
  pub digest_bytes : (bs : List ℕ) → All (λ b. b < 256) (digest bs)

-- The contents that the reads deliver, or `none` if a read fails before the end.
pub contents : List ReadAnswer → Option (List ℕ)
contents [] = some []
contents (failed ∷ rest) = none
contents (chunk [] ∷ rest) = some []
contents (chunk (b ∷ bs) ∷ rest) = elim (contents rest) [
  | none ↦ none
  | some cs ↦ some (b ∷ bs ++ cs)
]

module _ (sha : Sha256) (f : OpenFile) where
  hash_fd_opened :
      f.seekable ≡ true
      → hash_fd sha f ≡ hash_from_start sha f.offset (record f { offset = 0 }) sha.init
  unfolding hash_fd
  hash_fd_opened s = ground arith

  -- Whatever the reads and the hashing calls answer, once the context is set up the offset is back
  -- where it was on every path of `hash_fd`, the failing ones included.
  pub hash_fd_restores : sha.init ≢ none → (hash_fd sha f).1 ≡ f
  unfolding hash_fd
  hash_fd_restores started = ground arith

  -- A file that cannot be sought gives the failure status and is left alone.
  pub hash_fd_unseekable : f.seekable ≡ false → hash_fd sha f ≡ (none, f)
  unfolding hash_fd
  hash_fd_unseekable s = ground arith

module _ (digest : List ℕ → List ℕ) where
  -- What the caller gets: the text of the digest of the whole contents.
  pub hex_digest : Option (List ℕ) → Option (List ℕ)
  hex_digest none = none
  hex_digest (some cs) = some (bytes_to_hex (digest cs))

  -- The digest that the contents have after what a context holds already.
  digest_after : List ℕ → Option (List ℕ) → Option (List ℕ)
  digest_after done none = none
  digest_after done (some cs) = some (digest (done ++ cs))

  hex_of-digest_after : (o : Option (List ℕ)) → hex_of (digest_after [] o) ≡ hex_digest o
  unfolding hex_of digest_after hex_digest
  hex_of-digest_after none = refl
  hex_of-digest_after (some cs) = refl

  digest_after-step :
      (done : List ℕ) (b : ℕ) (bs fed : List ℕ) (rest : Option (List ℕ))
      → fed ≡ done ++ b ∷ bs
      → digest_after fed rest
        ≡ digest_after done (elim rest [ none ↦ none | some cs ↦ some (b ∷ bs ++ cs) ])
  unfolding digest_after
  digest_after-step done b bs fed none e = refl
  digest_after-step done b bs fed (some cs) e = rw (e, append_assoc)

module _ (sha : Sha256) (digest : List ℕ → List ℕ) (laws : IsSha256 sha digest) where
  read_loop-digest :
      (reads : List ReadAnswer) (c : sha.Context)
      → digest_of sha (read_loop sha reads c)
        ≡ digest_after digest (laws.absorbed c) (contents reads)
  unfolding digest_of read_loop contents digest_after
  read_loop-digest [] c = rw append-nil (laws.final_digests c)
  read_loop-digest (failed ∷ rest) c = refl
  read_loop-digest (chunk [] ∷ rest) c = rw append-nil (laws.final_digests c)
  read_loop-digest (chunk (b ∷ bs) ∷ rest) c =
      let fed = laws.feed c (b ∷ bs) in
      rw (laws.update_feeds c (b ∷ bs), read_loop)
        (read_loop-digest rest fed
          ∙ digest_after-step digest (laws.absorbed c) b bs (laws.absorbed fed) (contents rest)
              (laws.feed_appends c (b ∷ bs)))

  -- On a file that can be sought `hash_fd` returns the text of the digest of the whole contents,
  -- however the reads cut them into chunks, or fails exactly if a read does; the offset is back
  -- where it was either way.
  pub hash_fd-digest :
      (f : OpenFile)
      → f.seekable ≡ true
      → ((hash_fd sha f).0 ≡ hex_digest digest (contents f.reads)) × ((hash_fd sha f).1 ≡ f)
  unfolding hash_fd
  hash_fd-digest f s =
      rw (hash_fd_opened sha f s, laws.init_starts, hash_from_start)
        (
          rw (read_loop-digest f.reads laws.start, laws.start_empty)
              (hex_of-digest_after digest (contents f.reads)),
          ground arith,
        )

  hex_digest-length :
      (o : Option (List ℕ)) {hex : List ℕ} → hex_digest digest o ≡ some hex → length hex ≡ 64
  unfolding hex_digest
  hex_digest-length none h = cc
  hex_digest-length (some cs) h =
      ground (arith, length-bytes_to_hex (digest cs), laws.digest_length cs)

  -- Whenever `hash_fd` succeeds, its text has 64 characters.
  pub hash_fd-length :
      (f : OpenFile) {hex : List ℕ} → (hash_fd sha f).0 ≡ some hex → length hex ≡ 64
  hash_fd-length f h = elim (Bool-cases f.seekable) [
    | inl s ↦ hex_digest-length (contents f.reads) (sym (hash_fd-digest f s).0 ∙ h)
    | inr s ↦ absurd_none (sym (ap (λ r. r.0) (hash_fd_unseekable sha f s)) ∙ h)
  ]
    where
      absurd_none : {hex' : List ℕ} → none ≡ some hex' → length hex' ≡ 64
      absurd_none q = cc

module _ ⦃libc : Libc⦄ (sha : Sha256) (digest : List ℕ → List ℕ) (laws : IsSha256 sha digest) where
  hex_digest-decoded :
      (o : Option (List ℕ)) {hex : List ℕ}
      → hex_digest digest o ≡ some hex
      → bytes_to_hex (hex_to_bytes hex) ≡ hex
  unfolding hex_digest
  hex_digest-decoded none h = cc
  hex_digest-decoded (some cs) h =
      let bytes = digest cs in
      let back = hex_to_bytes-bytes_to_hex bytes (laws.digest_length cs) (laws.digest_bytes cs) in
      ground (arith, back, h)

  -- The text that `hash_fd` gives is written again from the bytes that it decodes to.
  pub hash_fd-decoded :
      (f : OpenFile) {hex : List ℕ}
      → (hash_fd sha f).0 ≡ some hex
      → bytes_to_hex (hex_to_bytes hex) ≡ hex
  hash_fd-decoded f h = elim (Bool-cases f.seekable) [
    | inl s ↦ hex_digest-decoded (contents f.reads) (sym (hash_fd-digest sha digest laws f s).0 ∙ h)
    | inr s ↦ absurd_none (sym (ap (λ r. r.0) (hash_fd_unseekable sha f s)) ∙ h)
  ]
    where
      absurd_none : {hex' : List ℕ} → none ≡ some hex' → bytes_to_hex (hex_to_bytes hex') ≡ hex'
      absurd_none q = cc
