-- ===== src/Cache/History.antt =====
-- Histories of calls of whitelist_cache.c, against a plain set of hashes.
use linux_anti_executable.Base.{
  ℕ, ◌≡◌, refl, Bool, false, not, ◌&&◌, ◌||◌, List, [], ◌∷◌, arith, ◌==◌, if◌then◌else◌, ℤ, pos,
  minus_one, length, same_bytes, same_bytes-eq, ◌∙◌,
}
use linux_anti_executable.Hash.Hex.{Libc, hex_to_bytes}
use linux_anti_executable.Whitelist.{Sqlite}
use linux_anti_executable.Cache.Invariant.{
  IsValid, cache_check-IsValid, cache_add-IsValid, cache_remove-IsValid, cache_clear-IsValid,
}
use linux_anti_executable.Cache.Contents.{
  member, cache_check-member, cache_add-member, cache_remove-member, cache_clear-member,
}
use linux_anti_executable.Cache.{
  Stores, hash_hex_len, cache_check, cache_add, cache_remove, cache_clear,
}

-- A call with its arguments; `adds` also has the answers of `malloc` and `time`.
pub data Call : Type 0 where
  checks : (hex : List ℕ) → Call
  adds : (malloc_ok : Bool) (now : ℕ) (hex path : List ℕ) (persist : ℤ) → Call
  removes : (hex : List ℕ) → Call
  clears : Call

-- A plain set of hashes.
abbrev pub HashSet : Type 0
HashSet = List ℕ → Bool

module _ ⦃libc : Libc⦄ where
  -- What a set does on a call, with the answer that the caller sees.
  pub spec : Call → HashSet → ℤ × HashSet
  spec (checks hex) set =
      (if length hex == hash_hex_len && set (hex_to_bytes hex) then pos 1 else pos 0, set)
  spec (adds malloc_ok now hex path persist) set =
      if length hex == hash_hex_len && (set (hex_to_bytes hex) || malloc_ok)
      then (pos 0, λ q. same_bytes (hex_to_bytes hex) q || set q)
      else (minus_one, set)
  spec (removes hex) set =
      if length hex == hash_hex_len && set (hex_to_bytes hex)
      then (pos 0, λ q. not (same_bytes (hex_to_bytes hex) q) && set q)
      else (minus_one, set)
  spec clears set = (pos 0, λ q. false)

  -- The answers of the calls in turn, and the set at the end.
  pub spec_run : List Call → HashSet → List ℤ × HashSet
  spec_run [] set = ([], set)
  spec_run (call ∷ calls) set =
      let (r, set') = spec call set in let (rs, last) = spec_run calls set' in (r ∷ rs, last)

  module _ (sql : Sqlite) where
    -- `cache_clear` answers nothing; 0 stands for that.
    unfoldable pub step : Call → Stores sql.Db → ℤ × Stores sql.Db
    step (checks hex) s = let (r, c) = cache_check hex s.cache in (r, record s { cache = c })
    step (adds malloc_ok now hex path persist) s = cache_add sql malloc_ok now hex path persist s
    step (removes hex) s = let (r, c) = cache_remove hex s.cache in (r, record s { cache = c })
    step clears s = (pos 0, record s { cache = cache_clear s.cache })

    unfoldable pub run : List Call → Stores sql.Db → List ℤ × Stores sql.Db
    unfolding step
    run [] s = ([], s)
    run (call ∷ calls) s =
        let (r, s') = step call s in let (rs, last) = run calls s' in (r ∷ rs, last)

    -- Every call keeps the cache valid.
    pub step-IsValid :
        (call : Call) (s : Stores sql.Db) → IsValid s.cache → IsValid (step call s).1.cache
    unfolding step
    step-IsValid (checks hex) s v = cache_check-IsValid hex v
    step-IsValid (adds malloc_ok now hex path persist) s v =
        cache_add-IsValid sql malloc_ok now hex path persist s v
    step-IsValid (removes hex) s v = cache_remove-IsValid hex v
    step-IsValid clears s v = cache_clear-IsValid v

    -- After any history of calls that starts from a valid cache, the cache is valid: it is in use,
    -- every entry stands once, in the chain of its hash, and passes the filter, the limit holds, and
    -- the counters of entries and of lookups are in step.
    pub run-IsValid :
        (calls : List Call) (s : Stores sql.Db) → IsValid s.cache → IsValid (run calls s).1.cache
    unfolding run
    run-IsValid [] s v = v
    run-IsValid (call ∷ calls) s v = run-IsValid calls (step call s).1 (step-IsValid call s v)

    step-max_entries :
        (call : Call) (s : Stores sql.Db) → (step call s).1.cache.max_entries ≡ s.cache.max_entries
    unfolding step cache_check cache_add cache_remove cache_clear
    step-max_entries (checks hex) s = ground arith
    step-max_entries (adds malloc_ok now hex path persist) s = ground arith
    step-max_entries (removes hex) s = ground arith
    step-max_entries clears s = ground arith

    -- The cache holds the members of the set.
    abbrev pub Holds : Stores sql.Db → HashSet → Type 0
    Holds s set = (q : List ℕ) → member s.cache q ≡ set q

    short_check :
        (hex : List ℕ) (s : Stores sql.Db)
        → (length hex == hash_hex_len) ≡ false
        → (cache_check hex s.cache ≡ (pos 0, s.cache))
          × (cache_remove hex s.cache ≡ (minus_one, s.cache))
    unfolding cache_check cache_remove
    short_check hex s e = ground arith

    short_add :
        (malloc_ok : Bool) (now : ℕ) (hex path : List ℕ) (persist : ℤ) (s : Stores sql.Db)
        → (length hex == hash_hex_len) ≡ false
        → cache_add sql malloc_ok now hex path persist s ≡ (minus_one, s)
    unfolding cache_add
    short_add malloc_ok now hex path persist s e = ground arith

    -- One call answers what the set answers, and leaves the set's new members.
    step-refines :
        (call : Call) (s : Stores sql.Db) (set : HashSet)
        → IsValid s.cache
        → s.cache.max_entries ≡ 0
        → Holds s set
        → ((step call s).0 ≡ (spec call set).0) × Holds (step call s).1 (spec call set).1
    unfolding step spec
    step-refines (checks hex) s set v max h =
        let hash = hex_to_bytes hex in
        (
          ground (arith, h hash, cache_check-member hex hash v, short_check hex s),
          λ q. ground (arith, h q, cache_check-member hex q v, short_check hex s),
        )
    step-refines (adds malloc_ok now hex path persist) s set v max h =
        let hash = hex_to_bytes hex in
        let added = λ (q : List ℕ). cache_add-member sql malloc_ok now hex path persist s q v in
        let short = short_add malloc_ok now hex path persist s in
        (
          ground (arith, h hash, added hash, short),
          λ q. ground (arith, h hash, h q, added q, short),
        )
    step-refines (removes hex) s set v max h =
        let hash = hex_to_bytes hex in
        (
          ground (arith, h hash, cache_remove-member hex hash v, short_check hex s),
          λ q. ground (
            arith,
            h hash,
            h q,
            cache_remove-member hex q v,
            short_check hex s,
            same_bytes-eq hash q,
          ),
        )
    step-refines clears s set v max h = (refl, λ q. cache_clear-member q v)

    -- For every history of calls on a valid cache without a limit, the answers are those of a plain
    -- set that starts with the same members, and so are the members at the end.
    pub run-refines :
        (calls : List Call) (s : Stores sql.Db) (set : HashSet)
        → IsValid s.cache
        → s.cache.max_entries ≡ 0
        → Holds s set
        → ((run calls s).0 ≡ (spec_run calls set).0) × Holds (run calls s).1 (spec_run calls set).1
    unfolding run spec_run
    run-refines [] s set v max h = (refl, h)
    run-refines (call ∷ calls) s set v max h =
        let (answer, kept) = step-refines call s set v max h in
        let (answers, last) =
          run-refines calls (step call s).1 (spec call set).1 (step-IsValid call s v)
            (step-max_entries call s ∙ max) kept in
        (cc, last)
