-- ===== src/Tests/Samples.antt =====
-- In-memory stand-ins for SQLite, OpenSSL and libc, and the states that the runs start from.
use linux_anti_executable.Base.{
  ℕ, zero, suc, ◌+◌, ◌%◌, ◌<◌, ◌≡◌, refl, Bool, true, false, not, ◌&&◌, ◌||◌, some, List, [], ◌∷◌,
  ◌++◌, arith, if◌then◌else◌, pos, codes, length, All, same_bytes, same_bytes-eq, same_bytes_refl,
}
use linux_anti_executable.Hash.Hex.{Libc}
use linux_anti_executable.Hash.File.{Sha256, chunk, OpenFile}
use linux_anti_executable.Hash.File.Digest.{IsSha256}
use linux_anti_executable.Whitelist.{Sqlite, Whitelist, closed, whitelist_init}
use linux_anti_executable.Whitelist.Laws.{IsSqlite, IsOpen, whitelist_init-IsOpen}
use linux_anti_executable.Cache.{Cache, Stores, zero_cache, cache_init}
use linux_anti_executable.Cache.Invariant.{IsValid, cache_init-IsValid}
use linux_anti_executable.Config.{default_config}
use linux_anti_executable.Ipc.{Server, stopped_server, accept_client}
use linux_anti_executable.Fanotify.{Event, Daemon}
use linux_anti_executable.Fanotify.Ready.{IsReady}

abbrev pub sample_libc : Libc
sample_libc = record { scan_other = λ _. 0 }

-- A table is the list of its hashes.
unfoldable pub holds : List ℕ → List (List ℕ) → Bool
holds q [] = false
holds q (h ∷ db) = same_bytes h q || holds q db

unfoldable pub without : List ℕ → List (List ℕ) → List (List ℕ)
without h [] = []
without h (x ∷ db) = let rest = without h db in if same_bytes h x then rest else x ∷ rest

abbrev pub memory_sqlite : Sqlite
memory_sqlite = record {
  Db = List (List ℕ);
  open_db = λ _. (0, []);
  create_table = λ db. (0, db);
  prepare_check = λ _. 0;
  prepare_add = λ _. 0;
  prepare_remove = λ _. 0;
  prepare_count = λ _. 0;
  select_hash = λ db h. if holds h db then 100 else 101;
  insert_or_replace = λ db h p t s. (101, h ∷ db);
  delete_hash = λ db h. (101, without h db);
  select_count = λ db. (100, length db);
}

holds-without :
    (h q : List ℕ) (db : List (List ℕ))
    → holds q (without h db) ≡ (not (same_bytes h q) && holds q db)
unfolding holds without
holds-without h q [] = ground arith
holds-without h q (x ∷ db) = ground (
  arith,
  holds-without h q db,
  same_bytes-eq h x,
  same_bytes-eq x q,
  same_bytes-eq h q,
  same_bytes_refl q,
)

pub memory_sqlite-IsSqlite : IsSqlite memory_sqlite
unfolding holds
memory_sqlite-IsSqlite = record {
  insert_done = λ db h p t s q e. ground arith;
  insert_fails = λ db h p t s q e. absurd (e refl);
  delete_done = λ db h q e. ground (arith, holds-without h q db);
  delete_fails = λ db h q e. absurd (e refl);
}

byte_sum : List ℕ → ℕ
byte_sum [] = 0
byte_sum (b ∷ bs) = b + byte_sum bs

repeated : ℕ → ℕ → List ℕ
repeated zero b = []
repeated (suc n) b = b ∷ repeated n b

-- A digest of 32 bytes for the sake of the runs: one sum, and padding.
unfoldable pub sum_digest : List ℕ → List ℕ
unfolding byte_sum repeated
sum_digest bs = byte_sum bs % 256 ∷ repeated 31 7

abbrev pub sample_sha : Sha256
sample_sha = record {
  Context = List ℕ;
  init = some [];
  update = λ c bs. some (c ++ bs);
  final = λ c. some (sum_digest c);
}

sum_digest-All : (bs : List ℕ) → All (λ b. b < 256) (sum_digest bs)
unfolding sum_digest
sum_digest-All bs = ground arith

pub sample_sha-IsSha256 : IsSha256 sample_sha sum_digest
unfolding sum_digest
sample_sha-IsSha256 = record {
  absorbed = λ c. c;
  start = [];
  init_starts = refl;
  start_empty = refl;
  feed = λ c bs. c ++ bs;
  update_feeds = λ c bs. refl;
  feed_appends = λ c bs. refl;
  final_digests = λ c. refl;
  digest_length = λ bs. refl;
  digest_bytes = sum_digest-All;
}

-- An ELF file that is read in two chunks, from a descriptor that stands behind its magic.
abbrev pub elf_file : OpenFile
elf_file = record {
  offset = 4;
  seekable = true;
  reads = chunk (0x7f ∷ 69 ∷ 76 ∷ 70 ∷ []) ∷ chunk (1 ∷ 2 ∷ []) ∷ [];
}

-- The start of `/usr/bin/ls`, with a GUI that has not answered.
abbrev pub exec_event : Event
exec_event = record {
  fd = 9;
  pid = 1234;
  version_ok = true;
  open_exec_perm = true;
  open_perm = false;
  link = some (codes "/usr/bin/ls");
  magic = chunk (0x7f ∷ 69 ∷ 76 ∷ 70 ∷ []);
  file = elf_file;
  parent_link = some (codes "/usr/bin/bash");
  malloc_ok = true;
  respond_ok = true;
  request_ok = true;
  now = 1700000000;
  replies = [];
  visits = [];
}

-- The opening of a library.
abbrev pub open_event : Event
open_event = record exec_event {
  open_exec_perm = false;
  open_perm = true;
  link = some (codes "/usr/lib/libm.so.6");
}

abbrev pub empty_cache : Cache
empty_cache = (cache_init true true 0 zero_cache).1

pub empty_cache-IsValid : IsValid empty_cache
unfolding cache_init
empty_cache-IsValid = cache_init-IsValid true 0 zero_cache refl (omega arith) refl

abbrev pub open_whitelist : Whitelist (List (List ℕ))
open_whitelist = (whitelist_init memory_sqlite (codes "/var/lib/lexec/whitelist.db") closed).1

pub open_whitelist-IsOpen : IsOpen memory_sqlite open_whitelist
unfolding whitelist_init
open_whitelist-IsOpen =
    whitelist_init-IsOpen memory_sqlite (codes "/var/lib/lexec/whitelist.db") closed refl

abbrev pub empty_stores : Stores (List (List ℕ))
empty_stores = record { cache = empty_cache; whitelist = open_whitelist }

-- A server with a GUI connected.
abbrev pub connected_server : Server
connected_server = accept_client 7 stopped_server

abbrev pub started : Daemon (List (List ℕ))
started = record {
  config = default_config;
  stores = empty_stores;
  server = connected_server;
  running = true;
  monitor_shared_libs = pos 1;
  marks = [];
  stat_allowed = 0;
  stat_denied = 0;
  stat_cached = 0;
  verdicts = [];
}

-- The same in learning mode.
abbrev pub learner : Daemon (List (List ℕ))
learner = record started { config = record default_config { learning_mode = pos 1 } }

pub started-IsReady : IsReady ⦃libc = sample_libc⦄ memory_sqlite started
unfolding cache_init accept_client
started-IsReady = record {
  valid = empty_cache-IsValid;
  unlimited = refl;
  opened = open_whitelist-IsOpen;
  idle = refl;
}

pub learner-IsReady : IsReady ⦃libc = sample_libc⦄ memory_sqlite learner
unfolding cache_init accept_client
learner-IsReady = record {
  valid = empty_cache-IsValid;
  unlimited = refl;
  opened = open_whitelist-IsOpen;
  idle = refl;
}
