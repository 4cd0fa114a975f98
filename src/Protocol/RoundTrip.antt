-- ===== src/Protocol/RoundTrip.antt =====
-- What one end of the socket writes the other end reads (src/common/protocol.h).
use linux_anti_executable.Base.{
  ℕ, zero, suc, ◌^◌, ◌-◌, ◌<◌, ◌≡◌, ◌∙◌, refl, ap, List, [], ◌∷◌, ◌++◌, arith, if◌then◌else◌, take,
  drop, length, length-append, All,
}
use linux_anti_executable.Protocol.{ExecRequest, ExecResponse}
use linux_anti_executable.Protocol.Layout.{
  u32_bytes, bytes_u32, zeros, char_array, c_string, path_size, hash_size, request_size,
  request_bytes, response_bytes, flag_of, request_of, response_of,
}

-- A text without a zero that leaves room for one in an array of this size.
pub record IsText (n : ℕ) (text : List ℕ) : Type 0 where
  pub short : length text < n
  pub nonzero : All (λ b. 0 < b) text

-- The numbers have 32 bits, and the texts fit into their arrays.
pub record Fits (r : ExecRequest) : Type 0 where
  pub request_id : r.request_id < 2 ^ 32
  pub pid : r.pid < 2 ^ 32
  pub uid : r.uid < 2 ^ 32
  pub path : IsText path_size r.path
  pub hash : IsText hash_size r.hash
  pub cmdline : IsText path_size r.cmdline
  pub parent_path : IsText path_size r.parent_path

pub take_front {ℓ} : {A : Type ℓ} (n : ℕ) (xs ys : List A) → length xs ≡ n → take n (xs ++ ys) ≡ xs
take_front zero [] ys h = refl
take_front (suc n) [] ys h = absurd (omega (arith, h))
take_front zero (x ∷ xs) ys h = absurd (omega (arith, h))
take_front (suc n) (x ∷ xs) ys h = ap (λ rest. x ∷ rest) (take_front n xs ys (omega (arith, h)))

pub drop_front {ℓ} : {A : Type ℓ} (n : ℕ) (xs ys : List A) → length xs ≡ n → drop n (xs ++ ys) ≡ ys
drop_front zero [] ys h = refl
drop_front (suc n) [] ys h = absurd (omega (arith, h))
drop_front zero (x ∷ xs) ys h = absurd (omega (arith, h))
drop_front (suc n) (x ∷ xs) ys h = drop_front n xs ys (omega (arith, h))

bytes_u32-u32_bytes : (n : ℕ) (rest : List ℕ) → n < 2 ^ 32 → bytes_u32 (u32_bytes n ++ rest) ≡ n
unfolding bytes_u32 u32_bytes
bytes_u32-u32_bytes n rest h = omega (arith, h)

drop-u32_bytes : (n : ℕ) (rest : List ℕ) → drop 4 (u32_bytes n ++ rest) ≡ rest
unfolding u32_bytes
drop-u32_bytes n rest = refl

length-zeros : (n : ℕ) → length (zeros n) ≡ n
unfolding zeros
length-zeros zero = refl
length-zeros (suc n) = ap suc (length-zeros n)

length-char_array : (n : ℕ) (text : List ℕ) → IsText n text → length (char_array n text) ≡ n
unfolding char_array
length-char_array n text t =
    omega
      (arith, t.short, length-append text (zeros (n - length text)), length-zeros (n - length text))

c_string-zeros : (n : ℕ) → c_string (zeros n) ≡ []
unfolding c_string zeros
c_string-zeros zero = refl
c_string-zeros (suc n) = refl

c_string-append :
    (text : List ℕ) (n : ℕ) → All (λ b. 0 < b) text → c_string (text ++ zeros n) ≡ text
unfolding c_string
c_string-append [] n h = c_string-zeros n
c_string-append (b ∷ bs) n h = ground (arith, h.0, c_string-append bs n h.1)

c_string-char_array :
    (n : ℕ) (text rest : List ℕ)
    → IsText n text
    → c_string (take n (char_array n text ++ rest)) ≡ text
unfolding char_array
c_string-char_array n text rest t =
    ap c_string (take_front n (char_array n text) rest (length-char_array n text t))
    ∙ c_string-append text (n - length text) t.nonzero

drop-char_array :
    (n : ℕ) (text rest : List ℕ) → IsText n text → drop n (char_array n text ++ rest) ≡ rest
drop-char_array n text rest t = drop_front n (char_array n text) rest (length-char_array n text t)

pub response_of-response_bytes :
    (r : ExecResponse)
    → r.request_id < 2 ^ 32
    → r.response < 2 ^ 32
    → response_of (response_bytes r) ≡ r
unfolding response_of response_bytes u32_bytes bytes_u32
response_of-response_bytes r h k = ground (arith, h, k)

-- The request in memory, field by field from the end.
module _ (r : ExecRequest) where
  from_flag : List ℕ
  from_flag = (if r.is_shared_lib then 1 else 0) ∷ 0 ∷ 0 ∷ []

  from_parent_path : List ℕ
  from_parent_path = char_array path_size r.parent_path ++ from_flag

  from_cmdline : List ℕ
  from_cmdline = char_array path_size r.cmdline ++ from_parent_path

  from_hash : List ℕ
  from_hash = char_array hash_size r.hash ++ from_cmdline

  from_path : List ℕ
  from_path = char_array path_size r.path ++ from_hash

  flag_lem : flag_of from_flag ≡ r.is_shared_lib
  unfolding flag_of from_flag
  flag_lem = ground arith

  from_uid : List ℕ
  from_uid = u32_bytes r.uid ++ from_path

  from_pid : List ℕ
  from_pid = u32_bytes r.pid ++ from_uid

  -- A request that fits takes 12368 bytes on the socket.
  pub length-request_bytes : Fits r → length (request_bytes r) ≡ request_size
  unfolding request_bytes u32_bytes from_flag from_parent_path from_cmdline from_hash
  length-request_bytes f =
      rw
        (
          length-append (char_array path_size r.path) from_hash,
          length-append (char_array hash_size r.hash) from_cmdline,
          length-append (char_array path_size r.cmdline) from_parent_path,
          length-append (char_array path_size r.parent_path) from_flag,
          length-char_array path_size r.path f.path,
          length-char_array hash_size r.hash f.hash,
          length-char_array path_size r.cmdline f.cmdline,
          length-char_array path_size r.parent_path f.parent_path,
        )
        refl

  -- The fields of a request that fits are read back from its bytes.
  pub request_of-request_bytes : Fits r → request_of (request_bytes r) ≡ r
  unfolding request_of request_bytes from_pid from_uid from_path from_hash from_cmdline
      from_parent_path from_flag
  request_of-request_bytes f =
      simp
        (
          drop-u32_bytes,
          bytes_u32-u32_bytes r.request_id from_pid f.request_id,
          bytes_u32-u32_bytes r.pid from_uid f.pid,
          bytes_u32-u32_bytes r.uid from_path f.uid,
          drop-char_array path_size r.path from_hash f.path,
          drop-char_array hash_size r.hash from_cmdline f.hash,
          drop-char_array path_size r.cmdline from_parent_path f.cmdline,
          drop-char_array path_size r.parent_path from_flag f.parent_path,
          c_string-char_array path_size r.path from_hash f.path,
          c_string-char_array hash_size r.hash from_cmdline f.hash,
          c_string-char_array path_size r.cmdline from_parent_path f.cmdline,
          c_string-char_array path_size r.parent_path from_flag f.parent_path,
          flag_lem,
        )
        refl
