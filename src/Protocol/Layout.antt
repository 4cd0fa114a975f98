-- ===== src/Protocol/Layout.antt =====
-- The two structures of src/common/protocol.h as the bytes that `write(fd, &x, sizeof(x))` of
-- src/daemon/ipc_server.c and src/gui/main.c puts on the socket, on a little-endian 64-bit host.
use linux_anti_executable.Base.{
  ℕ, zero, suc, ◌+◌, ◌*◌, ◌/◌, ◌%◌, ◌^◌, ◌-◌, Bool, false, not, List, [], ◌∷◌, ◌++◌, ◌==◌,
  if◌then◌else◌, take, drop, length,
}
use linux_anti_executable.Protocol.{ExecRequest, ExecResponse}

-- `uint32_t`, and what has its size
unfoldable pub u32_bytes : ℕ → List ℕ
u32_bytes n = n % 256 ∷ n / 2 ^ 8 % 256 ∷ n / 2 ^ 16 % 256 ∷ n / 2 ^ 24 % 256 ∷ []

unfoldable pub bytes_u32 : List ℕ → ℕ
bytes_u32 (a ∷ b ∷ c ∷ d ∷ rest) = a + b * 2 ^ 8 + c * 2 ^ 16 + d * 2 ^ 24
bytes_u32 bytes = 0

unfoldable pub zeros : ℕ → List ℕ
zeros zero = []
zeros (suc n) = 0 ∷ zeros n

-- `char[n]` with a text in it, in zeroed memory
unfoldable pub char_array : ℕ → List ℕ → List ℕ
char_array n text = text ++ zeros (n - length text)

-- The text up to the first zero, as the functions on strings read it.
unfoldable pub c_string : List ℕ → List ℕ
c_string [] = []
c_string (b ∷ bs) = let rest = c_string bs in if b == 0 then [] else b ∷ rest

-- `LEXEC_MAX_PATH` and `LEXEC_HASH_SIZE + 1`
abbrev pub path_size : ℕ
path_size = 4096

abbrev pub hash_size : ℕ
hash_size = 65

-- `sizeof(lexec_exec_request_t)`: three words, the arrays, the flag, and two bytes of padding.
abbrev pub request_size : ℕ
request_size = 12368

abbrev pub response_size : ℕ
response_size = 8

-- The padding is zero, since `ask_user_permission` clears the whole structure first.
unfoldable pub request_bytes : ExecRequest → List ℕ
request_bytes r =
    u32_bytes r.request_id
    ++ (u32_bytes r.pid
        ++ (u32_bytes r.uid
            ++ (char_array path_size r.path
                ++ (char_array hash_size r.hash
                    ++ (char_array path_size r.cmdline
                        ++ (char_array path_size r.parent_path
                            ++ ((if r.is_shared_lib then 1 else 0) ∷ 0 ∷ 0 ∷ [])))))))

unfoldable pub response_bytes : ExecResponse → List ℕ
response_bytes r = u32_bytes r.request_id ++ u32_bytes r.response

unfoldable pub flag_of : List ℕ → Bool
flag_of [] = false
flag_of (b ∷ bs) = not (b == 0)

-- What the fields of the structure read in a buffer of its size.
unfoldable pub request_of : List ℕ → ExecRequest
request_of bytes =
    let b1 = drop 4 bytes in
    let b2 = drop 4 b1 in
    let b3 = drop 4 b2 in
    let b4 = drop path_size b3 in
    let b5 = drop hash_size b4 in
    let b6 = drop path_size b5 in
    record {
      request_id = bytes_u32 bytes;
      pid = bytes_u32 b1;
      uid = bytes_u32 b2;
      path = c_string (take path_size b3);
      hash = c_string (take hash_size b4);
      cmdline = c_string (take path_size b5);
      parent_path = c_string (take path_size b6);
      is_shared_lib = flag_of (drop path_size b6);
    }

unfoldable pub response_of : List ℕ → ExecResponse
response_of bytes = record { request_id = bytes_u32 bytes; response = bytes_u32 (drop 4 bytes) }
