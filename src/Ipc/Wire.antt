-- ===== src/Ipc/Wire.antt =====
-- The bytes on the socket between `ipc_request_permission` and `client_reader_thread` of
-- src/daemon/ipc_server.c and `on_socket_readable` of src/gui/main.c.
use linux_anti_executable.Base.{
  ℕ, zero, suc, ◌^◌, ◌<◌, ◌≤◌, ◌≡◌, ◌∙◌, refl, ap, Bool, true, Option, none, some, List, [], ◌∷◌,
  ◌++◌, arith, ◌==◌, if◌then◌else◌, take, drop, length, All,
}
use linux_anti_executable.Protocol.{ExecRequest, ExecResponse}
use linux_anti_executable.Protocol.Layout.{
  request_size, response_size, u32_bytes, bytes_u32, path_size, request_bytes, request_of,
  response_bytes, response_of,
}
use linux_anti_executable.Protocol.RoundTrip.{
  IsText, Fits, take_front, drop_front, length-request_bytes, request_of-request_bytes,
  response_of-response_bytes,
}
use linux_anti_executable.Ipc.{Server, receive, receive_all}
use linux_anti_executable.Gui.{
  Gui, Wakeup, whole, end_of_file, partial, on_socket_readable, show_permission_dialog,
}
use linux_anti_executable.Fanotify.{Event, build_request, parent_path}

-- What `read(g_app.daemon_socket, &request, sizeof(request))` gives the GUI.
unfoldable pub wakeup_of : List ℕ → Wakeup
wakeup_of bytes =
    if length bytes == request_size
    then whole (request_of bytes)
    else if length bytes == 0
    then end_of_file
    else partial

-- One round of the reader thread, with the bytes that
-- `read(client_fd, &response, sizeof(response))` gives; a read of another length is passed over.
unfoldable pub receive_bytes : List ℕ → Server → Server
receive_bytes bytes s = if length bytes == response_size then receive (response_of bytes) s else s

-- The rounds on a stream of bytes if every `read` fills the structure as long as there are bytes.
unfoldable pub receive_stream : ℕ → List ℕ → Server → Server
receive_stream zero stream s = s
receive_stream (suc n) stream s =
    receive_stream n (drop response_size stream) (receive_bytes (take response_size stream) s)

-- The responses one after the other.
unfoldable pub stream_of : List ExecResponse → List ℕ
stream_of [] = []
stream_of (r ∷ rs) = response_bytes r ++ stream_of rs

-- The numbers have 32 bits.
pub record IsWord (r : ExecResponse) : Type 0 where
  pub request_id : r.request_id < 2 ^ 32
  pub response : r.response < 2 ^ 32

length-response_bytes : (r : ExecResponse) → length (response_bytes r) ≡ response_size
unfolding response_bytes u32_bytes
length-response_bytes r = refl

receive_bytes-response :
    (r : ExecResponse) (s : Server) → IsWord r → receive_bytes (response_bytes r) s ≡ receive r s
unfolding receive_bytes
receive_bytes-response r s w =
    ground (arith, length-response_bytes r, response_of-response_bytes r w.request_id w.response)

receive_stream_next :
    (n : ℕ) (r : ExecResponse) (rest : List ℕ) (s : Server)
    → IsWord r
    → receive_stream (suc n) (response_bytes r ++ rest) s ≡ receive_stream n rest (receive r s)
unfolding receive_stream
receive_stream_next n r rest s w =
    let bytes = response_bytes r in
    let long = length-response_bytes r in
    ap (receive_stream n (drop response_size (bytes ++ rest))) (
      ap (λ x. receive_bytes x s) (take_front response_size bytes rest long)
      ∙ receive_bytes-response r s w)
    ∙ ap (λ x. receive_stream n x (receive r s)) (drop_front response_size bytes rest long)

-- Responses whose numbers fit the structure's fields all arrive, in order and as they were written,
-- when every read fills the structure.
pub receive_stream-receive_all :
    (rs : List ExecResponse) (s : Server)
    → All IsWord rs
    → receive_stream (length rs) (stream_of rs) s ≡ receive_all rs s
unfolding receive_stream stream_of receive_all
receive_stream-receive_all [] s w = refl
receive_stream-receive_all (r ∷ rs) s w =
    receive_stream_next (length rs) r (stream_of rs) s w.0
    ∙ receive_stream-receive_all rs (receive r s) w.1

-- A request that fits reaches the GUI's dialog as it is.
request_arrives :
    (r : ExecRequest) (g : Gui)
    → Fits r
    → on_socket_readable (wakeup_of (request_bytes r)) g ≡ (true, show_permission_dialog r g)
unfolding wakeup_of on_socket_readable
request_arrives r g f = ground (arith, length-request_bytes r f, request_of-request_bytes r f)

All-take : (n : ℕ) (bs : List ℕ) → All (λ b. 0 < b) bs → All (λ b. 0 < b) (take n bs)
All-take zero bs h = tt
All-take (suc n) [] h = tt
All-take (suc n) (b ∷ bs) h = (h.0, All-take n bs h.1)

length-take-le : (n : ℕ) (bs : List ℕ) → length (take n bs) ≤ n
length-take-le zero bs = omega arith
length-take-le (suc n) [] = omega arith
length-take-le (suc n) (b ∷ bs) = omega (arith, length-take-le n bs)

clipped-IsText : (n : ℕ) (bs : List ℕ) → All (λ b. 0 < b) bs → IsText (suc n) (take n bs)
clipped-IsText n bs h = record {
  short = omega (arith, length-take-le n bs);
  nonzero = All-take n bs h;
}

-- The link of the parent process has no zero, if it can be read.
abbrev pub IsLink : Option (List ℕ) → Type 0
IsLink none = Unit {0}
IsLink (some target) = All (λ b. 0 < b) target

parent_path-IsText : (link : Option (List ℕ)) → IsLink link → IsText path_size (parent_path link)
unfolding parent_path
parent_path-IsText none h = record { short = omega arith; nonzero = tt }
parent_path-IsText (some target) h = clipped-IsText 4095 target h

-- The question that the daemon asks about a file, whatever the lengths of the paths, reaches the
-- GUI's dialog as it is, if the numbers have 32 bits and no text has a zero in it.
pub question_arrives :
    (id : ℕ) (path hash : List ℕ) (e : Event) (is_so : Bool) (g : Gui)
    → id < 2 ^ 32
    → e.pid < 2 ^ 32
    → All (λ b. 0 < b) path
    → All (λ b. 0 < b) hash
    → IsLink e.parent_link
    → let question = record (build_request path hash e is_so) { request_id = id } in
      on_socket_readable (wakeup_of (request_bytes question)) g
      ≡ (true, show_permission_dialog question g)
unfolding build_request
question_arrives id path hash e is_so g small pid p h l =
    request_arrives (record (build_request path hash e is_so) { request_id = id }) g
      (record {
        request_id = small;
        pid = pid;
        uid = omega arith;
        path = clipped-IsText 4095 path p;
        hash = clipped-IsText 64 hash h;
        cmdline = record { short = omega arith; nonzero = tt };
        parent_path = parent_path-IsText e.parent_link l;
      })

-- After a read that ends in the middle of a response the reader never finds the next one: it takes
-- the code of the one and the id of the other for a response.
pub short_read_shifts :
    (a b : ExecResponse) (s : Server)
    → IsWord a
    → IsWord b
    → let stream = stream_of (a ∷ b ∷ []) in
      receive_bytes (take response_size (drop 4 stream)) (receive_bytes (take 4 stream) s)
      ≡ receive (record { request_id = a.response; response = b.request_id }) s
unfolding receive_bytes stream_of response_bytes u32_bytes response_of bytes_u32
short_read_shifts a b s v w = ground (arith, v, w)
