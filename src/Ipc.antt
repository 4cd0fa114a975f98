-- ===== src/Ipc.antt =====
-- src/daemon/ipc_server.c: the connected GUI and the requests that wait for its answer. Each part
-- that holds a lock is one step. The daemon calls `ipc_request_permission` from the thread of the
-- event loop only; the accept thread and the reader threads run beside it.
pub mod Visits
pub mod Wire
pub mod Deadline
pub mod Pending
pub mod Callers
pub mod Threads
use linux_anti_executable.Base.{
  ℕ, zero, suc, ◌-◌, update, ◌+◌, ◌%◌, ◌^◌, Bool, true, false, not, ◌&&◌, Option, none, some, List,
  [], ◌∷◌, ◌++◌, ltb, leb, ◌==◌, if◌then◌else◌, ℤ, pos, minus_one, negsuc, length,
}
use linux_anti_executable.Protocol.{ExecRequest, ExecResponse, response_timeout, response_no_client}

-- A slot of `g_pending`; its condition variable and mutex carry no data.
pub record PendingRequest : Type 0 where
  pub request_id : ℕ
  pub response : ℕ
  pub completed : Bool

-- `g_server`, with `none` for a descriptor of -1, and `g_pending`, a function of the
-- index. `accepting` says that the accept thread runs in this process, and `sent` is what has been
-- written to the GUI, the newest first.
pub record Server : Type 0 where
  pub server_fd : Option ℕ
  pub client_fd : Option ℕ
  pub running : Bool
  pub accepting : Bool
  pub next_request_id : ℕ
  pub pending : ℕ → PendingRequest
  pub pending_count : ℕ
  pub sent : List ExecRequest

abbrev pub zero_request : PendingRequest
zero_request = record { request_id = 0; response = 0; completed = false }

abbrev pub stopped_server : Server
stopped_server = record {
  server_fd = none;
  client_fd = none;
  running = false;
  accepting = false;
  next_request_id = 1;
  pending = λ _. zero_request;
  pending_count = 0;
  sent = [];
}

abbrev pub max_pending_requests : ℕ
max_pending_requests = 64

unfoldable pub ipc_has_client : Server → Bool
ipc_has_client s = elim s.client_fd [ none ↦ false | some fd ↦ true ]

unfoldable pub ipc_pending_count : Server → ℕ
ipc_pending_count s = s.pending_count

-- The first argument is the new socket. A socket that cannot be bound, listened on or served is
-- closed, and the descriptor keeps its number.
unfoldable pub ipc_server_init : Option ℕ → Bool → Bool → Bool → Server → ℤ × Server
ipc_server_init none bind_ok listen_ok thread_ok s = (minus_one, record s { server_fd = none })
ipc_server_init (some fd) bind_ok listen_ok thread_ok s =
    let s1 = record s { server_fd = some fd } in
    let s2 = record s1 { running = true } in
    if not bind_ok
    then (minus_one, s1)
    else if not listen_ok
    then (minus_one, s1)
    else if not thread_ok
    then (minus_one, s2)
    else (pos 0, record s2 { accepting = true })

unfoldable pub ipc_server_shutdown : Server → Server
ipc_server_shutdown s = record s {
  running = false;
  server_fd = none;
  client_fd = none;
  accepting = false;
}

-- The accept thread: a new client takes the place of the old one, whose descriptor is closed.
unfoldable pub accept_client : ℕ → Server → Server
accept_client client s = record s { client_fd = some client }

same_fd : Option ℕ → ℕ → Bool
same_fd none fd = false
same_fd (some a) fd = a == fd

-- The reader thread of a client when `read` fails or ends.
unfoldable pub client_gone : ℕ → Server → Server
unfolding same_fd
client_gone client s = if same_fd s.client_fd client then record s { client_fd = none } else s

-- What the accept thread and the reader threads do between two steps of the event loop: a client is
-- accepted, as long as there is a thread for it, or the read of one ends.
pub data Visit : Type 0 where
  joins leaves : ℕ → Visit

unfoldable pub visit : Visit → Server → Server
visit (joins client) s = if s.accepting then accept_client client s else s
visit (leaves client) s = client_gone client s

unfoldable pub visit_all : List Visit → Server → Server
visit_all [] s = s
visit_all (v ∷ vs) s = visit_all vs (visit v s)

-- The two loops over the slots: the rounds left, and the first index from `i` on with this id.
find_pending : ℕ → ℕ → ℕ → (ℕ → PendingRequest) → Option ℕ
find_pending zero i id slots = none
find_pending (suc n) i id slots =
    let later = find_pending n (i + 1) id slots in
    if (slots i).request_id == id then some i else later

complete : ExecResponse → Option ℕ → Server → Server
complete r none s = s
complete r (some i) s = record s {
  pending = update s.pending i (record (s.pending i) { response = r.response; completed = true });
}

-- The reader thread on a whole response; a response for no pending request is dropped.
unfoldable pub receive : ExecResponse → Server → Server
unfolding find_pending complete
receive r s = complete r (find_pending s.pending_count 0 r.request_id s.pending) s

unfoldable pub receive_all : List ExecResponse → Server → Server
receive_all [] s = s
receive_all (r ∷ rs) s = receive_all rs (receive r s)

-- `memmove` of the later entries, and the count.
remove_slot : Option ℕ → Server → Server
remove_slot none s = s
remove_slot (some i) s = record s {
  pending = λ j. if leb i j && ltb (j + 1) s.pending_count then s.pending (j + 1) else s.pending j;
  pending_count = s.pending_count - 1;
}

-- The part at `cleanup`.
unfoldable pub cleanup : ℕ → Server → Server
unfolding remove_slot find_pending
cleanup id s = remove_slot (find_pending s.pending_count 0 id s.pending) s

-- `timeout_ms > 0`
unfoldable pub is_timed : ℤ → Bool
is_timed (pos n) = ltb 0 n
is_timed (negsuc n) = false

-- The wait ends with the answer, or by the clock; `none` is a wait that does not end.
waited : ℤ → PendingRequest → Option ℕ
unfolding is_timed
waited timeout_ms p =
    if p.completed
    then some p.response
    else if is_timed timeout_ms
    then some response_timeout
    else none

finish : ℕ → Server → Option ℕ → Option (ℕ × Server)
unfolding cleanup
finish id s none = none
finish id s (some result) = some (result, cleanup id s)

-- The slot at the end of the used part, whose address `pending` keeps.
add_pending : ℕ → Server → Server
add_pending id s = record s {
  pending =
      update s.pending s.pending_count
        (record { request_id = id; response = response_timeout; completed = false });
  pending_count = s.pending_count + 1;
}

-- From the allocation of the slot on.
send_and_wait : Bool → List ExecResponse → ExecRequest → ℤ → Server → Option (ℕ × Server)
unfolding add_pending waited finish
send_and_wait write_ok replies request timeout_ms s =
    let id = request.request_id in
    let slot = s.pending_count in
    let s1 = add_pending id s in
    if not write_ok
    then some (response_no_client, cleanup id s1)
    else let s2 = receive_all replies (record s1 { sent = request ∷ s1.sent }) in
      finish id s2 (waited timeout_ms (s2.pending slot))

-- `write_ok` says that the whole request was written, and `replies` is what the reader threads
-- receive before the wait ends. `none` is a call that never returns.
unfoldable pub ipc_request_permission :
    Bool → List ExecResponse → ExecRequest → ℤ → Server → Option (ℕ × Server)
unfolding send_and_wait
ipc_request_permission write_ok replies request timeout_ms s =
    if not (ipc_has_client s)
    then some (response_no_client, s)
    else let id = s.next_request_id in
      let s1 = record s { next_request_id = (id + 1) % 2 ^ 32 } in
      if leb max_pending_requests s1.pending_count
      then some (response_timeout, s1)
      else send_and_wait write_ok replies (record request { request_id = id }) timeout_ms s1
