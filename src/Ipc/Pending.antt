-- ===== src/Ipc/Pending.antt =====
-- `ipc_request_permission` of src/daemon/ipc_server.c with the daemon's one caller: no other
-- request is pending when it is called.
use mathlib.Core.Option
use linux_anti_executable.Base.{
  ℕ, ◌+◌, ◌%◌, ◌^◌, ◌≡◌, ◌≢◌, refl, ap, ◌∙◌, Bool, true, false, Option, none, some, List, [], ◌∷◌,
  arith, ◌==◌, if◌then◌else◌, ℤ, Bool-cases, inl, inr,
}
use linux_anti_executable.Protocol.{ExecRequest, ExecResponse, response_timeout, response_no_client}
use linux_anti_executable.Ipc.{
  PendingRequest, Server, ipc_has_client, receive, receive_all, complete, find_pending, cleanup,
  waited, finish, add_pending, send_and_wait, ipc_request_permission, is_timed,
}

-- The code of the last reply to the request, if there is one.
unfoldable pub last_reply : ℕ → List ExecResponse → Option ℕ → Option ℕ
last_reply id [] found = found
last_reply id (r ∷ rs) found =
    last_reply id rs (if r.request_id == id then some r.response else found)

-- What the caller gets when the request was sent.
unfoldable pub answer : ℤ → Option ℕ → Option ℕ
unfolding is_timed
answer timeout_ms none = if is_timed timeout_ms then some response_timeout else none
answer timeout_ms (some code) = some code

-- The one pending request, in the first slot.
record Waits (id : ℕ) (found : Option ℕ) (s : Server) : Type 0 where
  one : s.pending_count ≡ 1
  same : (s.pending 0).request_id ≡ id
  done : (s.pending 0).completed ≡ elim found [ none ↦ false | some c ↦ true ]
  code : (c : ℕ) → found ≡ some c → (s.pending 0).response ≡ c

find_only :
    (n id : ℕ) (slots : ℕ → PendingRequest)
    → n ≡ 1
    → find_pending n 0 id slots ≡ (if (slots 0).request_id == id then some 0 else none)
unfolding find_pending
find_only n id slots e = rw e refl

receive_only :
    (r : ExecResponse) (s : Server)
    → s.pending_count ≡ 1
    → receive r s ≡ (if r.request_id == (s.pending 0).request_id then complete r (some 0) s else s)
unfolding receive
receive_only r s e = ground (arith, find_only s.pending_count r.request_id s.pending e)

receive-Waits :
    (id : ℕ) (found : Option ℕ) (r : ExecResponse) (s : Server)
    → Waits id found s
    → Waits id (if r.request_id == id then some r.response else found) (receive r s)
unfolding complete
receive-Waits id found r s w =
    rw (receive_only r s w.one, w.same)
      (elim (Bool-cases (r.request_id == id)) [
        | inl e ↦ rw e (record { one = w.one; same = refl; done = refl; code = λ c q. cc })
        | inr e ↦ rw e w
      ])

receive_all-Waits :
    (id : ℕ) (rs : List ExecResponse) (found : Option ℕ) (s : Server)
    → Waits id found s
    → Waits id (last_reply id rs found) (receive_all rs s)
unfolding receive_all last_reply
receive_all-Waits id [] found s w = w
receive_all-Waits id (r ∷ rs) found s w =
    receive_all-Waits id rs (if r.request_id == id then some r.response else found) (receive r s)
      (receive-Waits id found r s w)

-- What no step of a request changes but the first.
pub record Keeps (s s' : Server) : Type 0 where
  pub client : s'.client_fd ≡ s.client_fd
  pub next_id : s'.next_request_id ≡ s.next_request_id
  pub sent : s'.sent ≡ s.sent

receive-Keeps : (r : ExecResponse) (s : Server) → Keeps s (receive r s)
unfolding receive complete
receive-Keeps r s = ground arith

receive_all-Keeps : (rs : List ExecResponse) (s : Server) → Keeps s (receive_all rs s)
unfolding receive_all
receive_all-Keeps [] s = record { client = refl; next_id = refl; sent = refl }
receive_all-Keeps (r ∷ rs) s =
    let one = receive-Keeps r s in
    let rest = receive_all-Keeps rs (receive r s) in ground (arith, one, rest)

waited-answer :
    (id : ℕ) (found : Option ℕ) (timeout_ms : ℤ) (s : Server) (i : ℕ)
    → Waits id found s
    → i ≡ 0
    → waited timeout_ms (s.pending i) ≡ answer timeout_ms found
unfolding waited answer
waited-answer id none timeout_ms s i w e = rw (e, w.done) refl
waited-answer id (some code) timeout_ms s i w e = rw (e, w.done, w.code code refl) refl

finish-map :
    (id : ℕ) (s : Server) (result : Option ℕ)
    → finish id s result ≡ Option.map (λ code. (code, cleanup id s)) result
unfolding finish
finish-map id s none = refl
finish-map id s (some code) = refl

cleanup-count :
    (id : ℕ) (found : Option ℕ) (s : Server)
    → Waits id found s
    → ((cleanup id s).pending_count ≡ 0) × Keeps s (cleanup id s)
unfolding cleanup
cleanup-count id found s w =
    ground (arith, find_only s.pending_count id s.pending w.one, w.one, w.same)

module _ (request : ExecRequest) (s : Server) (idle : s.pending_count ≡ 0) where
  -- The server when the request is on its way.
  asked : Server
  asked = let s1 = add_pending request.request_id s in record s1 { sent = request ∷ s1.sent }

  asked-Waits : Waits request.request_id none asked
  unfolding asked add_pending
  asked-Waits = record {
    one = rw idle (omega arith);
    same = rw idle refl;
    done = rw idle refl;
    code = λ c e. cc;
  }

  -- After the wait: the server, if the call returns.
  pub after_wait : List ExecResponse → Server
  after_wait replies = cleanup request.request_id (receive_all replies asked)

  send_and_wait-answer :
      (replies : List ExecResponse) (timeout_ms : ℤ)
      → send_and_wait true replies request timeout_ms s
        ≡ Option.map
            (λ code. (code, after_wait replies))
            (answer timeout_ms (last_reply request.request_id replies none))
  unfolding send_and_wait finish after_wait asked
  send_and_wait-answer replies timeout_ms =
      let waits = receive_all-Waits request.request_id replies none asked asked-Waits in
      let found = last_reply request.request_id replies none in
      let last = receive_all replies asked in
      ap (finish request.request_id last)
        (waited-answer request.request_id found timeout_ms last s.pending_count waits idle)
      ∙ finish-map request.request_id last (answer timeout_ms found)

  -- No request is pending after the wait, and the GUI has been sent the request.
  pub after_wait_lem :
      (replies : List ExecResponse)
      → ((after_wait replies).pending_count ≡ 0)
        × ((after_wait replies).client_fd ≡ s.client_fd)
        × ((after_wait replies).next_request_id ≡ s.next_request_id)
        × ((after_wait replies).sent ≡ request ∷ s.sent)
  unfolding after_wait asked add_pending
  after_wait_lem replies =
      let waits = receive_all-Waits request.request_id replies none asked asked-Waits in
      let found = last_reply request.request_id replies none in
      let (empty, cleaned) =
        cleanup-count request.request_id found (receive_all replies asked) waits in
      let kept = receive_all-Keeps replies asked in ground (arith, empty, cleaned, kept)

-- With no other request pending and a GUI connected, a request that is written in full gets the
-- code of the last reply that carries its number, whatever other replies arrive; without one it
-- gets the timeout code, or waits for ever if the timeout is not positive. Then no request is
-- pending again, the GUI is still connected and was sent the caller's request under its number, and
-- the next request has the next number.
pub ipc_request_permission-answer :
    (replies : List ExecResponse) (request : ExecRequest) (timeout_ms : ℤ) (s : Server)
    → ipc_has_client s ≡ true
    → s.pending_count ≡ 0
    → (s' : Server) × (ipc_request_permission true replies request timeout_ms s
        ≡ Option.map
            (λ code. (code, s'))
            (answer timeout_ms (last_reply s.next_request_id replies none)))
      × (s'.pending_count ≡ 0)
      × (s'.client_fd ≡ s.client_fd)
      × (s'.next_request_id ≡ (s.next_request_id + 1) % 2 ^ 32)
      × (s'.sent ≡ record request { request_id = s.next_request_id } ∷ s.sent)
unfolding ipc_request_permission
ipc_request_permission-answer replies request timeout_ms s client idle =
    let numbered = record request { request_id = s.next_request_id } in
    let s1 = record s { next_request_id = (s.next_request_id + 1) % 2 ^ 32 } in
    let (count, fd, next_id, sent) = after_wait_lem numbered s1 idle replies in
    (
      after_wait numbered s1 idle replies,
      ground (arith, send_and_wait-answer numbered s1 idle replies timeout_ms),
      count,
      fd,
      next_id,
      sent,
    )

-- Without a connected GUI the request is refused at once and nothing changes.
pub ipc_request_permission_no_client :
    (write_ok : Bool) (replies : List ExecResponse) (request : ExecRequest) (timeout_ms : ℤ)
    (s : Server)
    → ipc_has_client s ≡ false
    → ipc_request_permission write_ok replies request timeout_ms s ≡ some (response_no_client, s)
unfolding ipc_request_permission
ipc_request_permission_no_client write_ok replies request timeout_ms s none_there = ground arith

-- With no other request pending, a request that is not written in full counts as unanswered.
pub ipc_request_permission_unsent :
    (replies : List ExecResponse) (request : ExecRequest) (timeout_ms : ℤ) (s : Server)
    → ipc_has_client s ≡ true
    → s.pending_count ≡ 0
    → (s' : Server) × (ipc_request_permission false replies request timeout_ms s
        ≡ some (response_no_client, s'))
unfolding ipc_request_permission send_and_wait
ipc_request_permission_unsent replies request timeout_ms s client idle =
    let s1 = record s { next_request_id = (s.next_request_id + 1) % 2 ^ 32 } in
    (cleanup s.next_request_id (add_pending s.next_request_id s1), ground (arith, client, idle))

-- With no other request pending, a call that returns leaves none pending, on every path.
pub ipc_request_permission-idle :
    (write_ok : Bool) (replies : List ExecResponse) (request : ExecRequest) (timeout_ms : ℤ)
    (s : Server) {r : ℕ × Server}
    → s.pending_count ≡ 0
    → ipc_request_permission write_ok replies request timeout_ms s ≡ some r
    → r.1.pending_count ≡ 0
unfolding ipc_request_permission add_pending
ipc_request_permission-idle write_ok replies request timeout_ms s {r} idle h =
    let numbered = record request { request_id = s.next_request_id } in
    let s1 = record s { next_request_id = (s.next_request_id + 1) % 2 ^ 32 } in
    let started : Waits s.next_request_id none (add_pending s.next_request_id s1) = record {
      one = rw idle (omega arith);
      same = rw idle refl;
      done = rw idle refl;
      code = λ c e. cc;
    } in
    ground (
      arith,
      send_and_wait-answer numbered s1 idle replies timeout_ms,
      after_wait_lem numbered s1 idle replies,
      cleanup-count s.next_request_id none (add_pending s.next_request_id s1) started,
    )

waited-returns :
    (timeout_ms : ℤ) (p : PendingRequest)
    → is_timed timeout_ms ≡ true
    → (code : ℕ) × (waited timeout_ms p ≡ some code)
unfolding waited
waited-returns timeout_ms p t = elim (Bool-cases p.completed) [
  | inl e ↦ (p.response, ground arith)
  | inr e ↦ (response_timeout, ground arith)
]

-- With a positive timeout the call returns, whatever is pending and whatever replies arrive.
pub ipc_request_permission-returns :
    (write_ok : Bool) (replies : List ExecResponse) (request : ExecRequest) (timeout_ms : ℤ)
    (s : Server)
    → is_timed timeout_ms ≡ true
    → ipc_request_permission write_ok replies request timeout_ms s ≢ none
unfolding ipc_request_permission send_and_wait finish
ipc_request_permission-returns write_ok replies request timeout_ms s t h =
    let numbered = record request { request_id = s.next_request_id } in
    let s1 = record s { next_request_id = (s.next_request_id + 1) % 2 ^ 32 } in
    let s2 = add_pending s.next_request_id s1 in
    let last = receive_all replies (record s2 { sent = numbered ∷ s2.sent }) in
    let (code, returned) = waited-returns timeout_ms (last.pending s.pending_count) t in
    ground (arith, returned)
