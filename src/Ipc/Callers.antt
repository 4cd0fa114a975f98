-- ===== src/Ipc/Callers.antt =====
-- Several callers of `ipc_request_permission` of src/daemon/ipc_server.c at once, for which it keeps
-- 64 slots, as an interleaving of their steps.
pub mod Missed
use linux_anti_executable.Base.{
  ℕ, suc, ◌+◌, ◌%◌, ◌^◌, ◌≤◌, ◌<◌, ◌≡◌, refl, true, false, Option, none, some, List, [], ◌∷◌, ◌++◌,
  arith, leb, ℤ, All,
}
use linux_anti_executable.Protocol.{ExecResponse, response_timeout}
use linux_anti_executable.Ipc.{
  PendingRequest, Server, stopped_server, max_pending_requests, receive, complete, find_pending,
  remove_slot, cleanup, waited, finish, add_pending, is_timed, accept_client, client_gone,
}

-- A caller that waits: the number of its request, and the slot whose address it keeps.
pub record Caller : Type 0 where
  pub id : ℕ
  pub slot : ℕ

-- From the number to the slot, when one is free. The client of the test before may be gone by now.
unfoldable pub begin_call : Server → Caller × Server
unfolding add_pending
begin_call s =
    let id = s.next_request_id in
    (
      record { id = id; slot = s.pending_count },
      add_pending id (record s { next_request_id = (id + 1) % 2 ^ 32 }),
    )

-- From the wake-up to the return.
unfoldable pub end_call : Caller → ℤ → Server → Option (ℕ × Server)
unfolding finish waited
end_call c timeout_ms s = finish c.id s (waited timeout_ms (s.pending c.slot))

pub record Calls : Type 0 where
  pub server : Server
  pub waiting : List Caller

-- The callers, the reader threads and the accept thread take turns.
pub data Step : Calls → Calls → Type 0 where
  begun :
      (c : Calls)
      → leb max_pending_requests c.server.pending_count ≡ false
      → Step c (record {
        server = (begin_call c.server).1;
        waiting = (begin_call c.server).0 ∷ c.waiting;
      })
  replied : (r : ExecResponse) (c : Calls) → Step c (record c { server = receive r c.server })
  accepted : (fd : ℕ) (c : Calls) → Step c (record c { server = accept_client fd c.server })
  left : (fd : ℕ) (c : Calls) → Step c (record c { server = client_gone fd c.server })
  unsent :
      (before after : List Caller) (caller : Caller) (s : Server)
      → Step
          (record { server = s; waiting = before ++ caller ∷ after })
          (record { server = cleanup caller.id s; waiting = before ++ after })
  ended :
      (before after : List Caller) (caller : Caller) (timeout_ms : ℤ) (result : ℕ) (s s' : Server)
      → end_call caller timeout_ms s ≡ some (result, s')
      → Step
          (record { server = s; waiting = before ++ caller ∷ after })
          (record { server = s'; waiting = before ++ after })

pub data Reachable : Calls → Type 0 where
  idle : Reachable (record { server = stopped_server; waiting = [] })
  next : {c c' : Calls} → Reachable c → Step c c' → Reachable c'

-- No slot outside of the array.
pub record IsBounded (c : Calls) : Type 0 where
  pub count : c.server.pending_count ≤ 64
  pub slots : All (λ caller. caller.slot < 64) c.waiting

complete-pending_count :
    (r : ExecResponse) (i : Option ℕ) (s : Server)
    → (complete r i s).pending_count ≡ s.pending_count
unfolding complete
complete-pending_count r none s = refl
complete-pending_count r (some i) s = refl

remove_slot-pending_count :
    (i : Option ℕ) (s : Server) → (remove_slot i s).pending_count ≤ s.pending_count
unfolding remove_slot
remove_slot-pending_count none s = omega arith
remove_slot-pending_count (some i) s = omega arith

cleanup-pending_count : (id : ℕ) (s : Server) → (cleanup id s).pending_count ≤ s.pending_count
unfolding cleanup
cleanup-pending_count id s =
    remove_slot-pending_count (find_pending s.pending_count 0 id s.pending) s

finish-pending_count :
    (id : ℕ) (s s' : Server) (result : ℕ) (code : Option ℕ)
    → finish id s code ≡ some (result, s')
    → s'.pending_count ≤ s.pending_count
unfolding finish
finish-pending_count id s s' result none h = cc
finish-pending_count id s s' result (some code) h = ground (arith, h, cleanup-pending_count id s)

end_call-pending_count :
    (c : Caller) (timeout_ms : ℤ) (s s' : Server) (result : ℕ)
    → end_call c timeout_ms s ≡ some (result, s')
    → s'.pending_count ≤ s.pending_count
unfolding end_call
end_call-pending_count c timeout_ms s s' result h =
    finish-pending_count c.id s s' result (waited timeout_ms (s.pending c.slot)) h

receive-pending_count :
    (r : ExecResponse) (s : Server) → (receive r s).pending_count ≡ s.pending_count
unfolding receive
receive-pending_count r s =
    complete-pending_count r (find_pending s.pending_count 0 r.request_id s.pending) s

All-without :
    (P : Caller → Type 0) (before after : List Caller) (c : Caller)
    → All P (before ++ c ∷ after)
    → All P (before ++ after)
All-without P [] after c h = h.1
All-without P (b ∷ bs) after c h = (h.0, All-without P bs after c h.1)

Step-IsBounded : {c c' : Calls} → Step c c' → IsBounded c → IsBounded c'
unfolding begin_call accept_client client_gone
Step-IsBounded (begun c room) b = record {
  count = ground (arith, room);
  slots = (ground (arith, room), b.slots);
}
Step-IsBounded (replied r c) b = record {
  count = rw (receive-pending_count r c.server) b.count;
  slots = b.slots;
}
Step-IsBounded (accepted fd c) b = record { count = b.count; slots = b.slots }
Step-IsBounded (left fd c) b = record { count = ground (arith, b.count); slots = b.slots }
Step-IsBounded (unsent before after caller s) b = record {
  count = omega (arith, b.count, cleanup-pending_count caller.id s);
  slots = All-without (λ x. x.slot < 64) before after caller b.slots;
}
Step-IsBounded (ended before after caller timeout_ms result s s' h) b = record {
  count = omega (arith, b.count, end_call-pending_count caller timeout_ms s s' result h);
  slots = All-without (λ x. x.slot < 64) before after caller b.slots;
}

-- In any interleaving of callers, replies and clients, at most 64 slots are in use, and every waiting
-- caller keeps the address of one of the 64.
pub Reachable-IsBounded : {c : Calls} → Reachable c → IsBounded c
Reachable-IsBounded idle = record { count = omega arith; slots = tt }
Reachable-IsBounded (next r step) = Step-IsBounded step (Reachable-IsBounded r)
