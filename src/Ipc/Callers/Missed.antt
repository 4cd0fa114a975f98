-- ===== src/Ipc/Callers/Missed.antt =====
-- What `ipc_request_permission` of src/daemon/ipc_server.c does to a second caller when the first one
-- returns.
use linux_anti_executable.Base.{ℕ, suc, ◌≡◌, refl, true, false, some, arith, ℤ}
use linux_anti_executable.Protocol.{ExecResponse, response_timeout}
use linux_anti_executable.Ipc.{
  PendingRequest, Server, receive, complete, find_pending, remove_slot, cleanup, waited, finish,
  is_timed,
}
use linux_anti_executable.Ipc.Callers.{Caller, begin_call, end_call}

-- The first slot of the used ones has this number.
find_pending-first :
    (n id : ℕ) (slots : ℕ → PendingRequest)
    → (slots 0).request_id ≡ id
    → find_pending (suc n) 0 id slots ≡ some 0
unfolding find_pending
find_pending-first n id slots h = ground arith

-- Two requests wait, in the first two slots.
record BothWait (first second : ℕ) (s : Server) : Type 0 where
  count : s.pending_count ≡ 2
  one : (s.pending 0).request_id ≡ first
  two : (s.pending 1).request_id ≡ second
  open_yet : (s.pending 1).completed ≡ false

-- The entry of the second is in the first slot, and an old copy of it in the second slot.
record Moved (second : ℕ) (s : Server) : Type 0 where
  count : s.pending_count ≡ 1
  two : (s.pending 0).request_id ≡ second
  open_yet : (s.pending 1).completed ≡ false

cleanup-Moved :
    (first second : ℕ) (s : Server) → BothWait first second s → Moved second (cleanup first s)
unfolding cleanup remove_slot
cleanup-Moved first second s b =
    let found : find_pending s.pending_count 0 first s.pending ≡ some 0 =
      rw b.count (find_pending-first 1 first s.pending b.one) in
    record {
      count = ground (arith, found, b.count);
      two = ground (arith, found, b.count, b.two);
      open_yet = ground (arith, found, b.count, b.open_yet);
    }

receive-Moved :
    (r : ExecResponse) (s : Server)
    → Moved r.request_id s
    → ((receive r s).pending 1).completed ≡ false
unfolding receive complete
receive-Moved r s m =
    let found : find_pending s.pending_count 0 r.request_id s.pending ≡ some 0 =
      rw m.count (find_pending-first 0 r.request_id s.pending m.two) in
    ground (arith, found, m.open_yet)

end_call-timeout :
    (c : Caller) (timeout_ms : ℤ) (s : Server)
    → (s.pending c.slot).completed ≡ false
    → is_timed timeout_ms ≡ true
    → end_call c timeout_ms s ≡ some (response_timeout, cleanup c.id s)
unfolding end_call finish waited
end_call-timeout c timeout_ms s waits timed = rw (waits, timed) refl

module _ (s : Server) where
  abbrev pub first_call : Caller
  first_call = (begin_call s).0

  abbrev pub second_call : Caller
  second_call = (begin_call (begin_call s).1).0

  -- Both have their slots.
  abbrev pub both_wait : Server
  both_wait = (begin_call (begin_call s).1).1

  both_wait-BothWait : s.pending_count ≡ 0 → BothWait first_call.id second_call.id both_wait
  unfolding begin_call
  both_wait-BothWait alone = record {
    count = omega (arith, alone);
    one = ground (arith, alone);
    two = ground (arith, alone);
    open_yet = ground (arith, alone);
  }

  second_slot : s.pending_count ≡ 0 → second_call.slot ≡ 1
  unfolding begin_call
  second_slot alone = omega (arith, alone)

  -- If two callers wait and no other, the first returns, and then the reply to the second arrives,
  -- the second gets the code for a timeout when its time is over: its entry has moved to another
  -- slot than the one whose address it keeps.
  pub second_caller_misses :
      (r : ExecResponse) (timeout_ms : ℤ)
      → s.pending_count ≡ 0
      → r.request_id ≡ second_call.id
      → is_timed timeout_ms ≡ true
      → (s' : Server) × (end_call second_call timeout_ms
            (receive r (cleanup first_call.id both_wait))
          ≡ some (response_timeout, s'))
  second_caller_misses r timeout_ms alone answers timed =
      let after = cleanup first_call.id both_wait in
      let moved : Moved r.request_id after =
        rw answers
          (cleanup-Moved first_call.id second_call.id both_wait (both_wait-BothWait alone)) in
      let missed = receive-Moved r after moved in
      (
        cleanup second_call.id (receive r after),
        end_call-timeout second_call timeout_ms (receive r after) (rw (second_slot alone) missed)
            timed,
      )
