-- ===== src/Tests/Callers.antt =====
-- Runs of several callers of the socket's server.
use linux_anti_executable.Base.{◌≡◌, refl, none, some, [], ◌∷◌, pos, arith}
use linux_anti_executable.Protocol.{ExecResponse, response_timeout}
use linux_anti_executable.Ipc.{Server, stopped_server, receive, cleanup, is_timed}
use linux_anti_executable.Ipc.Callers.{
  Calls, begin_call, end_call, begun, replied, Reachable, idle, next, IsBounded,
  Reachable-IsBounded,
}
use linux_anti_executable.Ipc.Threads.{
  Threads, accept_round, reader_round, ended, old_reader_closes,
}
use linux_anti_executable.Ipc.Callers.Missed.{
  first_call, second_call, both_wait, second_caller_misses,
}

abbrev reply : ExecResponse
reply = record { request_id = 2; response = 1 }

abbrev nobody : Calls
nobody = record { server = stopped_server; waiting = [] }

abbrev one_waits : Calls
one_waits = record {
  server = (begin_call stopped_server).1;
  waiting = (begin_call stopped_server).0 ∷ [];
}

abbrev two_wait : Calls
two_wait = record {
  server = (begin_call one_waits.server).1;
  waiting = (begin_call one_waits.server).0 ∷ one_waits.waiting;
}

two_wait-Reachable : Reachable two_wait
unfolding begin_call
two_wait-Reachable = next (next idle (begun nobody refl)) (begun one_waits refl)

Reachable-IsBounded_example : IsBounded (record two_wait { server = receive reply two_wait.server })
Reachable-IsBounded_example = Reachable-IsBounded (next two_wait-Reachable (replied reply two_wait))

second_caller_misses_example :
    (s' : Server) × (end_call
        (second_call stopped_server)
        (pos 30000)
        (receive reply (cleanup (first_call stopped_server).id (both_wait stopped_server)))
      ≡ some (response_timeout, s'))
unfolding begin_call is_timed
second_caller_misses_example = second_caller_misses stopped_server reply (pos 30000) refl refl refl

abbrev no_clients : Threads
no_clients = record { server = stopped_server; sockets = []; readers = [] }

abbrev third_client : Threads
third_client = accept_round (some 5) (accept_round (some 6) (accept_round (some 5) no_clients))

old_reader_closes_example :
    (third_client.server.client_fd ≡ some 5)
    × (third_client.sockets ≡ 5 ∷ [])
    × ((reader_round 5 ended third_client).server.client_fd ≡ none)
    × ((reader_round 5 ended third_client).sockets ≡ [])
old_reader_closes_example =
    old_reader_closes 5 6 no_clients refl refl (λ same. absurd (omega (arith, same)))
