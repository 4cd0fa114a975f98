-- ===== src/Tests/Wire.antt =====
-- Messages on the socket, and a deadline.
use linux_anti_executable.Base.{◌+◌, ◌*◌, ◌^◌, ◌<◌, ◌≡◌, true, false, List, [], ◌∷◌, arith, codes}
use linux_anti_executable.Protocol.{ExecResponse, msg_deny, msg_allow_always}
use linux_anti_executable.Protocol.Layout.{request_bytes}
use linux_anti_executable.Ipc.{receive_all}
use linux_anti_executable.Ipc.Wire.{
  wakeup_of, question_arrives, receive_stream, stream_of, receive_stream-receive_all,
}
use linux_anti_executable.Ipc.Deadline.{
  Timespec, IsTime, added_nsec, total_nanoseconds, deadline, deadline_exact,
}
use linux_anti_executable.Gui.{on_socket_readable, show_permission_dialog, started_gui}
use linux_anti_executable.Fanotify.{build_request}
use linux_anti_executable.Tests.Samples.{exec_event, connected_server}

question_arrives_example :
    let question = record (build_request (codes "/usr/bin/ls") (codes "0a1b") exec_event false) {
      request_id = 7;
    } in
    on_socket_readable (wakeup_of (request_bytes question)) started_gui
    ≡ (true, show_permission_dialog question started_gui)
question_arrives_example =
    question_arrives 7 (codes "/usr/bin/ls") (codes "0a1b") exec_event false started_gui
      (omega arith) (omega arith) (ground arith) (ground arith) (ground arith)

abbrev answers : List ExecResponse
answers =
    record { request_id = 7; response = msg_deny }
    ∷ record { request_id = 8; response = msg_allow_always }
    ∷ []

receive_stream-receive_all_example :
    receive_stream 2 (stream_of answers) connected_server ≡ receive_all answers connected_server
receive_stream-receive_all_example = receive_stream-receive_all answers connected_server (
  record { request_id = omega arith; response = omega arith },
  (record { request_id = omega arith; response = omega arith }, tt),
)

-- Half a second before the full second, put off by 30.7 seconds.
abbrev clock : Timespec
clock = record { tv_sec = 1700000000; tv_nsec = 500000000 }

deadline_exact_example :
    IsTime (deadline 30700 clock)
    × (total_nanoseconds (deadline 30700 clock) ≡ total_nanoseconds clock + 30700 * 1000000)
    × ((deadline 30700 clock).tv_sec < 2 ^ 63)
    × (added_nsec 30700 < 2 ^ 31)
    × (500000000 + added_nsec 30700 < 2 ^ 63)
deadline_exact_example = deadline_exact 30700 clock (omega arith) (omega arith) (omega arith)
