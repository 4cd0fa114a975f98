-- ===== src/Tests/Requests.antt =====
-- Runs of the socket's two ends: the daemon's question and the GUI's answer.
use mathlib.Core.Option
use linux_anti_executable.Base.{
  ◌+◌, ◌%◌, ◌^◌, ◌≡◌, refl, true, false, none, some, List, [], ◌∷◌, pos, codes,
}
use linux_anti_executable.Protocol.{ExecRequest, ExecResponse}
use linux_anti_executable.Config.{default_config}
use linux_anti_executable.Ipc.{
  Server, stopped_server, accept_client, ipc_has_client, ipc_request_permission, receive_all,
  receive,
}
use linux_anti_executable.Ipc.Pending.{last_reply, answer, ipc_request_permission-answer}
use linux_anti_executable.Fanotify.{Event, build_request, default_decision}
use linux_anti_executable.Fanotify.Policy.{decision_on}
use linux_anti_executable.Gui.{
  Gui, started_gui, connect_to_daemon, button_message, on_dialog_response, send_response,
  update_status_display,
}
use linux_anti_executable.Gui.Answers.{Answered, decision_on-Answered}
use linux_anti_executable.Tests.Samples.{connected_server, exec_event, started}

abbrev question : ExecRequest
question = build_request (codes "/usr/bin/ls") (codes "00ff") exec_event false

-- A reply to another request, and then the user's `2`.
abbrev two_replies : List ExecResponse
two_replies =
    record { request_id = 77; response = 3 } ∷ record { request_id = 1; response = 2 } ∷ []

ipc_request_permission-answer_example :
    (s' : Server) × (ipc_request_permission true two_replies question (pos 30000) connected_server
      ≡ Option.map (λ code. (code, s')) (answer (pos 30000) (last_reply 1 two_replies none)))
    × (s'.pending_count ≡ 0)
    × (s'.client_fd ≡ some 7)
    × (s'.next_request_id ≡ (1 + 1) % 2 ^ 32)
    × (s'.sent ≡ record question { request_id = 1 } ∷ [])
unfolding accept_client ipc_has_client
ipc_request_permission-answer_example =
    ipc_request_permission-answer two_replies question (pos 30000) connected_server refl refl

-- The request is answered by the second reply.
answered_server : Server
unfolding ipc_request_permission
answered_server =
    elim (ipc_request_permission true two_replies question (pos 30000) connected_server) [
      | none ↦ stopped_server
      | some r ↦ r.1
    ]

answered_by_second :
    ipc_request_permission true two_replies question (pos 30000) connected_server
    ≡ some (2, answered_server)
unfolding answered_server accept_client ipc_has_client receive receive_all
answered_by_second = refl

abbrev connected_gui : Gui
connected_gui = (connect_to_daemon (some 5) started_gui).1

-- The user presses the button that allows always.
abbrev allowed_event : Event
allowed_event = record exec_event { replies = record { request_id = 1; response = 101 } ∷ [] }

allowed_event-Answered : Answered allowed_event started 2 connected_gui
unfolding accept_client ipc_has_client connect_to_daemon on_dialog_response button_message
    send_response update_status_display
allowed_event-Answered = record {
  sent = refl;
  client = refl;
  idle = refl;
  connected = refl;
  arrived = refl;
  only = refl;
}

decision_on-Answered_example :
    decision_on (codes "/usr/bin/ls") (codes "00ff") allowed_event false started
    ≡ some (default_decision default_config)
decision_on-Answered_example =
    decision_on-Answered allowed_event started 2 connected_gui (codes "/usr/bin/ls") (codes "00ff")
      false allowed_event-Answered
