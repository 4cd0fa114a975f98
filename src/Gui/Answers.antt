-- ===== src/Gui/Answers.antt =====
-- From a button of the dialog in src/gui/main.c through the socket to the decision of the daemon in
-- src/daemon/fanotify_handler.c.
use linux_anti_executable.Base.{
  ℕ, ◌≡◌, sym, ◌∙◌, Bool, true, some, List, [], ◌∷◌, ◌++◌, arith, length,
}
use linux_anti_executable.Protocol.{ExecResponse}
use linux_anti_executable.Config.{Config}
use linux_anti_executable.Ipc.{ipc_has_client}
use linux_anti_executable.Ipc.Pending.{last_reply, answer, ipc_request_permission-answer}
use linux_anti_executable.Fanotify.{Event, Daemon, build_request, decision_of, default_decision}
use linux_anti_executable.Fanotify.Policy.{decision_on}
use linux_anti_executable.Gui.{
  Gui, button_message, on_dialog_response, send_response, update_status_display,
}

-- No button of the dialog sends a number that the daemon's switch knows: whatever the user
-- answers, the decision is the configured default.
pub decision_of-button_message :
    (response_id : ℕ) (cfg : Config)
    → decision_of (button_message response_id).0 cfg ≡ default_decision cfg
unfolding decision_of button_message
decision_of-button_message response_id cfg = ground arith

-- What a button of a connected GUI puts on the socket: the number of the dialog's request with one
-- of the three messages.
pub on_dialog_response-written :
    (response_id request_id : ℕ) (g : Gui)
    → g.connected ≡ true
    → (on_dialog_response true response_id request_id g).written
      ≡ record { request_id = request_id; response = (button_message response_id).0 } ∷ g.written
unfolding on_dialog_response send_response update_status_display
on_dialog_response-written response_id request_id g c = ground arith

module _ {D : Type 0} (e : Event) (d : Daemon D) where
  -- The user answers the daemon's pending question by a button, and the answer arrives.
  pub record Answered (response_id : ℕ) (g : Gui) : Type 0 where
    pub sent : e.request_ok ≡ true
    pub client : ipc_has_client d.server ≡ true
    pub idle : d.server.pending_count ≡ 0
    pub connected : g.connected ≡ true
    pub arrived :
        (on_dialog_response true response_id d.server.next_request_id g).written
        ≡ e.replies ++ g.written
    pub only : length e.replies ≡ 1

  one_reply :
      (r : ExecResponse) (rs old : List ExecResponse)
      → r ∷ old ≡ rs ++ old
      → length rs ≡ 1
      → rs ≡ r ∷ []
  one_reply r [] old h n = absurd (omega arith)
  one_reply r (x ∷ []) old h n = ground arith
  one_reply r (x ∷ y ∷ ys) old h n = absurd (omega arith)

  -- If the daemon's pending question is answered by a button of a connected GUI and that answer
  -- arrives, then whichever button it was the daemon decides by its configured default.
  pub decision_on-Answered :
      (response_id : ℕ) (g : Gui) (path hash : List ℕ) (is_so : Bool)
      → Answered response_id g
      → decision_on path hash e is_so d ≡ some (default_decision d.config)
  unfolding decision_on last_reply answer
  decision_on-Answered response_id g path hash is_so a =
      let written = on_dialog_response-written response_id d.server.next_request_id g a.connected in
      let replies = one_reply _ e.replies g.written (sym written ∙ a.arrived) a.only in
      let (s', run, count, fd, next_id, sent) =
        ipc_request_permission-answer e.replies (build_request path hash e is_so)
          d.config.gui_timeout_ms d.server a.client a.idle in
      ground (arith, run, a.sent, replies, decision_of-button_message response_id d.config)
