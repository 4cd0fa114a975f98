-- ===== src/Gui/Unheard.antt =====
-- The answers of the dialog in src/gui/main.c as `ask_user_permission` of
-- src/daemon/fanotify_handler.c takes them: none is heard.
use mathlib.Core.Option
use linux_anti_executable.Base.{
  ℕ, ◌≡◌, ◌∙◌, ap, Bool, true, false, Option, none, some, List, [], ◌∷◌, ◌==◌, arith, if◌then◌else◌,
  ℤ, All, Bool-cases, inl, inr,
}
use linux_anti_executable.Protocol.{ExecRequest, ExecResponse, response_timeout, response_no_client}
use linux_anti_executable.Config.{Config}
use linux_anti_executable.Ipc.{Server, is_timed, ipc_has_client, ipc_request_permission}
use linux_anti_executable.Ipc.Pending.{
  last_reply, answer, ipc_request_permission-answer, ipc_request_permission_no_client,
  ipc_request_permission_unsent,
}
use linux_anti_executable.Fanotify.{decision_of, default_decision}
use linux_anti_executable.Gui.{button_message}
use linux_anti_executable.Gui.Answers.{decision_of-button_message}

-- A number that a button sends, and a response with one.
abbrev pub IsCode : ℕ → Type 0
IsCode code = (button : ℕ) × (code ≡ (button_message button).0)

abbrev pub IsButton : ExecResponse → Type 0
IsButton r = IsCode r.response

IsCodeIf : Option ℕ → Type 0
IsCodeIf none = Unit {0}
IsCodeIf (some code) = IsCode code

last_reply-IsCodeIf :
    (id : ℕ) (rs : List ExecResponse) (found : Option ℕ)
    → All IsButton rs
    → IsCodeIf found
    → IsCodeIf (last_reply id rs found)
unfolding last_reply IsCodeIf
last_reply-IsCodeIf id [] found h f = f
last_reply-IsCodeIf id (r ∷ rs) found h f =
    last_reply-IsCodeIf id rs (if r.request_id == id then some r.response else found) h.1
      (elim (Bool-cases (r.request_id == id)) [
        | inl mine ↦ simp mine h.0
        | inr other ↦ simp other f
      ])

-- The call returns, and the daemon decides on its answer by default.
pub record Ignored (cfg : Config) (r : Option (ℕ × Server)) : Type 0 where
  pub code : ℕ
  pub server : Server
  pub run : r ≡ some (code, server)
  pub default : decision_of code cfg ≡ default_decision cfg

Ignored-answer :
    (cfg : Config) (timeout_ms : ℤ) (found : Option ℕ) (server : Server) (r : Option (ℕ × Server))
    → is_timed timeout_ms ≡ true
    → IsCodeIf found
    → r ≡ Option.map (λ code. (code, server)) (answer timeout_ms found)
    → Ignored cfg r
unfolding answer IsCodeIf decision_of default_decision
Ignored-answer cfg timeout_ms none server r t f h = record {
  code = response_timeout;
  server = server;
  run = h ∙ ground (arith, t);
  default = ground arith;
}
Ignored-answer cfg timeout_ms (some code) server r t f h = record {
  code = code;
  server = server;
  run = h;
  default = ap (λ c. decision_of c cfg) f.1 ∙ decision_of-button_message f.0 cfg;
}

module _ (cfg : Config) (replies : List ExecResponse) (request : ExecRequest) (timeout_ms : ℤ)
    (s : Server) where
  same_call :
      (a b : Bool)
      → a ≡ b
      → ipc_request_permission a replies request timeout_ms s
        ≡ ipc_request_permission b replies request timeout_ms s
  same_call a b e = ap (λ c. ipc_request_permission c replies request timeout_ms s) e

  -- With no other request pending and a positive timeout a question whose replies all come from the
  -- dialog's buttons is answered so that the daemon decides by default: whether a GUI is connected,
  -- whether the request was written, and whatever button was pressed.
  pub ipc_request_permission-Ignored :
      (write_ok : Bool)
      → is_timed timeout_ms ≡ true
      → s.pending_count ≡ 0
      → All IsButton replies
      → Ignored cfg (ipc_request_permission write_ok replies request timeout_ms s)
  unfolding decision_of IsCodeIf
  ipc_request_permission-Ignored write_ok t idle buttons = elim (Bool-cases (ipc_has_client s)) [
    | inr alone ↦ record {
      code = response_no_client;
      server = s;
      run = ipc_request_permission_no_client write_ok replies request timeout_ms s alone;
      default = ground arith;
    }
    | inl client ↦ elim (Bool-cases write_ok) [
      | inr failed ↦
          let (s', run) = ipc_request_permission_unsent replies request timeout_ms s client idle in
          record {
            code = response_no_client;
            server = s';
            run = same_call write_ok false (ground (arith, failed)) ∙ run;
            default = ground arith;
          }
      | inl sent ↦
          let (s', run, idle', kept, next, sent') =
            ipc_request_permission-answer replies request timeout_ms s client idle in
          Ignored-answer cfg timeout_ms (last_reply s.next_request_id replies none) s' _ t
            (last_reply-IsCodeIf s.next_request_id replies none buttons tt)
            (same_call write_ok true (ground (arith, sent)) ∙ run)
    ]
  ]
