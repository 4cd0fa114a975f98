-- ===== src/Ipc/Visits.antt =====
-- What the accept thread and the reader threads of src/daemon/ipc_server.c change between two steps
-- of the event loop.
use linux_anti_executable.Base.{◌≡◌, ◌∙◌, refl, false, none, List, [], ◌∷◌, arith}
use linux_anti_executable.Ipc.{
  Server, accept_client, client_gone, Visit, joins, leaves, visit, visit_all,
}

-- The visits leave the requests and the threads alone.
pub record Visited (s s' : Server) : Type 0 where
  pub pending_count : s'.pending_count ≡ s.pending_count
  pub accepting : s'.accepting ≡ s.accepting
  pub alone : s.accepting ≡ false → s.client_fd ≡ none → s'.client_fd ≡ none

visit-Visited : (v : Visit) (s : Server) → Visited s (visit v s)
unfolding visit accept_client client_gone
visit-Visited (joins client) s = ground arith
visit-Visited (leaves client) s = ground arith

pub visit_all-Visited : (vs : List Visit) (s : Server) → Visited s (visit_all vs s)
unfolding visit_all
visit_all-Visited [] s = record {
  pending_count = refl;
  accepting = refl;
  alone = λ closed none_there. none_there;
}
visit_all-Visited (v ∷ vs) s =
    let one = visit-Visited v s in
    let rest = visit_all-Visited vs (visit v s) in
    record {
      pending_count = rest.pending_count ∙ one.pending_count;
      accepting = rest.accepting ∙ one.accepting;
      alone =
          λ closed none_there. rest.alone (one.accepting ∙ closed) (one.alone closed none_there);
    }
