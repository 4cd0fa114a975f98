-- ===== src/Ipc/Threads.antt =====
-- The accept thread and the reader threads of src/daemon/ipc_server.c, with the descriptors that the
-- process has open.
use linux_anti_executable.Base.{
  ℕ, ◌≡◌, ◌≢◌, sym, refl, Option, none, some, List, [], ◌∷◌, ◌==◌, if◌then◌else◌, arith, ==-ne,
  ==_refl,
}
use linux_anti_executable.Protocol.{ExecResponse}
use linux_anti_executable.Ipc.{Server, accept_client, client_gone, receive}

-- The sockets of clients that are open, and the sockets that reader threads were given.
pub record Threads : Type 0 where
  pub server : Server
  pub sockets : List ℕ
  pub readers : List ℕ

-- `close`; a number that is not open is an error that nobody looks at.
unfoldable pub close_fd : Option ℕ → List ℕ → List ℕ
close_fd none fds = fds
close_fd (some fd) [] = []
close_fd (some fd) (x ∷ xs) = if x == fd then xs else x ∷ close_fd (some fd) xs

-- One round of the accept thread, on the answer of `poll` and `accept`.
unfoldable pub accept_round : Option ℕ → Threads → Threads
accept_round none t = t
accept_round (some client) t = record {
  server = accept_client client t.server;
  sockets = close_fd t.server.client_fd (client ∷ t.sockets);
  readers = client ∷ t.readers;
}

-- What a reader thread's `read` answers: an error or the end, a whole response, or a part of one.
pub data Read : Type 0 where
  ended : Read
  response : ExecResponse → Read
  partial : Read

-- One round of the reader thread of a socket.
unfoldable pub reader_round : ℕ → Read → Threads → Threads
reader_round client ended t = record {
  server = client_gone client t.server;
  sockets = close_fd (some client) t.sockets;
  readers = close_fd (some client) t.readers;
}
reader_round client (response r) t = record t { server = receive r t.server }
reader_round client partial t = t

-- Of three clients one after the other the third is given the number of the first, which is free
-- again. If the first one's reader ends only then, it closes the third one's socket and leaves the
-- server without a client.
pub old_reader_closes :
    (first second : ℕ) (t : Threads)
    → t.server.client_fd ≡ none
    → t.sockets ≡ []
    → first ≢ second
    → let accepted =
        accept_round (some first) (accept_round (some second) (accept_round (some first) t)) in
      let after = reader_round first ended accepted in
      (accepted.server.client_fd ≡ some first)
      × (accepted.sockets ≡ first ∷ [])
      × (after.server.client_fd ≡ none)
      × (after.sockets ≡ [])
unfolding accept_round reader_round close_fd accept_client client_gone
old_reader_closes first second t alone closed differ =
    let one = ==-ne first second differ in
    let two = ==-ne second first (λ same. differ (sym same)) in
    (
      refl,
      ground (arith, alone, closed, one, two),
      rw (==_refl first) refl,
      ground (arith, alone, closed, one, two),
    )
