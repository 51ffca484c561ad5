-- ===== src/Agent/Serve.antt =====
-- serveVsock, and the servers that the agent starts.
pub mod Accepted
pub mod Calls
use kernlet.Common.{
  ℕ, zero, suc, List, [], ◌∷◌, ◌++◌, Bytes, codes, Option, none, some, Error, errno, fault,
  described, wrap, join as join_errors, Bool, true, false, Result, ok, err, ◌==◌, if◌then◌else◌,
}
use kernlet.Sys.{
  Os, Io, act, number, pure, lift, within_io, ignore, attempt, deferred, ◌>>=◌, ◌>>◌, vsock_socket,
  vsock_bind, vsock_listen, vsock_accept, close_socket, listen_tcp, accept_tcp, print,
}
use kernlet.Text.Decimal.{format_uint}
use kernlet.Agent.NetworkCheck.{network_check_port}

abbrev pub port : ℕ
port = 10789

abbrev pub backlog : ℕ
backlog = 16

abbrev pub eintr : ℕ
eintr = 4

-- `err == unix.EINTR`: the error itself, not one that it wraps.
pub is_errno : ℕ → Error → Bool
is_errno n (errno m) = m == n
is_errno n _ = false

-- The loop still runs, or it has ended with an error. Each connection that was accepted has a
-- goroutine of its own, which runs handleConnection on its descriptor; the earliest comes first.
pub data Serving : Type 0 where
  waiting : List ℕ → Serving
  stopped : Error → List ℕ → Serving

abbrev pub accepted : ℕ → Serving → Serving
accepted fd (waiting fds) = waiting (fd ∷ fds)
accepted fd (stopped e fds) = stopped e (fd ∷ fds)

module _ (os : Os) where
  -- One result of Accept4, and the rest of the loop.
  unfoldable pub after_accept : Result ℕ → Io Serving → Io Serving
  after_accept (ok fd) rest = do serving ← rest; pure (accepted fd serving)
  after_accept (err e) rest =
      if is_errno eintr e then rest else pure (stopped (wrap "accept vsock connection" e) [])

  -- The first `rounds` rounds of the loop, which has no end of its own.
  unfoldable pub accept_loop : ℕ → ℕ → Io Serving
  accept_loop fd zero = pure (waiting [])
  accept_loop fd (suc rounds) = do
    connection ← attempt (number os (vsock_accept fd))
    after_accept connection (accept_loop fd rounds)

  unfoldable pub listen_and_accept : ℕ → ℕ → Io Serving
  listen_and_accept fd rounds = do
    within_io "bind vsock port" (act os (vsock_bind fd port))
    within_io "listen on vsock" (act os (vsock_listen fd backlog))
    ignore (
        act os
          (print (codes "kernlet-agent: listening on vsock port " ++ format_uint port ++ 10 ∷ [])))
    accept_loop fd rounds

  -- The deferred Close runs when the loop has ended, or did not begin.
  unfoldable pub close_if_stopped : ℕ → Result Serving → Io Serving
  close_if_stopped fd (err e) = do ignore (act os (close_socket fd)); lift (err e)
  close_if_stopped fd (ok (stopped e fds)) = do
    ignore (act os (close_socket fd))
    pure (stopped e fds)
  close_if_stopped fd (ok (waiting fds)) = pure (waiting fds)

  unfoldable pub serve_vsock : ℕ → Io Serving
  serve_vsock rounds = do
    fd ← within_io "create vsock socket" (number os vsock_socket)
    served ← attempt (listen_and_accept fd rounds)
    close_if_stopped fd served

  after_accept_tcp : Result ℕ → Io Serving → Io Serving
  after_accept_tcp (ok connection) rest = do serving ← rest; pure (accepted connection serving)
  after_accept_tcp (err e) rest = pure (stopped (wrap "accept workload network check" e) [])

  -- The first rounds of the server's loop: handleNetworkCheck runs on each connection.
  pub serve_network_checks : ℕ → ℕ → Io Serving
  serve_network_checks listener zero = pure (waiting [])
  serve_network_checks listener (suc rounds) = do
    connection ← attempt (number os (accept_tcp listener))
    after_accept_tcp connection (serve_network_checks listener rounds)

  -- The answer of net.Listen is the listener, which a goroutine serves.
  unfoldable pub start_network_check_server : Io ℕ
  start_network_check_server =
      within_io "listen for workload network checks" (number os (listen_tcp network_check_port))
