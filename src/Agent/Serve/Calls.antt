-- ===== src/Agent/Serve/Calls.antt =====
-- The servers as code that makes calls, of whatever kind.
use kernlet.Common.{ℕ, zero, suc, Result, ok, err}
use kernlet.Sys.{Os, Io}
use kernlet.Sys.Only.{Makes, Makes-bind, makes_rules}
use kernlet.Agent.Serve.{
  Serving, waiting, stopped, serve_vsock, listen_and_accept, accept_loop, after_accept,
  close_if_stopped,
}

module _ (os : Os) where
  after_accept-Anything :
      (connection : Result ℕ) (rest : Io Serving)
      → Makes (λ _. Unit) rest
      → Makes (λ _. Unit) (after_accept os connection rest)
  unfolding after_accept
  after_accept-Anything (ok fd) rest h = search (makes_rules, h) depth 8
  after_accept-Anything (err e) rest h = search (makes_rules, h) depth 8

  accept_loop-Anything : (fd rounds : ℕ) → Makes (λ _. Unit) (accept_loop os fd rounds)
  unfolding accept_loop
  accept_loop-Anything fd zero = search makes_rules
  accept_loop-Anything fd (suc rounds) =
      Makes-bind _ _ (search makes_rules depth 8)
        λ connection. after_accept-Anything connection _ (accept_loop-Anything fd rounds)

  close_if_stopped-Anything :
      (fd : ℕ) (served : Result Serving) → Makes (λ _. Unit) (close_if_stopped os fd served)
  unfolding close_if_stopped
  close_if_stopped-Anything fd (err e) = search makes_rules depth 8
  close_if_stopped-Anything fd (ok (stopped e fds)) = search makes_rules depth 8
  close_if_stopped-Anything fd (ok (waiting fds)) = search makes_rules depth 8

  pub serve_vsock-Anything : (rounds : ℕ) → Makes (λ _. Unit) (serve_vsock os rounds)
  unfolding serve_vsock listen_and_accept
  serve_vsock-Anything rounds =
      search (makes_rules, accept_loop-Anything, close_if_stopped-Anything) depth 20
