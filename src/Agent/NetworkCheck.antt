-- ===== src/Agent/NetworkCheck.antt =====
-- The check of a workload's network: the agent in the guest answers, and the agent in the workload asks.
pub mod Handshake
mod Tests
use kernlet.Common.{
  ℕ, List, [], ◌∷◌, ◌++◌, Bytes, codes, Bool, true, false, not, Error, Result, ok, err, fault,
  equal, length, if◌then◌else◌,
}
use kernlet.Text.Split.{contains}
use kernlet.Text.Decimal.{format_uint}
use kernlet.Sys.{
  Os, Io, act, text, number, pure, lift, within_io, ignore, attempt, deferred, ◌>>=◌, ◌>>◌,
  dial_tcp, set_deadline, read_full, write_connection, close_connection,
}

abbrev pub network_check_port : ℕ
network_check_port = 10790

abbrev pub network_check_request : Bytes
network_check_request = codes "kernlet-network-check"

abbrev pub network_check_response : Bytes
network_check_response = codes "kernlet-network-ready"

-- net.JoinHostPort: an address with colons is put into brackets.
abbrev pub join_host_port : Bytes → Bytes → Bytes
join_host_port host port =
    if contains b':' host then (b'[' ∷ host) ++ (b']' ∷ b':' ∷ port) else host ++ (b':' ∷ port)

module _ (os : Os) where
  -- `if err != nil { return }`, and the comparison.
  answer_request : ℕ → Result Bytes → Io (Unit {0})
  answer_request connection (err e) = pure tt
  answer_request connection (ok request) =
      if not (equal request network_check_request)
      then pure tt
      else ignore (act os (write_connection connection network_check_response))

  receive_request : ℕ → Io (Unit {0})
  receive_request connection = do
    ignore (act os (set_deadline connection))
    request ← attempt (text os (read_full connection (length network_check_request)))
    answer_request connection request

  pub handle_network_check : ℕ → Io (Unit {0})
  handle_network_check connection =
      deferred (receive_request connection) (act os (close_connection connection))

  check_response : Bytes → Result (Unit {0})
  check_response response =
      if not (equal response network_check_response)
      then err (fault "unexpected network-check response")
      else ok tt

  ask : ℕ → Io (Unit {0})
  ask connection = do
    within_io "set network-check deadline" (act os (set_deadline connection))
    within_io "send network-check request"
        (act os (write_connection connection network_check_request))
    response ←
        within_io "read network-check response"
          (text os (read_full connection (length network_check_response)))
    lift (check_response response)

  pub verify_guest_network : Bytes → Io (Unit {0})
  verify_guest_network gateway = do
    connection ←
        within_io "connect to guest gateway"
          (number os (dial_tcp (join_host_port gateway (format_uint network_check_port))))
    deferred (ask connection) (act os (close_connection connection))
