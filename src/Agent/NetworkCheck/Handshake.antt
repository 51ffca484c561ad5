-- ===== src/Agent/NetworkCheck/Handshake.antt =====
-- The two ends of the network check fit together.
use kernlet.Common.{
  ℕ, [], ◌∷◌, ◌++◌, Bytes, true, ok, equal_self, length, ◌==◌, if◌then◌else◌, ◌≡◌, ◌∙◌, arith,
}
use kernlet.Common.{◌-◌, leb, Error, Result, err, refl}
use kernlet.Text.Decimal.{format_uint}
use kernlet.Sys.{
  Call, done, gave, counted, Trace, Os, ◌>>=◌, dial_tcp, set_deadline, read_full, write_connection,
}
use kernlet.Agent.NetworkCheck.{
  network_check_port, network_check_request, network_check_response, join_host_port, answer_request,
  receive_request, handle_network_check, check_response, ask, verify_guest_network,
}

-- What a call that succeeded has written to the connection.
abbrev pub sent_by : ℕ → Call → Bytes
sent_by connection (write_connection c content) = if c == connection then content else []
sent_by connection _ = []

-- What was written to the connection, in order.
unfoldable pub sent : ℕ → Trace → Bytes
sent connection [] = []
sent connection (done c ∷ t) = sent connection t ++ sent_by connection c
sent connection (_ ∷ t) = sent connection t

-- What io.ReadFull has delivered of the connection, in order.
abbrev pub delivered_by : ℕ → Call → Bytes → Bytes
delivered_by connection (read_full c n) content = if c == connection then content else []
delivered_by connection _ content = []

unfoldable pub delivered : ℕ → Trace → Bytes
delivered connection [] = []
delivered connection (gave c content ∷ t) =
    delivered connection t ++ delivered_by connection c content
delivered connection (_ ∷ t) = delivered connection t

abbrev pub take : ℕ → Bytes → Bytes
take n [] = []
take n (b ∷ text) = let rest = take (n - 1) text in if n == 0 then [] else b ∷ rest

abbrev pub drop : ℕ → Bytes → Bytes
drop n [] = []
drop n (b ∷ text) = let rest = drop (n - 1) text in if n == 0 then b ∷ text else rest

-- io.ReadFull of n bytes, when `coming` is all that comes before the deadline: the first n of these
-- bytes, no more and no less, or an error when there are fewer.
abbrev pub read_full_of : Error → ℕ → Bytes → Result Bytes
read_full_of late n coming = if leb n (length coming) then ok (take n coming) else err late

-- Two processes whose calls without a value succeed, and a new connection between them: the client has
-- dialled the server at `address`. `server input` is the server to which the client sends `input`, and
-- then nothing before the deadline. The server reads what the client sends, and the client, at any time,
-- reads what the server sends in return for all that the client has sent until then.
pub record IsConnected (client : Os) (server : Bytes → Os) (address : Bytes)
    (at_client at_server : ℕ) (t u : Trace) : Type 0 where
  pub late : Error
  pub client_calls : (v : Trace) (c : Call) → client.act_answer v c ≡ ok tt
  pub server_calls : (input : Bytes) (v : Trace) (c : Call) → (server input).act_answer v c ≡ ok tt
  pub dialled : client.number_answer t (dial_tcp address) ≡ ok at_client
  pub nothing_sent : (sent at_client t ≡ []) × (sent at_server u ≡ [])
  pub nothing_delivered : (delivered at_client t ≡ []) × (delivered at_server u ≡ [])
  pub server_reads :
      (input : Bytes) (v : Trace) (n : ℕ)
      → (server input).text_answer v (read_full at_server n)
        ≡ read_full_of late n (drop (length (delivered at_server v)) input)
  pub client_reads :
      (v : Trace) (n : ℕ)
      → client.text_answer v (read_full at_client n)
        ≡ read_full_of late n (
            drop
              (length (delivered at_client v))
              (sent at_server (handle_network_check (server (sent at_client v)) at_server u).1))

same : (k : ℕ) → (k == k) ≡ true
same k = ground arith

module _ (client : Os) (server : Bytes → Os) (gateway : Bytes) (k c : ℕ) (t u : Trace)
    (h : IsConnected client server
      (join_host_port gateway (format_uint network_check_port))
      k
      c
      t
      u) where
  -- What the server has done when it reads.
  abbrev waiting : Trace
  waiting = done (set_deadline c) ∷ u

  server_read :
      (server network_check_request).text_answer waiting
        (read_full c (length network_check_request))
      ≡ ok network_check_request
  unfolding delivered
  server_read =
      h.server_reads network_check_request waiting (length network_check_request)
      ∙ rw (h.nothing_delivered.1) refl

  answered :
      sent c (handle_network_check (server network_check_request) c u).1 ≡ network_check_response
  unfolding handle_network_check receive_request answer_request sent ◌>>=◌
  answered =
      simp (h.server_calls network_check_request, server_read, equal_self, h.nothing_sent.1, same)
        refl

  -- What the client has done when it reads.
  abbrev asked : Trace
  asked =
      done (write_connection k network_check_request)
      ∷ done (set_deadline k)
      ∷ counted (dial_tcp (join_host_port gateway (format_uint network_check_port))) k
      ∷ t

  asked-sent : sent k asked ≡ network_check_request
  unfolding sent
  asked-sent = simp (h.nothing_sent.0, same) refl

  asked-delivered : delivered k asked ≡ []
  unfolding delivered
  asked-delivered = h.nothing_delivered.0

  client_read :
      client.text_answer asked (read_full k (length network_check_response))
      ≡ ok network_check_response
  client_read =
      h.client_reads asked (length network_check_response)
      ∙ rw (asked-sent, asked-delivered, answered) refl

-- On a connection on which nothing was sent before, verifyGuestNetwork accepts what handleNetworkCheck
-- answers to what it is sent: io.ReadFull delivers as many bytes as it is asked for, the server gets what
-- the client has sent, and the client gets what the server answers to what it was sent until then.
pub verify_guest_network-handle_network_check :
    (client : Os) (server : Bytes → Os) (gateway : Bytes) (k c : ℕ) (t u : Trace)
    → IsConnected client server (join_host_port gateway (format_uint network_check_port)) k c t u
    → (verify_guest_network client gateway t).0 ≡ ok tt
unfolding verify_guest_network ask check_response ◌>>=◌
verify_guest_network-handle_network_check client server gateway k c t u h =
    simp (h.dialled, h.client_calls, client_read client server gateway k c t u h, equal_self) refl
