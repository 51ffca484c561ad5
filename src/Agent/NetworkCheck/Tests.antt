-- ===== src/Agent/NetworkCheck/Tests.antt =====
-- A network check between two processes.
use kernlet.Common.{[], Bytes, codes, true, ok, ◌≡◌, refl}
use kernlet.Text.Decimal.{format_uint}
use kernlet.Common.{Error, Result, err, fault, length}
use kernlet.Sys.{Call, read_full, Trace, Os}
use kernlet.Agent.NetworkCheck.{
  network_check_port, join_host_port, handle_network_check, verify_guest_network,
}
use kernlet.Agent.NetworkCheck.Handshake.{
  sent, delivered, drop, read_full_of, IsConnected, verify_guest_network-handle_network_check,
}

abbrev late : Error
late = fault "i/o timeout"

-- The connection 3 delivers the bytes of `stream`, which may depend on what was done so far.
abbrev reads : (Trace → Bytes) → Trace → Call → Result Bytes
reads stream t (read_full connection n) =
    read_full_of late n (drop (length (delivered 3 t)) (stream t))
reads stream t _ = err late

abbrev reading : (Trace → Bytes) → Os
reading stream = record {
  act_answer = λ t c. ok tt;
  text_answer = reads stream;
  number_answer = λ t c. ok 3;
  flag_answer = λ t c. ok true;
  captured = λ t. [];
}

abbrev server : Bytes → Os
server input = reading (λ t. input)

abbrev client : Os
client = reading (λ t. sent 3 (handle_network_check (server (sent 3 t)) 3 []).1)

abbrev gateway : Bytes
gateway = codes "10.200.0.1"

connected :
    IsConnected client server (join_host_port gateway (format_uint network_check_port)) 3 3 [] []
unfolding sent delivered
connected = record {
  late = late;
  client_calls = λ v c. refl;
  server_calls = λ input v c. refl;
  dialled = refl;
  nothing_sent = (refl, refl);
  nothing_delivered = (refl, refl);
  server_reads = λ input v n. refl;
  client_reads = λ v n. refl;
}

verify_guest_network-handle_network_check_example :
    (verify_guest_network client gateway []).0 ≡ ok tt
verify_guest_network-handle_network_check_example =
    verify_guest_network-handle_network_check client server gateway 3 3 [] [] connected
