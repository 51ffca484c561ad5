-- ===== src/Agent/Connection.antt =====
-- handleConnection: the requests of one connection, one after the other.
pub mod Order
pub mod Tidy
use kernlet.Common.{ℕ, List, [], ◌∷◌, Bytes, codes, Error, wrap, Result, ok, err}
use kernlet.Sys.{
  Os, Trace, Io, act, pure, ignore, attempt, deferred, ◌>>=◌, ◌>>◌, new_file, write_connection,
  close_connection, close_socket, report,
}
use kernlet.Oci.Image.{Codecs}
use kernlet.Agent.{Request, Response, handle_request}

-- What the calls of json.Decoder.Decode return: requests, and then io.EOF or another error.
pub data Incoming : Type 0 where
  ended : Incoming
  garbled : Error → Incoming
  received : Request → Incoming → Incoming

-- The parameters of the agent: json.Encoder.Encode, which writes the text and a newline at once, and
-- those of Run at each of its calls, where the counter of networks is shared by all connections.
pub record Agency : Type 0 where
  pub codecs : Codecs
  pub encode : Response → Bytes
  pub order : List (Bytes × Bytes) → List (Bytes × Bytes)
  pub sequence : Trace → ℕ

module _ (os : Os) (agency : Agency) where
  respond : Request → Io Response
  respond request t = handle_request os agency.codecs agency.order (agency.sequence t) request t

  -- `if err != nil { print; return }`, and the next round of the loop.
  after_encode : Result (Unit {0}) → Io (Unit {0}) → Io (Unit {0})
  after_encode (err e) rest = ignore (act os (report (wrap "kernlet-agent: encode response" e)))
  after_encode (ok _) rest = rest

  -- The loop, request by request.
  serve_requests : ℕ → Incoming → Io (Unit {0})
  serve_requests fd ended = pure tt
  serve_requests fd (garbled e) = ignore (act os (report (wrap "kernlet-agent: decode request" e)))
  serve_requests fd (received request incoming) = do
    response ← respond request
    encoded ← attempt (act os (write_connection fd (agency.encode response)))
    after_encode encoded (serve_requests fd incoming)

  -- `file == nil`
  serve_file : ℕ → Incoming → Result (Unit {0}) → Io (Unit {0})
  serve_file fd incoming (err e) = ignore (act os (close_socket fd))
  serve_file fd incoming (ok _) =
      deferred (serve_requests fd incoming) (act os (close_connection fd))

  pub handle_connection : ℕ → Incoming → Io (Unit {0})
  handle_connection fd incoming = do
    file ← attempt (act os (new_file fd))
    serve_file fd incoming file
