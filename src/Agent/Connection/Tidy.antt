-- ===== src/Agent/Connection/Tidy.antt =====
-- What a connection leaves behind: nothing.
use kernlet.Common.{ℕ, Result, ok, err}
use kernlet.Sys.{Os, Io}
use kernlet.Sys.Only.{makes_rules}
use kernlet.Sys.Moves.{Moves, Moves-pure, Moves-deferred, Moves-bind}
use kernlet.Oci.Prepare.Rootfs.{MakesBeneath}
use kernlet.Agent.{Request}
use kernlet.Agent.Bundles.{handle_request-pending}
use kernlet.Agent.Tidy.{IsTidy, IsTidy-Chains, talk, handle_request-RunsTidy}
use kernlet.Agent.Connection.{
  Incoming, ended, garbled, received, Agency, respond, after_encode, serve_requests, serve_file,
  handle_connection,
}

module _ (os : Os) (agency : Agency) (made : MakesBeneath os) where
  respond-IsTidy : (request : Request) → Moves IsTidy (respond os agency request)
  unfolding respond
  respond-IsTidy request = record {
    at = λ t.
        let sequence = agency.sequence t in
        record {
          bundles = handle_request-pending os agency.codecs agency.order sequence request t made;
          runs = (handle_request-RunsTidy os agency.codecs agency.order sequence request).at t;
        };
  }

  after_encode-IsTidy :
      (encoded : Result (Unit {0})) (rest : Io (Unit {0}))
      → Moves IsTidy rest
      → Moves IsTidy (after_encode os agency encoded rest)
  unfolding after_encode
  after_encode-IsTidy (err e) rest h = talk _ (search makes_rules depth 4)
  after_encode-IsTidy (ok _) rest h = h

  serve_requests-IsTidy :
      (fd : ℕ) (incoming : Incoming) → Moves IsTidy (serve_requests os agency fd incoming)
  unfolding serve_requests
  serve_requests-IsTidy fd ended = Moves-pure IsTidy-Chains tt
  serve_requests-IsTidy fd (garbled e) = talk _ (search makes_rules depth 4)
  serve_requests-IsTidy fd (received request incoming) =
      Moves-bind IsTidy-Chains _ _ (respond-IsTidy request) λ response.
        Moves-bind IsTidy-Chains _ _ (talk _ (search makes_rules depth 4))
          λ encoded. after_encode-IsTidy encoded _ (serve_requests-IsTidy fd incoming)

  serve_file-IsTidy :
      (fd : ℕ) (incoming : Incoming) (file : Result (Unit {0}))
      → Moves IsTidy (serve_file os agency fd incoming file)
  unfolding serve_file
  serve_file-IsTidy fd incoming (err e) = talk _ (search makes_rules depth 4)
  serve_file-IsTidy fd incoming (ok _) =
      Moves-deferred IsTidy-Chains _ _ (serve_requests-IsTidy fd incoming)
        (talk _ (search makes_rules depth 4))

  -- If the temporary directories that the system creates for bundles lie below the bundle root, then,
  -- whatever a client sends on its connection, and whatever else the system answers, when the
  -- connection is done: every bundle directory and every cgroup that was created for it has had its
  -- removal tried, as many calls of Wait as children were started have been made, and every guest
  -- interface that was made for it was looked up since, and not found, or its deletion was tried.
  pub handle_connection-IsTidy :
      (fd : ℕ) (incoming : Incoming) → Moves IsTidy (handle_connection os agency fd incoming)
  unfolding handle_connection
  handle_connection-IsTidy fd incoming =
      Moves-bind IsTidy-Chains _ _ (talk _ (search makes_rules depth 4))
        (serve_file-IsTidy fd incoming)
