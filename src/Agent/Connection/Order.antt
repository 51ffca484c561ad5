-- ===== src/Agent/Connection/Order.antt =====
-- The order of what is written on a connection.
use kernlet.Common.{
  ℕ, List, [], ◌∷◌, ◌++◌, Bytes, Bool, true, false, Error, wrap, Result, ok, err, ◌==◌,
  if◌then◌else◌, ◌≡◌, refl, sym, ap, ◌∙◌, append_assoc, append-nil, arith,
}
use kernlet.Sys.{
  Call, Event, done, failed, Trace, Os, Io, act, ignore, ◌>>=◌, new_file, close_connection,
  close_socket, report, write_connection,
}
use kernlet.Sys.Only.{call_of, Only, Makes, makes_rules}
use kernlet.Sys.Cases.{act_cases, bind_after}
use kernlet.Oci.Prepare.Rootfs.{Silent}
use kernlet.Agent.{Request, Response, handle_request}
use kernlet.Agent.Answer.{IsAnswer, Answers, handle_request-Answers}
use kernlet.Agent.Bundles.{handle_request-Silent}
use kernlet.Agent.Connection.{
  Incoming, ended, garbled, received, Agency, respond, after_encode, serve_requests, serve_file,
  handle_connection,
}

-- A text that was to be written on the connection, and whether it was.
pub attempts : Bool → ℕ → Call → List (Bool × Bytes)
attempts written fd (write_connection connection text) =
    if connection == fd then (written, text) ∷ [] else []
attempts written fd _ = []

abbrev pub noted : ℕ → Event → List (Bool × Bytes)
noted fd (done c) = attempts true fd c
noted fd (failed c) = attempts false fd c
noted fd _ = []

-- All texts that were to be written on the connection, in the order of the attempts.
pub transcript : ℕ → Trace → List (Bool × Bytes)
transcript fd [] = []
transcript fd (e ∷ t) = transcript fd t ++ noted fd e

-- A text is the encoding of an answer to the request.
pub record IsReply (os : Os) (agency : Agency) (request : Request) (text : Bytes) : Type 0 where
  pub response : Response
  pub time : Trace
  pub answers : IsAnswer os agency.codecs agency.order (agency.sequence time) request time response
  pub encoded : text ≡ agency.encode response

-- One reply to each request, in the order of the requests, up to the first that cannot be written.
abbrev pub Conversation : Os → Agency → Incoming → List (Bool × Bytes) → Type 0
Conversation os agency (received request incoming) ((true, text) ∷ texts) =
    IsReply os agency request text × Conversation os agency incoming texts
Conversation os agency (received request incoming) ((false, text) ∷ texts) =
    IsReply os agency request text × (texts ≡ [])
Conversation os agency (received request incoming) [] = ⊥
Conversation _ _ _ texts = texts ≡ []

-- What is added to the transcript; nothing if there is no file.
abbrev pub Added : Os → Agency → Result (Unit {0}) → Incoming → List (Bool × Bytes) → Type 0
Added os agency (ok _) incoming texts = Conversation os agency incoming texts
Added os agency (err e) incoming texts = texts ≡ []

pub record Continues (C : List (Bool × Bytes) → Type 0) (fd : ℕ) (before after : Trace)
    : Type 0 where
  pub texts : List (Bool × Bytes)
  pub whole : transcript fd after ≡ transcript fd before ++ texts
  pub kind : C texts

attempts-Silent : (written : Bool) (fd : ℕ) (c : Call) → Silent c → attempts written fd c ≡ []
unfolding attempts
attempts-Silent written fd (write_connection connection text) h = absurd h
attempts-Silent written fd _ h = refl

noted-Silent : (fd : ℕ) (e : Event) → Silent (call_of e) → noted fd e ≡ []
noted-Silent fd (done c) h = attempts-Silent true fd c h
noted-Silent fd (failed c) h = attempts-Silent false fd c h
noted-Silent fd _ h = refl

transcript-Only :
    (fd : ℕ) (new t : Trace) → Only Silent new → transcript fd (new ++ t) ≡ transcript fd t
unfolding transcript
transcript-Only fd [] t h = refl
transcript-Only fd (e ∷ new) t h =
    rw (noted-Silent fd e h.0, append-nil (transcript fd (new ++ t))) (transcript-Only fd new t h.1)

transcript-Silent :
    {A : Type 0} (fd : ℕ) (m : Io A) (t : Trace)
    → Makes Silent m
    → transcript fd (m t).1 ≡ transcript fd t
transcript-Silent fd m t h =
    let e = h.at t in ap (transcript fd) e.whole ∙ transcript-Only fd e.new t e.kind

attempts_self :
    (written : Bool) (fd : ℕ) (text : Bytes)
    → attempts written fd (write_connection fd text) ≡ (written, text) ∷ []
unfolding attempts
attempts_self written fd text = ground arith

module _ (os : Os) (agency : Agency) (fd : ℕ) where
  silent_ending :
      (t : Trace) (e : Error)
      → Continues (λ texts. texts ≡ []) fd t (ignore (act os (report e)) t).1
  silent_ending t e = record {
    texts = [];
    whole =
        transcript-Silent fd (ignore (act os (report e))) t (search makes_rules depth 4)
        ∙ sym (append-nil (transcript fd t));
    kind = refl;
  }

  written_lem :
      (t : Trace) (text : Bytes)
      → transcript fd (done (write_connection fd text) ∷ t) ≡ transcript fd t ++ (true, text) ∷ []
  unfolding transcript
  written_lem t text = rw (attempts_self true fd text)

  unwritten_lem :
      (t : Trace) (text : Bytes)
      → transcript fd (failed (write_connection fd text) ∷ t)
        ≡ transcript fd t ++ (false, text) ∷ []
  unfolding transcript
  unwritten_lem t text = rw (attempts_self false fd text)

  module _ (request : Request) (incoming : Incoming) (rest : Io (Unit {0}))
      (continues : (v : Trace) → Continues (Conversation os agency incoming) fd v (rest v).1) where
    failure-Silent : (e : Error) → Makes Silent (after_encode os agency (err e) rest)
    unfolding after_encode
    failure-Silent e = search makes_rules depth 4

    after_encode-Continues :
        (response : Response) (time u : Trace)
        → IsAnswer os agency.codecs agency.order (agency.sequence time) request time response
        → let r = act os (write_connection fd (agency.encode response)) u in
          Continues
            (Conversation os agency (received request incoming))
            fd
            u
            (after_encode os agency r.0 rest r.1).1
    unfolding after_encode
    after_encode-Continues response time u answer =
        let text = agency.encode response in
        let reply : IsReply os agency request text = record {
          response = response;
          time = time;
          answers = answer;
          encoded = refl;
        } in
        act_cases os (write_connection fd text) u
          (λ r.
            Continues (Conversation os agency (received request incoming)) fd u
              (after_encode os agency r.0 rest r.1).1)
          (let k = continues (done (write_connection fd text) ∷ u) in
            record {
              texts = (true, text) ∷ k.texts;
              whole =
                  k.whole
                  ∙ ap (λ (l : List (Bool × Bytes)). l ++ k.texts) (written_lem u text)
                  ∙ append_assoc (transcript fd u) ((true, text) ∷ []) k.texts;
              kind = (reply, k.kind);
            })
          (λ e. record {
            texts = (false, text) ∷ [];
            whole =
                transcript-Silent fd (after_encode os agency (err e) rest)
                  (failed (write_connection fd text) ∷ u) (failure-Silent e)
                ∙ unwritten_lem u text;
            kind = (reply, refl);
          })

  -- What holds when a request has been handled.
  abbrev Handled : Request → Trace → Result Response × Trace → Type 0
  Handled request t r =
      Answers os agency.codecs agency.order (agency.sequence t) request t r
      × (transcript fd r.1 ≡ transcript fd t)

  handle_request-Handled :
      (request : Request) (t : Trace)
      → Handled request t
          (handle_request os agency.codecs agency.order (agency.sequence t) request t)
  handle_request-Handled request t = (
    handle_request-Answers os agency.codecs agency.order (agency.sequence t) request t,
    transcript-Silent fd _ t
        (handle_request-Silent os agency.codecs agency.order (agency.sequence t) request),
  )

  serve_requests-Continues :
      (incoming : Incoming) (t : Trace)
      → Continues (Conversation os agency incoming) fd t (serve_requests os agency fd incoming t).1
  unfolding serve_requests ◌>>=◌ respond
  serve_requests-Continues ended t = record {
    texts = [];
    whole = sym (append-nil (transcript fd t));
    kind = refl;
  }
  serve_requests-Continues (garbled e) t = silent_ending t (wrap "kernlet-agent: decode request" e)
  serve_requests-Continues (received request incoming) t =
      bind_after (Handled request t)
        (λ r. Continues (Conversation os agency (received request incoming)) fd t r.1)
        (respond os agency request) _ t (handle_request-Handled request t)
        (λ response u h.
          let k =
            after_encode-Continues request incoming (serve_requests os agency fd incoming)
              (serve_requests-Continues incoming) response t u h.0 in
          record {
            texts = k.texts;
            whole = k.whole ∙ ap (λ (l : List (Bool × Bytes)). l ++ k.texts) h.1;
            kind = k.kind;
          })
        (λ e u h. absurd h.0)

  served-Continues :
      (incoming : Incoming) (r : Result (Unit {0}) × Trace) (t : Trace)
      → transcript fd r.1 ≡ transcript fd t
      → Continues (Added os agency r.0 incoming) fd t (serve_file os agency fd incoming r.0 r.1).1
  unfolding serve_file ◌>>=◌
  served-Continues incoming (ok _, u) t same =
      let k = serve_requests-Continues incoming u in
      record {
        texts = k.texts;
        whole =
            transcript-Silent fd (act os (close_connection fd))
              (serve_requests os agency fd incoming u).1 (search makes_rules depth 4)
            ∙ k.whole
            ∙ ap (λ (l : List (Bool × Bytes)). l ++ k.texts) same;
        kind = k.kind;
      }
  served-Continues incoming (err e, u) t same = record {
    texts = [];
    whole =
        transcript-Silent fd (act os (close_socket fd)) u (search makes_rules depth 4)
        ∙ same
        ∙ sym (append-nil (transcript fd t));
    kind = refl;
  }

  -- Whatever the requests of a connection and whatever the system answers, what the agent writes on it
  -- is one answer to each request, in the order of the requests, up to the first that cannot be written,
  -- after which nothing is written; and nothing at all if the descriptor gives no file.
  pub handle_connection-Conversation :
      (incoming : Incoming) (t : Trace)
      → Continues
          (Added os agency (act os (new_file fd) t).0 incoming)
          fd
          t
          (handle_connection os agency fd incoming t).1
  unfolding handle_connection ◌>>=◌
  handle_connection-Conversation incoming t =
      served-Continues incoming (act os (new_file fd) t) t
        (transcript-Silent fd (act os (new_file fd)) t (search makes_rules depth 4))
