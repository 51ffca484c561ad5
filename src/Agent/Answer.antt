-- ===== src/Agent/Answer.antt =====
-- Every request is answered.
use mathlib.Core.Path.{subst}
use kernlet.Common.{
  ℕ, List, [], Bytes, codes, Bool, true, false, Option, none, some, Error, Result, ok, err, equal,
  ◌≡◌, refl, Bool-cases, inl, inr, wrap, fault,
}
use kernlet.Sys.{Trace, Os, ◌>>=◌}
use kernlet.Sys.Cases.{pure_case}
use kernlet.Oci.Image.{Bundle, Codecs}
use kernlet.Oci.Prepare.{prepare}
use kernlet.Oci.Bundle.{close}
use kernlet.Runtime.Run.{Outcome, outcome_of, run}
use kernlet.Common.{arith, ok-injective, if◌then◌else◌, ◌⊎◌, ◌↔◌, sym, ap, ◌∙◌}
use kernlet.Agent.{
  run_config, Request, Response, run_response, failure, run_bundle, handle_run, handle_request,
}

abbrev pub is_none : Option Error → Bool
is_none none = true
is_none (some e) = false

module _ (os : Os) (codecs : Codecs) (order : List (Bytes × Bytes) → List (Bytes × Bytes))
    (sequence : ℕ) (request : Request) (t : Trace) where
  -- What the three steps of a run give: the preparation of the image, the run of a bundle behind it, and
  -- the removal of the bundle behind the run.
  abbrev pub preparation : Result Bundle × Trace
  preparation = prepare os codecs request.image t

  abbrev pub run_of : Bundle → Result Outcome × Trace
  run_of bundle = run os order sequence (run_config request bundle) preparation.1

  abbrev pub removal : Bundle → Result (Unit {0})
  removal bundle = (close os (some bundle) (run_of bundle).1).0

  -- The image was prepared, the run has no error, and the bundle was removed without one.
  pub record RunSucceeds : Type 0 where
    pub bundle : Bundle
    pub prepared : preparation.0 ≡ ok bundle
    pub ran : (outcome_of (run_of bundle).0).error ≡ none
    pub removed : removal bundle ≡ ok tt

  abbrev pub IsPing : Type 0
  IsPing = equal request.method (codes "ping") ≡ true

  abbrev pub IsRun : Type 0
  IsRun =
      (equal request.method (codes "ping") ≡ false) × (equal request.method (codes "run") ≡ true)

  -- The output of a run is in the response also when the run has failed.
  abbrev pub output_of : Result Bundle → Bytes
  output_of (ok bundle) = (outcome_of (run_of bundle).0).output
  output_of (err e) = []

  abbrev pub message_of : Bytes
  message_of =
      if equal request.method (codes "ping")
      then codes "pong"
      else if equal request.method (codes "run")
      then output_of preparation.0
      else []

  -- A response to this request, which says that it succeeded for a ping, and for a run of which every
  -- step succeeded, and for no other request; it has an error in the other cases, and only there.
  pub record IsAnswer (response : Response) : Type 0 where
    pub same_id : response.id ≡ request.id
    pub right : (response.success ≡ true) ↔ (IsPing ⊎ (IsRun × RunSucceeds))
    pub consistent : response.success ≡ is_none response.error
    pub message : response.message ≡ message_of

  -- The code returns a response; it does not fail.
  abbrev pub Answers : Result Response × Trace → Type 0
  Answers (ok response, u) = IsAnswer response
  Answers (err e, u) = ⊥

  -- What is to be shown of the response to a run.
  record IsRunAnswer (response : Response) : Type 0 where
    same_id : response.id ≡ request.id
    right : (response.success ≡ true) ↔ RunSucceeds
    consistent : response.success ≡ is_none response.error
    message : response.message ≡ output_of preparation.0

  known_steps :
      (bundle : Bundle)
      → preparation.0 ≡ ok bundle
      → RunSucceeds
      → ((outcome_of (run_of bundle).0).error ≡ none) × (removal bundle ≡ ok tt)
  known_steps bundle prepared h =
      subst (λ (b : Bundle). ((outcome_of (run_of b).0).error ≡ none) × (removal b ≡ ok tt))
        (ok-injective (sym h.prepared ∙ prepared)) (h.ran, h.removed)

  module _ (bundle : Bundle) (prepared : preparation.0 ≡ ok bundle) where
    refused :
        (e : Error)
        → (((outcome_of (run_of bundle).0).error ≡ none) × (removal bundle ≡ ok tt) → ⊥)
        → IsRunAnswer (failure request.id (outcome_of (run_of bundle).0).output e)
    refused e bad = record {
      same_id = refl;
      right = ((λ x. absurd (ground arith)), λ h. absurd (bad (known_steps bundle prepared h)));
      consistent = refl;
      message = rw prepared refl;
    }

    by_steps :
        (e : Option Error) (closed : Result (Unit {0}))
        → (outcome_of (run_of bundle).0).error ≡ e
        → removal bundle ≡ closed
        → IsRunAnswer (run_response request.id (outcome_of (run_of bundle).0).output e closed)
    by_steps (some e) (ok _) ran removed = refused _ λ h. absurd (cc (ran, h.0))
    by_steps (some e) (err c) ran removed = refused _ λ h. absurd (cc (ran, h.0))
    by_steps none (err c) ran removed = refused _ λ h. absurd (cc (removed, h.1))
    by_steps none (ok _) ran removed = record {
      same_id = refl;
      right = (
        (λ x. record { bundle = bundle; prepared = prepared; ran = ran; removed = removed }),
        λ h. refl,
      );
      consistent = refl;
      message = rw prepared refl;
    }

  run_bundle-IsRunAnswer :
      (prepared : Result Bundle)
      → preparation.0 ≡ prepared
      → (r : Result Response × Trace)
      → r ≡ run_bundle os codecs order sequence request prepared preparation.1
      → (response : Response) × (r.0 ≡ ok response) × IsRunAnswer response
  unfolding run_bundle ◌>>=◌
  run_bundle-IsRunAnswer (ok bundle) prepared r e =
      (_, ap (λ s. s.0) e, by_steps bundle prepared _ _ refl refl)
  run_bundle-IsRunAnswer (err x) prepared r e = (
    failure request.id [] (wrap "prepare image" x),
    ap (λ s. s.0) e,
    record {
      same_id = refl;
      right = ((λ y. absurd (ground arith)), λ h. absurd (cc (prepared, h.prepared)));
      consistent = refl;
      message = rw prepared refl;
    },
  )

  answered :
      IsRun
      → (r : Result Response × Trace)
      → ((response : Response) × (r.0 ≡ ok response) × IsRunAnswer response)
      → Answers r
  answered is_run (ok response, u) (given, same, h) =
      subst IsAnswer (sym (ok-injective same)) (record {
        same_id = h.same_id;
        right = (
          (λ x. inr (is_run, h.right.0 x)),
          λ x. elim x [ inl ping ↦ absurd (cc (is_run.0, ping)) | inr y ↦ h.right.1 y.1 ],
        );
        consistent = h.consistent;
        message = h.message ∙ rw (is_run.0, is_run.1) refl;
      })
  answered is_run (err x, u) (given, same, h) = absurd (ground arith)

  handle_run-Answers : IsRun → Answers (handle_run os codecs order sequence request t)
  unfolding handle_run ◌>>=◌
  handle_run-Answers is_run =
      answered is_run (handle_run os codecs order sequence request t)
        (run_bundle-IsRunAnswer preparation.0 refl _ refl)

  -- Whatever the system answers, every request gets one response, with the id of the request. It says
  -- that it succeeded for a ping, and for a run of which every step succeeded (the image was prepared,
  -- the run has no error, and the bundle was removed), and for no other request; it has an error exactly
  -- when it does not say so. Its message is pong for a ping, and the output of the run for a run whose
  -- image was prepared, also when the run or the removal has failed.
  pub handle_request-Answers : Answers (handle_request os codecs order sequence request t)
  unfolding handle_request
  handle_request-Answers = elim (Bool-cases (equal request.method (codes "ping"))) [
    | inl ping ↦
        rw (ping, handle_request)
          (pure_case Answers
            (record { id = request.id; success = true; message = codes "pong"; error = none }) t
            (record {
              same_id = refl;
              right = ((λ x. inl ping), λ x. refl);
              consistent = refl;
              message = rw ping refl;
            }))
    | inr other ↦ elim (Bool-cases (equal request.method (codes "run"))) [
      | inl run ↦ rw (other, run, handle_request) (handle_run-Answers (other, run))
      | inr unknown ↦
          rw (other, unknown, handle_request)
            (pure_case Answers (failure request.id [] (fault "unknown method")) t (record {
              same_id = refl;
              right = (
                (λ x. absurd (ground arith)),
                λ x. elim x [
                  | inl ping ↦ absurd (cc (other, ping))
                  | inr y ↦ absurd (cc (unknown, y.0.1))
                ],
              );
              consistent = refl;
              message = rw (other, unknown) refl;
            }))
    ]
  ]
