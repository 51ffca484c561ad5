-- ===== src/Agent/Bundles.antt =====
-- What a request leaves behind, and what it does not touch.
use kernlet.Common.{
  ℕ, List, ◌∷◌, Bytes, codes, Option, Result, ok, err, equal, Bool-cases, inl, inr, ◌≡◌, refl, ap,
  ◌∙◌,
}
use kernlet.Sys.{Call, Trace, Os, ◌>>=◌, write_connection}
use kernlet.Sys.Only.{Makes, Makes-weaken, makes_rules}
use kernlet.FilePath.Beneath.{IsBeneath}
use kernlet.Oci.Image.{Bundle, Codecs}
use kernlet.Oci.Bundle.{bundle_parts, close, RemovesBundle, close-RemovesBundle, close-remove_all}
use kernlet.Oci.Prepare.{prepare}
use kernlet.Oci.Prepare.Calls.{prepare-Preparing}
use kernlet.Oci.Prepare.Pending.{
  without, without_self, pending, Balanced, pending-Extends, pending-remove_all, prepare-Balanced,
}
use kernlet.Oci.Prepare.Rootfs.{Silent, MakesBeneath, Preparing-Silent, prepare-IsBeneath}
use kernlet.Runtime.Run.{run}
use kernlet.Runtime.Run.Untouched.{run-Quiet, run-Silent}
use kernlet.Agent.{Request, run_config, run_bundle, handle_run, handle_request}

RemovesBundle-Silent : (c : Call) → RemovesBundle c → Silent c
RemovesBundle-Silent (write_connection fd text) h = absurd h
RemovesBundle-Silent _ h = tt

module _ (os : Os) (codecs : Codecs) (order : List (Bytes × Bytes) → List (Bytes × Bytes))
    (sequence : ℕ) (request : Request) where
  close-Silent : (bundle : Option Bundle) → Makes Silent (close os bundle)
  close-Silent bundle = Makes-weaken RemovesBundle-Silent _ (close-RemovesBundle os bundle)

  run_bundle-Silent :
      (prepared : Result Bundle)
      → Makes Silent (run_bundle os codecs order sequence request prepared)
  unfolding run_bundle
  run_bundle-Silent (err e) = search makes_rules
  run_bundle-Silent (ok bundle) = search (makes_rules, run-Silent, close-Silent) depth 12

  image-Silent : Makes Silent (prepare os codecs request.image)
  image-Silent = Makes-weaken Preparing-Silent _ (prepare-Preparing os codecs request.image)

  handle_run-Silent : Makes Silent (handle_run os codecs order sequence request)
  unfolding handle_run
  handle_run-Silent = search (makes_rules, run_bundle-Silent, image-Silent) depth 12

  pub handle_request-Silent : Makes Silent (handle_request os codecs order sequence request)
  unfolding handle_request
  handle_request-Silent = search (makes_rules, handle_run-Silent) depth 12

  -- A bundle that Prepare has returned is run and removed.
  run_bundle-pending :
      (bundle : Bundle) (before : List Bytes) (t : Trace)
      → IsBeneath bundle_parts bundle.rootfs
      → pending t ≡ bundle.rootfs ∷ before
      → pending (run_bundle os codecs order sequence request (ok bundle) t).1 ≡ before
  unfolding run_bundle ◌>>=◌
  run_bundle-pending bundle before t beneath held =
      let u = (run os order sequence (run_config request bundle) t).1 in
      let same = pending-Extends ((run-Quiet os order sequence (run_config request bundle)).at t) in
      ap (λ r. pending r.1) (close-remove_all os bundle u beneath)
      ∙ pending-remove_all os codecs bundle.rootfs u
      ∙ ap (without bundle.rootfs) (same ∙ held)
      ∙ without_self bundle.rootfs before

  prepared-pending :
      (r : Result Bundle × Trace) (before : List Bytes)
      → Balanced before r
      → ((bundle : Bundle) → r.0 ≡ ok bundle → IsBeneath bundle_parts bundle.rootfs)
      → pending (run_bundle os codecs order sequence request r.0 r.1).1 ≡ before
  unfolding run_bundle ◌>>=◌
  prepared-pending (ok bundle, t) before balanced beneath =
      run_bundle-pending bundle before t (beneath bundle refl) balanced
  prepared-pending (err e, t) before balanced beneath = balanced

  handle_run-pending :
      (t : Trace)
      → MakesBeneath os
      → pending (handle_run os codecs order sequence request t).1 ≡ pending t
  unfolding handle_run ◌>>=◌
  handle_run-pending t made =
      prepared-pending (prepare os codecs request.image t) (pending t)
        (prepare-Balanced os codecs request.image t)
        λ bundle e. (prepare-IsBeneath os codecs request.image made).at t bundle e

  -- If the temporary directories that the system creates for bundles lie below the bundle root, then
  -- every bundle directory that was created for a request has had its removal tried when the request is
  -- answered, whatever else the system answers.
  pub handle_request-pending :
      (t : Trace)
      → MakesBeneath os
      → pending (handle_request os codecs order sequence request t).1 ≡ pending t
  unfolding handle_request ◌>>=◌
  handle_request-pending t made = elim (Bool-cases (equal request.method (codes "ping"))) [
    | inl ping ↦ rw ping
    | inr other ↦ elim (Bool-cases (equal request.method (codes "run"))) [
      | inl runs ↦ rw (other, runs) (handle_run-pending t made)
      | inr unknown ↦ rw (other, unknown)
    ]
  ]
