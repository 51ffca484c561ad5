-- ===== src/Agent/Tidy.antt =====
-- What the runs of a connection leave behind: nothing.
use kernlet.Common.{ℕ, List, Bytes, Option, some, Result, ok, err, equal, ◌≡◌, refl, ◌∙◌}
use kernlet.Sys.{
  Call, Trace, Os, Io, pure, mkdir_temp, remove, remove_all, wait_process, start_process, link_add,
  new_file, write_connection, close_connection, close_socket, report,
}
use kernlet.Sys.Only.{Makes, Makes-weaken}
use kernlet.Sys.Moves.{Moves, Chains, Moves-pure, Moves-bind, Moves-attempt, Moves-if}
use kernlet.Oci.Image.{Bundle, Codecs}
use kernlet.Oci.Bundle.{close, RemovesBundle, close-RemovesBundle}
use kernlet.Oci.Prepare.{prepare}
use kernlet.Oci.Prepare.Calls.{Preparing, prepare-Preparing}
use kernlet.Oci.Prepare.Pending.{pending, Quiet, pending-Extends}
use kernlet.Runtime.Config.{Config}
use kernlet.Runtime.Run.{run}
use kernlet.Runtime.Run.Tracking.{open_cgroups, NoCgroup, other_cgroups}
use kernlet.Runtime.Run.Cgroups.{run-open_cgroups}
use kernlet.Runtime.Run.Children.{Idle, idle, Reaped, Reaped-Chains}
use kernlet.Runtime.Run.Reaping.{run-Reaps}
use kernlet.Runtime.Run.Links.{NoLink, no_link, LeavesNone, LeavesNone-Chains}
use kernlet.Runtime.Run.Unlinking.{run-Unlinks}
use kernlet.Agent.{Request, Response, run_bundle, handle_run, handle_request}

-- The cgroups, the children and the links of the runs.
pub record RunsTidy (t u : Trace) : Type 0 where
  pub cgroups : open_cgroups u ≡ open_cgroups t
  pub children : Reaped t u
  pub links : LeavesNone t u

-- The directories of the bundles too.
pub record IsTidy (t u : Trace) : Type 0 where
  pub bundles : pending u ≡ pending t
  pub runs : RunsTidy t u

RunsTidy-Chains : Chains RunsTidy
RunsTidy-Chains = record {
  same = λ t. record {
    cgroups = refl;
    children = Reaped-Chains.same t;
    links = LeavesNone-Chains.same t;
  };
  both = λ h k. record {
    cgroups = k.cgroups ∙ h.cgroups;
    children = Reaped-Chains.both h.children k.children;
    links = LeavesNone-Chains.both h.links k.links;
  };
}

pub IsTidy-Chains : Chains IsTidy
IsTidy-Chains = record {
  same = λ t. record { bundles = refl; runs = RunsTidy-Chains.same t };
  both =
      λ h k. record { bundles = k.bundles ∙ h.bundles; runs = RunsTidy-Chains.both h.runs k.runs };
}

-- Calls that concern none of them.
record IsApart (C : Call → Type 0) : Type 0 where
  cgroup : (c : Call) → C c → NoCgroup c
  child : (c : Call) → C c → Idle c
  link : (c : Call) → C c → NoLink c

apart : {A : Type 0} {C : Call → Type 0} (m : Io A) → IsApart C → Makes C m → Moves RunsTidy m
apart m h k = record {
  at = λ t. record {
    cgroups = other_cgroups m t (Makes-weaken h.cgroup m k);
    children = record { children = 0; counts = idle m t (Makes-weaken h.child m k) };
    links = no_link m t (Makes-weaken h.link m k);
  };
}

Preparing-NoCgroup : (c : Call) → Preparing c → NoCgroup c
unfolding equal
Preparing-NoCgroup (mkdir_temp parent pattern) h = rw h refl
Preparing-NoCgroup (remove path) h = absurd h
Preparing-NoCgroup _ h = tt

Preparing-Idle : (c : Call) → Preparing c → Idle c
Preparing-Idle wait_process h = absurd h
Preparing-Idle (start_process arguments environment flags cgroup) h = absurd h
Preparing-Idle _ h = tt

Preparing-NoLink : (c : Call) → Preparing c → NoLink c
Preparing-NoLink (link_add name peer) h = absurd h
Preparing-NoLink _ h = tt

Preparing-IsApart : IsApart Preparing
Preparing-IsApart = record {
  cgroup = Preparing-NoCgroup;
  child = Preparing-Idle;
  link = Preparing-NoLink;
}

RemovesBundle-Preparing : (c : Call) → RemovesBundle c → Preparing c
RemovesBundle-Preparing (remove_all path) h = tt
RemovesBundle-Preparing _ h = absurd h

-- What handleConnection calls itself.
abbrev Talking : Call → Type 0
Talking (new_file fd) = Unit
Talking (write_connection fd text) = Unit
Talking (close_connection fd) = Unit
Talking (close_socket fd) = Unit
Talking (report e) = Unit
Talking _ = ⊥

Talking-Quiet : (c : Call) → Talking c → Quiet c
Talking-Quiet (mkdir_temp parent pattern) h = absurd h
Talking-Quiet (remove_all path) h = absurd h
Talking-Quiet _ h = tt

Talking-NoCgroup : (c : Call) → Talking c → NoCgroup c
Talking-NoCgroup (mkdir_temp parent pattern) h = absurd h
Talking-NoCgroup (remove path) h = absurd h
Talking-NoCgroup _ h = tt

Talking-Idle : (c : Call) → Talking c → Idle c
Talking-Idle wait_process h = absurd h
Talking-Idle (start_process arguments environment flags cgroup) h = absurd h
Talking-Idle _ h = tt

Talking-NoLink : (c : Call) → Talking c → NoLink c
Talking-NoLink (link_add name peer) h = absurd h
Talking-NoLink _ h = tt

pub talk : {A : Type 0} (m : Io A) → Makes Talking m → Moves IsTidy m
talk m h = record {
  at = λ t. record {
    bundles = pending-Extends ((Makes-weaken Talking-Quiet m h).at t);
    runs =
        (apart m (record { cgroup = Talking-NoCgroup; child = Talking-Idle; link = Talking-NoLink })
            h).at
          t;
  };
}

module _ (os : Os) (codecs : Codecs) (order : List (Bytes × Bytes) → List (Bytes × Bytes))
    (sequence : ℕ) (request : Request) where
  run-RunsTidy : (config : Config) → Moves RunsTidy (run os order sequence config)
  run-RunsTidy config = record {
    at = λ t. record {
      cgroups = run-open_cgroups os order sequence config t;
      children = (run-Reaps os order sequence config).at t;
      links = (run-Unlinks os order sequence config).at t;
    };
  }

  prepare-RunsTidy : Moves RunsTidy (prepare os codecs request.image)
  prepare-RunsTidy = apart _ Preparing-IsApart (prepare-Preparing os codecs request.image)

  close-RunsTidy : (bundle : Option Bundle) → Moves RunsTidy (close os bundle)
  close-RunsTidy bundle =
      apart _ Preparing-IsApart
        (Makes-weaken RemovesBundle-Preparing _ (close-RemovesBundle os bundle))

  run_bundle-RunsTidy :
      (prepared : Result Bundle)
      → Moves RunsTidy (run_bundle os codecs order sequence request prepared)
  unfolding run_bundle
  run_bundle-RunsTidy (err e) = Moves-pure RunsTidy-Chains _
  run_bundle-RunsTidy (ok bundle) =
      Moves-bind RunsTidy-Chains _ _ (Moves-attempt _ (run-RunsTidy _)) λ result.
        Moves-bind RunsTidy-Chains _ _ (Moves-attempt _ (close-RunsTidy (some bundle)))
          λ closed. Moves-pure RunsTidy-Chains _

  handle_run-RunsTidy : Moves RunsTidy (handle_run os codecs order sequence request)
  unfolding handle_run
  handle_run-RunsTidy =
      Moves-bind RunsTidy-Chains _ _ (Moves-attempt _ prepare-RunsTidy) run_bundle-RunsTidy

  answer-RunsTidy : (response : Response) → Moves RunsTidy (pure response)
  answer-RunsTidy response = Moves-pure RunsTidy-Chains response

  pub handle_request-RunsTidy : Moves RunsTidy (handle_request os codecs order sequence request)
  unfolding handle_request
  handle_request-RunsTidy = search (Moves-if, handle_run-RunsTidy, answer-RunsTidy) depth 8
