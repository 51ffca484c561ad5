-- ===== src/Agent/Tests.antt =====
-- Requests to the agent, its connections, and its reports on the process.
use mathlib.Core.Path.{subst}
use kernlet.Common.{[], ◌∷◌, Bytes, codes, ok, equal, arith, ◌≡◌, ◌↔◌, refl, ok-injective}
use kernlet.Text.Split.{split, join}
use kernlet.FilePath.{is_abs, clean, render}
use kernlet.FilePath.Beneath.{IsBeneath}
use kernlet.Sys.{act, new_file}
use kernlet.Oci.Bundle.{bundle_parts}
use kernlet.Sys.Moves.{Moves}
use kernlet.Agent.Tidy.{IsTidy}
use kernlet.Agent.Connection.Tidy.{handle_connection-IsTidy}
use kernlet.Oci.Prepare.Rootfs.{MakesBeneath}
use kernlet.Oci.Sample.{sample_os, sample_codecs}
use kernlet.Agent.{Request, handle_request}
use kernlet.Agent.Answer.{Answers, handle_request-Answers}
use kernlet.Agent.Connection.{Incoming, ended, received, Agency, handle_connection}
use kernlet.Agent.Connection.Order.{Added, Continues, handle_connection-Conversation}
use kernlet.Agent.Serve.{accept_loop}
use kernlet.Agent.Serve.Accepted.{IsServed, accept_loop-IsServed}
use kernlet.Sys.Has.{Each}
use kernlet.Agent.Identity.{Process}
use kernlet.Agent.Main.{main}
use kernlet.Agent.Main.Readied.{IsReadied}
use kernlet.Agent.Main.Boot.{main-IsReadied}
use kernlet.Agent.Status.{status_field, IsFirst, status_field_iff}

abbrev run_request : Request
run_request = record {
  id = 9;
  method = codes "run";
  args = codes "/bin/date" ∷ [];
  hostname = codes "box";
  image = codes "/image";
  memory_max = 67_108_864;
  pids_max = 16;
  cpu_quota = 50_000;
  cpu_period = 100_000;
}

handle_request-Answers_example :
    Answers sample_os sample_codecs
      (λ values. values)
      0
      run_request
      []
      (handle_request sample_os sample_codecs (λ values. values) 0 run_request [])
handle_request-Answers_example =
    handle_request-Answers sample_os sample_codecs (λ values. values) 0 run_request []

made_beneath : MakesBeneath sample_os
unfolding is_abs clean split join render equal
made_beneath = λ t path e. subst (IsBeneath bundle_parts) (ok-injective e) (record {
  part = codes "rootfs-7";
  parts = [];
  absolute = refl;
  spelled = refl;
  named = ground arith;
})

abbrev ping_request : Request
ping_request = record {
  id = 3;
  method = codes "ping";
  args = [];
  hostname = [];
  image = [];
  memory_max = 0;
  pids_max = 0;
  cpu_quota = 0;
  cpu_period = 0;
}

abbrev sample_agency : Agency
sample_agency = record {
  codecs = sample_codecs;
  encode = λ response. response.message;
  order = λ values. values;
  sequence = λ t. 0;
}

abbrev two_requests : Incoming
two_requests = received ping_request (received run_request ended)

handle_connection-Conversation_example :
    Continues
      (Added sample_os sample_agency (act sample_os (new_file 5) []).0 two_requests)
      5
      []
      (handle_connection sample_os sample_agency 5 two_requests []).1
handle_connection-Conversation_example =
    handle_connection-Conversation sample_os sample_agency 5 two_requests []

handle_connection-IsTidy_example :
    Moves IsTidy (handle_connection sample_os sample_agency 5 two_requests)
handle_connection-IsTidy_example =
    handle_connection-IsTidy sample_os sample_agency made_beneath 5 two_requests

accept_loop-IsServed_example : IsServed sample_os 4 3 [] (accept_loop sample_os 4 3 [])
unfolding Each
accept_loop-IsServed_example = accept_loop-IsServed sample_os 4 3 [] tt

abbrev sample_status : Bytes
sample_status = codes "Name:\tsh\nCapEff:\t00ff\nGroups:\t1 2\n"

status_field_iff_example :
    (status_field sample_status (codes "Groups") ≡ ok (codes "1,2"))
    ↔ IsFirst (codes "Groups") (codes "1,2") (split 10 sample_status)
status_field_iff_example = status_field_iff sample_status (codes "Groups") (codes "1,2")

-- The first process of the guest.
abbrev first_process : Process
first_process = record {
  pid = 1;
  parent_pid = 0;
  uid = 0;
  effective_uid = 0;
  gid = 0;
  effective_gid = 0;
  getenv = λ name. [];
  interfaces = ok [];
}

main-IsReadied_example : Each IsReadied (main sample_os first_process 3 [] []).1
main-IsReadied_example = main-IsReadied sample_os first_process 3
