-- ===== src/Runtime/Tests.antt =====
-- The theorems on internal/runtime at concrete inputs.
use kernlet.Sys.Steps.{Succeeds}
use kernlet.Runtime.Cgroup.{create_cgroup}
use kernlet.Runtime.Cgroup.Limited.{IsLimited, create_cgroup-IsLimited}
use kernlet.Runtime.Run.Children.{Reaps}
use kernlet.Runtime.Run.Reaping.{run-Reaps}
use kernlet.Common.{
  [], ◌∷◌, List, Bytes, codes, equal, false, refl, ◌+◌, ◌*◌, ◌%◌, ◌/◌, ◌^◌, ◌≢◌, ok, err, fault,
  length, leb, if◌then◌else◌, ◌≡◌, arith,
}
use kernlet.Text.Split.{contains, split, join}
use kernlet.FilePath.{clean, is_abs, render}
use kernlet.Common.{some}
use kernlet.Sys.Works.{Total, IsWilling, HasFiles}
use kernlet.Runtime.Run.Links.{Unlinks}
use kernlet.Runtime.Run.Unlinking.{run-Unlinks}
use kernlet.Runtime.Run.Complete.{IsRunnable, IsFinished, run-IsFinished}
use kernlet.Runtime.Run.Starting.{child_arguments, init_process-child_arguments}
use kernlet.Runtime.Init.{capability_count}
use kernlet.Runtime.Init.Starts.{IsWillingChild, IsStarted}
use kernlet.Runtime.Link.{workload_environment}
use kernlet.Runtime.Link.Environment.{gateway_name, lookup, lookup-workload_environment}
use kernlet.Runtime.Sample.{sample_arguments, willing_os, storing_os, sample_config}
use kernlet.Runtime.Config.{validate_hostname, validate_identity, validate_limits}
use kernlet.Runtime.Run.{run}
use kernlet.Runtime.Run.Tracking.{open_cgroups}
use kernlet.Runtime.Run.Cgroups.{run-open_cgroups}
use kernlet.Runtime.Init.{init_process}
use kernlet.Runtime.Init.Guarded.{Guarded, init_process-Guarded}
use kernlet.Runtime.Network.{network_of, max_workload_networks, allocate_workload_network}
use kernlet.Runtime.Network.Subnet.{
  address_number, prefixed_address, block_number, network_base, network_of-block,
  network_of-interfaces,
}
use kernlet.Runtime.Network.Sequence.{allocation, allocation_slot}

network_of-block_example :
    (prefixed_address (network_of 16383).guest_address ≡ ok (network_base + 4 * 16383 + 1, 30))
    × (prefixed_address (network_of 16383).workload_address ≡ ok (network_base + 4 * 16383 + 2, 30))
    × (address_number (network_of 16383).gateway ≡ ok (network_base + 4 * 16383 + 1))
    × (block_number (network_of 16383).guest_address ≡ ok (network_base / 4 + 16383))
    × (block_number (network_of 16383).workload_address ≡ ok (network_base / 4 + 16383))
network_of-block_example = network_of-block 16383 (omega arith)

network_of-interfaces_example :
    ((network_of 1).guest_interface ≢ (network_of 1).peer_interface)
    × ((network_of 257).guest_interface ≢ (network_of 257).peer_interface)
    × ((network_of 1).guest_interface ≢ (network_of 257).guest_interface)
    × ((network_of 1).peer_interface ≢ (network_of 257).peer_interface)
    × ((network_of 1).guest_interface ≢ (network_of 257).peer_interface)
    × ((network_of 257).guest_interface ≢ (network_of 1).peer_interface)
    × (length (network_of 1).guest_interface ≡ 7)
    × (length (network_of 1).peer_interface ≡ 7)
    × (length (network_of 257).guest_interface ≡ 7)
    × (length (network_of 257).peer_interface ≡ 7)
network_of-interfaces_example =
    network_of-interfaces 1 257 (omega arith) (omega arith) (omega arith)

allocation_slot_example : allocation 16384 ≡ (
    if leb max_workload_networks (16384 % 2 ^ 32)
    then err (fault "workload network address space exhausted")
    else ok (network_of (16384 % 2 ^ 32)))
allocation_slot_example = allocation_slot 16384

sample_hostname : validate_hostname (codes "box") ≡ ok tt
unfolding validate_hostname equal contains
sample_hostname = refl

init_process-Guarded_example :
    Guarded sample_arguments (init_process willing_os sample_arguments []).1
init_process-Guarded_example = init_process-Guarded willing_os sample_arguments

run-open_cgroups_example :
    open_cgroups (run willing_os (λ values. values) 0 sample_config []).1 ≡ open_cgroups []
run-open_cgroups_example = run-open_cgroups willing_os (λ values. values) 0 sample_config []

run-Reaps_example : Reaps (run willing_os (λ values. values) 0 sample_config)
run-Reaps_example = run-Reaps willing_os (λ values. values) 0 sample_config

abbrev one_limit : List (Bytes × Bytes)
one_limit = (codes "pids.max", codes "1") ∷ []

create_cgroup-IsLimited_example :
    Succeeds (IsLimited one_limit []) (create_cgroup willing_os one_limit [])
create_cgroup-IsLimited_example = create_cgroup-IsLimited willing_os one_limit []

run-Unlinks_example : Unlinks (run willing_os (λ values. values) 0 sample_config)
run-Unlinks_example = run-Unlinks willing_os (λ values. values) 0 sample_config

abbrev image_environment : List Bytes
image_environment = codes "HOME=/root" ∷ codes "KERNLET_GATEWAY=10.0.0.1" ∷ []

plain_name : contains 61 gateway_name ≡ false
unfolding contains
plain_name = refl

lookup-workload_environment_example :
    lookup gateway_name (workload_environment image_environment (codes "10.200.0.1")) ≡ (
      if equal gateway_name gateway_name
      then some (codes "10.200.0.1")
      else lookup gateway_name image_environment)
lookup-workload_environment_example =
    lookup-workload_environment gateway_name image_environment (codes "10.200.0.1") plain_name

storing_os-IsWilling : IsWilling storing_os
storing_os-IsWilling = record {
  acts = λ t c. refl;
  value = λ t c. 1;
  numbers = λ t c. refl;
  directories = λ t path. refl;
}

storing_os-HasFiles : HasFiles storing_os
storing_os-HasFiles = record {
  fresh = λ t. codes "1";
  makes = λ t parent pattern. refl;
  reads = λ t path content mode. refl;
}

sample_config-IsRunnable : IsRunnable sample_config
unfolding clean split join render is_abs equal validate_identity validate_limits
sample_config-IsRunnable = record {
  command = refl;
  hostname = sample_hostname;
  absolute = refl;
  not_root = refl;
  identity = refl;
  working_dir = refl;
  limits = refl;
}

first_network : (allocate_workload_network 0).0 ≡ ok (network_of 0)
unfolding allocate_workload_network
first_network = refl

run-IsFinished_example :
    Total
      (λ outcome u. IsFinished storing_os outcome)
      (run storing_os (λ values. values) 0 sample_config [])
run-IsFinished_example =
    run-IsFinished storing_os (λ values. values) 0 sample_config (network_of 0) []
      storing_os-IsWilling storing_os-HasFiles sample_config-IsRunnable first_network

-- The last capability of `willing_os` is 1, so that there are two.
two_capabilities : capability_count (codes "1") ≡ ok 2
unfolding capability_count kernlet.Text.Integer.atoi kernlet.Text.Fields.trim_space
two_capabilities = refl

willing_os-IsWilling : IsWilling willing_os
willing_os-IsWilling = record {
  acts = λ t c. refl;
  value = λ t c. 1;
  numbers = λ t c. refl;
  directories = λ t path. refl;
}

abbrev willing_child : IsWillingChild willing_os
willing_child = record {
  willing = willing_os-IsWilling;
  ready = λ t. refl;
  is_ipv4 = λ t address. refl;
  last = codes "1";
  count = 2;
  reads = λ t. refl;
  counted = two_capabilities;
  program = λ name. codes "1";
  finds = λ t name. refl;
}

init_process-child_arguments_example :
    Total
      (λ _ u.
        IsStarted
          (child_arguments sample_config (codes "sh" ∷ codes "-c" ∷ []) (network_of 5))
          (codes "1")
          (codes "sh" ∷ codes "-c" ∷ [])
          u)
      (init_process willing_os
        (child_arguments sample_config (codes "sh" ∷ codes "-c" ∷ []) (network_of 5))
        [])
init_process-child_arguments_example =
    init_process-child_arguments willing_os willing_child sample_config (codes "sh")
      (codes "-c" ∷ []) (network_of 5) sample_config-IsRunnable (omega arith) (omega arith)
