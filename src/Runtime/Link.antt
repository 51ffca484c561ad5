-- ===== src/Runtime/Link.antt =====
-- The virtual links of a run: createGuestNetwork, moveNetworkToProcess, configureWorkloadNetwork,
-- removeGuestNetwork, waitForNetwork and workloadEnvironment. A netlink.Link is its index.
pub mod Signal
pub mod Environment
pub mod Willing
use kernlet.Common.{
  ℕ, List, [], ◌∷◌, ◌++◌, Bytes, codes, Bool, not, Result, ok, err, fault, ◌==◌, if◌then◌else◌,
}
use kernlet.Text.Split.{has_prefix}
use kernlet.Sys.{
  Os, Io, act, number, flag, pure, lift, within_io, on_error, attempt, deferred, ◌>>=◌, ◌>>◌,
  link_add, link_by_name, link_del, link_set_up, link_set_name, link_set_ns_pid, parse_addr,
  parse_ipv4, addr_add, route_add, open_ready, close_ready, read_ready,
}
use kernlet.Runtime.Network.{WorkloadNetwork}

abbrev pub workload_interface : Bytes
workload_interface = codes "eth0"

abbrev pub gateway_prefix : Bytes
gateway_prefix = codes "KERNLET_GATEWAY="

-- The loop of workloadEnvironment, and the entry that it appends.
keep_others : List Bytes → List Bytes
keep_others [] = []
keep_others (value ∷ environment) =
    let rest = keep_others environment in
    if has_prefix gateway_prefix value then rest else value ∷ rest

pub workload_environment : List Bytes → Bytes → List Bytes
unfolding keep_others
workload_environment image_environment gateway =
    keep_others image_environment ++ (gateway_prefix ++ gateway) ∷ []

module _ (os : Os) where
  -- The closure `cleanup` of createGuestNetwork.
  unfoldable pub delete_guest_link : WorkloadNetwork → Io (Unit {0})
  delete_guest_link network = do
    link ← number os (link_by_name network.guest_interface)
    act os (link_del link)

  -- What follows LinkAdd. Each step that fails is followed by the cleanup.
  unfoldable pub set_up_guest_link : WorkloadNetwork → Io (Unit {0})
  set_up_guest_link network = do
    guest_link ← within_io "find guest interface" (number os (link_by_name network.guest_interface))
    within_io "parse guest address" (act os (parse_addr network.guest_address))
    within_io "assign guest address" (act os (addr_add guest_link network.guest_address))
    within_io "bring guest interface up" (act os (link_set_up guest_link))

  unfoldable pub create_guest_network : WorkloadNetwork → Io (Unit {0})
  unfolding set_up_guest_link delete_guest_link
  create_guest_network network = do
    within_io "create veth pair" (act os (link_add network.guest_interface network.peer_interface))
    on_error (set_up_guest_link network) (delete_guest_link network)

  unfoldable pub move_network_to_process : WorkloadNetwork → ℕ → Io (Unit {0})
  move_network_to_process network pid = do
    peer ← within_io "find workload peer" (number os (link_by_name network.peer_interface))
    within_io "move interface to process" (act os (link_set_ns_pid peer pid))

  -- A link that is not found is gone already.
  unfoldable pub delete_found : Result ℕ → Io (Unit {0})
  delete_found (ok link) = within_io "delete guest interface" (act os (link_del link))
  delete_found (err e) = pure tt

  unfoldable pub remove_guest_network : WorkloadNetwork → Io (Unit {0})
  remove_guest_network network = do
    found ← attempt (number os (link_by_name network.guest_interface))
    delete_found found

  -- The test on net.ParseIP: the gateway is an IPv4 address.
  check_gateway : Bytes → Bool → Io (Unit {0})
  check_gateway gateway is_ipv4 =
      if is_ipv4 then pure tt else lift (err (fault "gateway is not a valid IPv4 address"))

  unfoldable pub configure_workload_network : Bytes → Bytes → Bytes → Io (Unit {0})
  unfolding check_gateway
  configure_workload_network peer_interface workload_address gateway_address = do
    loopback ← within_io "find loopback interface" (number os (link_by_name (codes "lo")))
    within_io "bring loopback interface up" (act os (link_set_up loopback))
    peer ← within_io "find workload interface" (number os (link_by_name peer_interface))
    within_io "rename interface" (act os (link_set_name peer workload_interface))
    ethernet ←
        within_io "find renamed workload interface" (number os (link_by_name workload_interface))
    within_io "parse workload address" (act os (parse_addr workload_address))
    within_io "assign workload address" (act os (addr_add ethernet workload_address))
    within_io "bring workload interface up" (act os (link_set_up ethernet))
    is_ipv4 ← flag os (parse_ipv4 gateway_address)
    check_gateway gateway_address is_ipv4
    within_io "add default route" (act os (route_add ethernet gateway_address))

  -- io.ReadFull of one byte; its value is the answer.
  check_signal : ℕ → Io (Unit {0})
  check_signal signal =
      if not (signal == 1)
      then lift (err (fault "received invalid network readiness signal"))
      else pure tt

  read_signal : Io (Unit {0})
  read_signal = do
    signal ← within_io "wait for network configuration" (number os read_ready)
    check_signal signal

  unfoldable pub wait_for_network : Io (Unit {0})
  unfolding read_signal check_signal
  wait_for_network = do
    within_io "open network readiness descriptor" (act os open_ready)
    deferred read_signal (act os close_ready)
