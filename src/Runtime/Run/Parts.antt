-- ===== src/Runtime/Run/Parts.antt =====
-- The calls of the parts of Run: the checks, the cgroup, the link, and the child.
use kernlet.Common.{ℕ, List, [], ◌∷◌, Bytes, codes, Error, Result, ok, err, ◌≡◌, refl}
use kernlet.Sys.{
  Call, Os, stat, mkdir_temp, write_file, read_file, open_file, close_file, remove, link_add,
  link_by_name, link_del, link_set_up, link_set_ns_pid, parse_addr, addr_add, make_pipe,
  close_reader, close_writer, write_ready, start_process, wait_process,
}
use kernlet.Sys.Only.{Extends-refl, Makes, Makes-bind, Makes-within_io, Makes-text, makes_rules}
use kernlet.Runtime.Config.{Config, validate_rootfs}
use kernlet.Runtime.Cgroup.{
  cgroup_root, create_cgroup, fill_cgroup, write_values, write_cgroup_value,
  close_and_remove_cgroup,
}
use kernlet.Runtime.Network.{WorkloadNetwork}
use kernlet.Runtime.Link.{
  create_guest_network, move_network_to_process, delete_found, remove_guest_network,
}
use kernlet.Runtime.Run.{
  current_output, fail_with, after_close, give_up, after_signal, after_move, after_start, run_child,
  with_pipe, check_run,
}

-- What is called before anything is changed.
abbrev pub Checking : Call → Type 0
Checking (stat path) = Unit
Checking _ = ⊥

-- What is called for the cgroup.
abbrev pub Limiting : Call → Type 0
Limiting (mkdir_temp parent pattern) = parent ≡ cgroup_root
Limiting (write_file path content mode) = Unit
Limiting (read_file path) = Unit
Limiting (open_file path) = Unit
Limiting (close_file fd) = Unit
Limiting (remove path) = Unit
Limiting _ = ⊥

-- What is called between the creation of the link and its removal.
abbrev pub Piped : Call → Type 0
Piped make_pipe = Unit
Piped close_reader = Unit
Piped close_writer = Unit
Piped write_ready = Unit
Piped (start_process arguments environment flags cgroup) = Unit
Piped wait_process = Unit
Piped (link_by_name name) = Unit
Piped (link_set_ns_pid link pid) = Unit
Piped _ = ⊥

-- What is called for the guest's end of the link.
abbrev pub Linking : Call → Type 0
Linking (link_add name peer) = Unit
Linking (link_by_name name) = Unit
Linking (link_del link) = Unit
Linking (link_set_up link) = Unit
Linking (parse_addr text) = Unit
Linking (addr_add link text) = Unit
Linking _ = ⊥

module _ (os : Os) where
  current_output-Piped : Makes Piped (current_output os)
  unfolding current_output
  current_output-Piped = record { at = λ t. Extends-refl t }

  fail_with-Piped : (e : Error) → Makes Piped (fail_with os e)
  unfolding fail_with
  fail_with-Piped e = search (makes_rules, current_output-Piped) depth 8

  give_up-Piped : (e : Error) → Makes Piped (give_up os e)
  unfolding give_up
  give_up-Piped e = search (makes_rules, fail_with-Piped) depth 12

  after_close-Piped : (closed : Result (Unit {0})) → Makes Piped (after_close os closed)
  unfolding after_close
  after_close-Piped (err e) = search (makes_rules, fail_with-Piped) depth 12
  after_close-Piped (ok _) = search (makes_rules, current_output-Piped) depth 12

  after_signal-Piped : (signalled : Result (Unit {0})) → Makes Piped (after_signal os signalled)
  unfolding after_signal
  after_signal-Piped (err e) = give_up-Piped e
  after_signal-Piped (ok _) = search (makes_rules, after_close-Piped) depth 12

  after_move-Piped : (moved : Result (Unit {0})) → Makes Piped (after_move os moved)
  unfolding after_move
  after_move-Piped (err e) = give_up-Piped e
  after_move-Piped (ok _) = search (makes_rules, after_signal-Piped) depth 12

  move_network-Piped :
      (network : WorkloadNetwork) (pid : ℕ) → Makes Piped (move_network_to_process os network pid)
  unfolding move_network_to_process
  move_network-Piped network pid = search makes_rules depth 12

  after_start-Piped :
      (network : WorkloadNetwork) (started : Result ℕ)
      → Makes Piped (after_start os network started)
  unfolding after_start
  after_start-Piped network (err e) = fail_with-Piped e
  after_start-Piped network (ok pid) =
      search (makes_rules, after_move-Piped, move_network-Piped) depth 12

  run_child-Piped :
      (config : Config) (network : WorkloadNetwork) (cgroup : ℕ)
      → Makes Piped (run_child os config network cgroup)
  unfolding run_child
  run_child-Piped config network cgroup = search (makes_rules, after_start-Piped) depth 12

  pub with_pipe-Piped :
      (config : Config) (network : WorkloadNetwork) (cgroup : ℕ)
      → Makes Piped (with_pipe os config network cgroup)
  unfolding with_pipe
  with_pipe-Piped config network cgroup = search (makes_rules, run_child-Piped) depth 12

  pub create_guest_network-Linking :
      (network : WorkloadNetwork) → Makes Linking (create_guest_network os network)
  unfolding create_guest_network
  create_guest_network-Linking network = search makes_rules depth 20

  delete_found-Linking : (found : Result ℕ) → Makes Linking (delete_found os found)
  unfolding delete_found
  delete_found-Linking (ok link) = search makes_rules depth 8
  delete_found-Linking (err e) = search makes_rules depth 8

  pub remove_guest_network-Linking :
      (network : WorkloadNetwork) → Makes Linking (remove_guest_network os network)
  unfolding remove_guest_network
  remove_guest_network-Linking network = search (makes_rules, delete_found-Linking) depth 12

  write_values-Limiting :
      (path : Bytes) (values : List (Bytes × Bytes)) → Makes Limiting (write_values os path values)
  unfolding write_values write_cgroup_value
  write_values-Limiting path [] = search makes_rules
  write_values-Limiting path ((name, value) ∷ values) =
      Makes-bind _ _ (search makes_rules depth 20) λ _. write_values-Limiting path values

  fill_cgroup-Limiting :
      (values : List (Bytes × Bytes)) (path : Bytes) → Makes Limiting (fill_cgroup os values path)
  unfolding fill_cgroup
  fill_cgroup-Limiting values path = search (makes_rules, write_values-Limiting) depth 20

  pub create_cgroup-Limiting :
      (values : List (Bytes × Bytes)) → Makes Limiting (create_cgroup os values)
  unfolding create_cgroup
  create_cgroup-Limiting values =
      Makes-bind _ _
        (Makes-within_io "create workload cgroup" _
          (Makes-text os (mkdir_temp cgroup_root (codes "workload-")) refl))
        (fill_cgroup-Limiting values)

  pub close_and_remove-Limiting :
      (path : Bytes) (fd : ℕ) → Makes Limiting (close_and_remove_cgroup os path fd)
  unfolding close_and_remove_cgroup
  close_and_remove-Limiting path fd = search makes_rules depth 12

  -- A refused configuration causes no call but os.Stat.
  pub check_run-Checking : (config : Config) → Makes Checking (check_run os config)
  unfolding check_run validate_rootfs
  check_run-Checking config = search makes_rules depth 30
