-- ===== src/Runtime/Run/Tests.antt =====
-- A run and its child together, at a concrete configuration.
use kernlet.Common.{[], ◌∷◌, codes, inl, inr, refl, ◌≡◌}
use kernlet.Sys.{done, write_ready}
use kernlet.Sys.Has.{Has, Each}
use kernlet.Runtime.Run.Releases.{IsReleased, run-IsReleased}
use kernlet.Runtime.Sample.{sample_arguments, willing_os, storing_os, sample_config}
use kernlet.Runtime.Handshake.{IsSafe, one_after_the_other, run-init_process}
use kernlet.Runtime.Run.{
  run, check_run, run_checked, run_in_cgroup, with_network, with_cleanup, with_pipe, run_child,
  after_start, after_move, after_signal, after_close, current_output,
}
use kernlet.Runtime.Init.{init_process}

sample_signal : Has (done write_ready) (run storing_os (λ values. values) 0 sample_config []).1
unfolding Has run check_run run_checked run_in_cgroup with_network with_cleanup with_pipe run_child
    after_start after_move after_signal after_close current_output kernlet.Sys.◌>>=◌
    kernlet.Runtime.Config.validate_hostname kernlet.Common.equal kernlet.Text.Split.contains
    kernlet.Runtime.Config.validate_rootfs kernlet.FilePath.is_abs kernlet.FilePath.clean
    kernlet.Text.Split.join kernlet.Text.Split.split kernlet.Runtime.Config.validate_identity
    kernlet.Runtime.Config.validate_limits kernlet.Runtime.Cgroup.create_cgroup
    kernlet.Runtime.Cgroup.fill_cgroup kernlet.Runtime.Cgroup.write_values
    kernlet.Runtime.Cgroup.limit_values kernlet.Runtime.Cgroup.write_cgroup_value
    kernlet.Text.Fields.normalize kernlet.Text.Decimal.format_uint
    kernlet.Runtime.Cgroup.close_and_remove_cgroup kernlet.Runtime.Network.allocate_workload_network
    kernlet.Runtime.Link.create_guest_network kernlet.Runtime.Link.remove_guest_network
    kernlet.Runtime.Link.delete_found kernlet.Runtime.Link.move_network_to_process
sample_signal = inr (inr (inr (inr (inr (inr (inr (inr (inl refl))))))))

run-init_process_example :
    IsSafe
      (run storing_os (λ values. values) 0 sample_config []).1
      (init_process willing_os sample_arguments []).1
run-init_process_example =
    run-init_process storing_os willing_os (λ values. values) 0 sample_config sample_arguments _ _
      (one_after_the_other _ _ sample_signal)

run-IsReleased_example : Each IsReleased (run storing_os (λ values. values) 0 sample_config []).1
run-IsReleased_example = run-IsReleased storing_os (λ values. values) 0 sample_config
