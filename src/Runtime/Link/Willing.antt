-- ===== src/Runtime/Link/Willing.antt =====
-- The link of a run, on a system whose calls succeed.
use kernlet.Common.{ℕ}
use kernlet.Sys.{Os, ◌>>=◌}
use kernlet.Sys.Works.{
  Works, IsWilling, Works-bind, Works-within_io, Works-on_error, Works-act, Works-number,
}
use kernlet.Runtime.Network.{WorkloadNetwork}
use kernlet.Runtime.Link.{
  create_guest_network, set_up_guest_link, move_network_to_process, delete_found,
  remove_guest_network,
}

module _ (os : Os) (willing : IsWilling os) (network : WorkloadNetwork) where
  set_up-Works : Works (set_up_guest_link os network)
  unfolding set_up_guest_link
  set_up-Works = Works-bind _ _ (Works-within_io _ _ (Works-number os willing _)) λ link.
      Works-bind _ _ (Works-within_io _ _ (Works-act os willing _)) λ _.
        Works-bind _ _ (Works-within_io _ _ (Works-act os willing _))
          λ _. Works-within_io _ _ (Works-act os willing _)

  pub create_guest_network-Works : Works (create_guest_network os network)
  unfolding create_guest_network
  create_guest_network-Works =
      Works-bind _ _ (Works-within_io _ _ (Works-act os willing _))
        λ _. Works-on_error _ _ set_up-Works

  pub move_network-Works : (pid : ℕ) → Works (move_network_to_process os network pid)
  unfolding move_network_to_process
  move_network-Works pid =
      Works-bind _ _ (Works-within_io _ _ (Works-number os willing _))
        λ peer. Works-within_io _ _ (Works-act os willing _)

  pub remove_guest_network-Works : Works (remove_guest_network os network)
  unfolding remove_guest_network delete_found ◌>>=◌
  remove_guest_network-Works = record { at = λ t. simp (willing.numbers, willing.acts) tt }
