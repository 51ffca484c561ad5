-- ===== src/Runtime/Run/Unlinking.antt =====
-- Run removes the link that it has made.
use mathlib.Core.Path.{subst}
use kernlet.Common.{
  ℕ, String, List, ◌∷◌, Bytes, false, Result, ok, err, equal_self, ◌≡◌, refl, arith,
}
use kernlet.Sys.{
  Call, failed, counted, Trace, Os, Io, act, number, within_io, on_error, ◌>>=◌, link_add,
  link_by_name, link_del,
}
use kernlet.Sys.Only.{Makes, Makes-weaken, makes_rules}
use kernlet.Sys.Moves.{Moves-bind}
use kernlet.Sys.Cases.{bind_after, within_after, on_error_cases, act_cases, number_cases}
use kernlet.Runtime.Config.{Config}
use kernlet.Runtime.Network.{WorkloadNetwork}
use kernlet.Runtime.Link.{
  set_up_guest_link, delete_guest_link, create_guest_network, delete_found, remove_guest_network,
}
use kernlet.Runtime.Run.{Outcome, with_cleanup, with_pipe, with_network, run}
use kernlet.Runtime.Run.Cgroups.{with_cleanup_trace}
use kernlet.Runtime.Run.Whole.{Holds, run-Moves}
use kernlet.Runtime.Run.Parts.{Piped, Limiting, Checking, with_pipe-Piped}
use kernlet.Runtime.Run.Links.{
  latest_index, is_left, NoLink, LeavesNone, no_link, LeavesOne, Unlinks, Unlinks-NoLink,
  LeavesNone-Chains, LeavesOne-gone,
}

Piped-NoLink : (c : Call) → Piped c → NoLink c
Piped-NoLink (link_add name peer) h = absurd h
Piped-NoLink _ h = tt

Limiting-NoLink : (c : Call) → Limiting c → NoLink c
Limiting-NoLink (link_add name peer) h = absurd h
Limiting-NoLink _ h = tt

Checking-NoLink : (c : Call) → Checking c → NoLink c
Checking-NoLink (link_add name peer) h = absurd h
Checking-NoLink _ h = tt

module _ (os : Os) (network : WorkloadNetwork) where
  -- The link is looked up, and deleted if it was found.
  deleted_lem :
      (i : ℕ) (t : Trace)
      → is_left network.guest_interface
          (act os (link_del i) (counted (link_by_name network.guest_interface) i ∷ t)).1
        ≡ false
  unfolding is_left latest_index
  deleted_lem i t =
      act_cases os (link_del i) (counted (link_by_name network.guest_interface) i ∷ t)
        (λ r. is_left network.guest_interface r.1 ≡ false)
        (ground (arith, equal_self network.guest_interface))
        λ e. ground (arith, equal_self network.guest_interface)

  missing_lem :
      (t : Trace)
      → is_left network.guest_interface (failed (link_by_name network.guest_interface) ∷ t) ≡ false
  unfolding is_left
  missing_lem t = rw (equal_self network.guest_interface)

  -- What the lookup has recorded.
  abbrev LookedUp : Trace → Result ℕ × Trace → Type 0
  LookedUp t (ok i, u) = u ≡ counted (link_by_name network.guest_interface) i ∷ t
  LookedUp t (err e, u) = u ≡ failed (link_by_name network.guest_interface) ∷ t

  look_up : (t : Trace) → LookedUp t (number os (link_by_name network.guest_interface) t)
  look_up t =
      number_cases os (link_by_name network.guest_interface) t (LookedUp t) (λ i. refl) λ e. refl

  delete_guest_link-gone :
      (t : Trace) → is_left network.guest_interface (delete_guest_link os network t).1 ≡ false
  unfolding delete_guest_link
  delete_guest_link-gone t =
      bind_after (LookedUp t) (λ r. is_left network.guest_interface r.1 ≡ false)
        (number os (link_by_name network.guest_interface)) (λ link. act os (link_del link)) t
        (look_up t) (λ i u e. rw e (deleted_lem i t)) λ x u e. rw e (missing_lem t)

  found_gone :
      (r : Result ℕ × Trace) (t : Trace)
      → LookedUp t r
      → is_left network.guest_interface (delete_found os r.0 r.1).1 ≡ false
  unfolding delete_found ◌>>=◌
  found_gone (ok i, u) t e =
      within_after (λ r. is_left network.guest_interface r.1 ≡ false)
        (λ r. is_left network.guest_interface r.1 ≡ false) "delete guest interface"
        (act os (link_del i)) u (rw e (deleted_lem i t)) (λ a v h. h) λ x v h. h
  found_gone (err x, u) t e = rw e (missing_lem t)

  remove_guest_network-gone :
      (t : Trace) → is_left network.guest_interface (remove_guest_network os network t).1 ≡ false
  unfolding remove_guest_network ◌>>=◌
  remove_guest_network-gone t =
      found_gone (number os (link_by_name network.guest_interface) t) t (look_up t)

  -- LinkAdd leaves at most the guest's end of the new link.
  abbrev Added : Trace → Result (Unit {0}) × Trace → Type 0
  Added t (ok _, u) = LeavesOne network.guest_interface t u
  Added t (err e, u) = LeavesNone t u

  link_add-Added :
      (t : Trace)
      → Added t (
          within_io "create veth pair"
            (act os (link_add network.guest_interface network.peer_interface))
            t)
  unfolding is_left
  link_add-Added t =
      within_after (Added t) (Added t) "create veth pair" _ t
        (act_cases os (link_add network.guest_interface network.peer_interface) t (Added t)
          (record { at = λ other different l. ground arith }) λ e. record { at = λ name l. l })
        (λ a u h. h) λ e u h. h

  LeavesOne-then :
      {t u v : Trace}
      → LeavesOne network.guest_interface t u
      → LeavesNone u v
      → LeavesOne network.guest_interface t v
  LeavesOne-then h k = record { at = λ other different l. h.at other different (k.at other l) }

  set_up-NoLink : Makes NoLink (set_up_guest_link os network)
  unfolding set_up_guest_link
  set_up-NoLink = search makes_rules depth 20

  delete-NoLink : Makes NoLink (delete_guest_link os network)
  unfolding delete_guest_link
  delete-NoLink = search makes_rules depth 8

  set_up-Added :
      (t u : Trace)
      → LeavesOne network.guest_interface t u
      → Added t (on_error (set_up_guest_link os network) (delete_guest_link os network) u)
  set_up-Added t u one =
      let after : LeavesOne network.guest_interface t (set_up_guest_link os network u).1 =
        LeavesOne-then one (no_link (set_up_guest_link os network) u set_up-NoLink) in
      on_error_cases (Added t) (set_up_guest_link os network) (delete_guest_link os network) u
        (λ a v e. subst (λ r. LeavesOne network.guest_interface t r.1) e after)
        λ x v e.
          LeavesOne-gone network.guest_interface t (delete_guest_link os network v).1
            (LeavesOne-then (subst (λ r. LeavesOne network.guest_interface t r.1) e after)
              (no_link (delete_guest_link os network) v delete-NoLink))
            (delete_guest_link-gone v)

  create_guest_network-Added : (t : Trace) → Added t (create_guest_network os network t)
  unfolding create_guest_network
  create_guest_network-Added t =
      bind_after (Added t) (Added t) _ _ t (link_add-Added t) (λ a u one. set_up-Added t u one)
        λ e u h. h

module _ (os : Os) where
  delete_found-NoLink : (found : Result ℕ) → Makes NoLink (delete_found os found)
  unfolding delete_found
  delete_found-NoLink (ok link) = search makes_rules depth 8
  delete_found-NoLink (err e) = search makes_rules depth 8

  remove-NoLink : (network : WorkloadNetwork) → Makes NoLink (remove_guest_network os network)
  unfolding remove_guest_network
  remove-NoLink network = search (makes_rules, delete_found-NoLink) depth 12

  with_pipe-NoLink :
      (config : Config) (network : WorkloadNetwork) (cgroup : ℕ)
      → Makes NoLink (with_pipe os config network cgroup)
  with_pipe-NoLink config network cgroup =
      Makes-weaken Piped-NoLink _ (with_pipe-Piped os config network cgroup)

  -- The link that was made is removed when the body has run.
  linked-LeavesNone :
      (context : String) (body : Io Outcome) (network : WorkloadNetwork) (t u : Trace)
      → Makes NoLink body
      → LeavesOne network.guest_interface t u
      → LeavesNone t (with_cleanup os context body (remove_guest_network os network) u).1
  linked-LeavesNone context body network t u quiet one =
      let v = (body u).1 in
      rw (with_cleanup_trace os context body (remove_guest_network os network) u) (
        LeavesOne-gone network.guest_interface t (remove_guest_network os network v).1
          (LeavesOne-then os network (LeavesOne-then os network one (no_link body u quiet))
            (no_link (remove_guest_network os network) v (remove-NoLink network)))
          (remove_guest_network-gone os network v))

  create_and_run-LeavesNone :
      (context : String) (body : Io Outcome) (network : WorkloadNetwork) (t : Trace)
      → Makes NoLink body
      → LeavesNone t
          ((create_guest_network os network >>= λ _.
              with_cleanup os context body (remove_guest_network os network))
            t).1
  create_and_run-LeavesNone context body network t quiet =
      bind_after (Added os network t) (λ r. LeavesNone t r.1) (create_guest_network os network)
        (λ _. with_cleanup os context body (remove_guest_network os network)) t
        (create_guest_network-Added os network t)
        (λ a u one. linked-LeavesNone context body network t u quiet one) λ e u left. left

  with_network-Unlinks :
      (sequence : ℕ) (config : Config) (cgroup : ℕ)
      → Unlinks (with_network os sequence config cgroup)
  unfolding with_network
  with_network-Unlinks sequence config cgroup =
      Moves-bind LeavesNone-Chains _ _ (Unlinks-NoLink _ (search makes_rules depth 4)) λ network.
        record {
          at = λ t.
              create_and_run-LeavesNone "clean up workload network"
                (with_pipe os config network cgroup) network t
                (with_pipe-NoLink config network cgroup);
        }

  Unlinks-Holds : Holds LeavesNone
  Unlinks-Holds = record {
    chains = LeavesNone-Chains;
    checks = λ m h. Unlinks-NoLink m (Makes-weaken Checking-NoLink m h);
    limits = λ m h. Unlinks-NoLink m (Makes-weaken Limiting-NoLink m h);
  }

-- Whatever the system answers, and whether Run succeeds or fails at any point: no guest interface that
-- it has made is left when it returns. Since its creation, each was looked up and not found, or was
-- looked up and its deletion was tried.
pub run-Unlinks :
    (os : Os) (order : List (Bytes × Bytes) → List (Bytes × Bytes)) (sequence : ℕ) (config : Config)
    → Unlinks (run os order sequence config)
run-Unlinks os order sequence config =
    run-Moves os LeavesNone (Unlinks-Holds os) (with_network-Unlinks os) order sequence config
