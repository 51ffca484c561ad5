-- ===== src/Runtime/Init/Ready.antt =====
-- What the child process has done when it starts the workload's program.
use kernlet.Common.{ℕ, zero, suc, ◌+◌, [], ◌∷◌, Bytes, codes, ok, ◌≡◌, refl}
use kernlet.Sys.{
  done, gave, Trace, Os, set_hostname, mount, mkdir, pivot_root, change_dir, unmount, remove,
  read_file, drop_capability, clear_groups, set_gids, set_uids, clear_capability_sets,
}
use kernlet.Sys.Steps.{Succeeds, Succeeds-map, last_act, then_act, then_text, then_lift}
use kernlet.Sys.Cases.{pure_case}
use kernlet.Runtime.Arguments.{InitArguments}
use kernlet.Runtime.Init.{
  ms_private, ms_bind, ms_proc, mnt_detach, old_root_of, cap_last_cap, capability_count, isolate,
  drop_from, drop_capability_bounding_set, drop_identity,
}

-- The events of a process that has its own hostname and root, and has detached the guest's root; the
-- latest first.
pub isolated : InitArguments → Trace → Trace
isolated config t =
    done (change_dir config.working_dir)
    ∷ done (mount (codes "proc") (codes "/proc") (codes "proc") ms_proc)
    ∷ done (remove (codes "/.oldroot"))
    ∷ done (unmount (codes "/.oldroot") mnt_detach)
    ∷ done (change_dir (codes "/"))
    ∷ done (pivot_root config.rootfs (old_root_of config.rootfs))
    ∷ done (mkdir (old_root_of config.rootfs) 0o700)
    ∷ done (mount config.rootfs config.rootfs [] ms_bind)
    ∷ done (mount [] (codes "/") [] ms_private)
    ∷ done (set_hostname config.hostname)
    ∷ t

-- The capabilities from `capability` on are dropped, `n` of them.
pub dropped_from : ℕ → ℕ → Trace → Trace
dropped_from zero capability t = t
dropped_from (suc n) capability t =
    dropped_from n (capability + 1) (done (drop_capability capability) ∷ t)

-- No groups, the workload's identity, and no capabilities.
pub stripped : InitArguments → Trace → Trace
stripped config t =
    done clear_capability_sets
    ∷ done (set_uids config.uid)
    ∷ done (set_gids config.gid)
    ∷ done clear_groups
    ∷ t

module _ (os : Os) (config : InitArguments) where
  pub isolate-isolated : (t : Trace) → Succeeds (λ _ u. u ≡ isolated config t) (isolate os config t)
  unfolding isolate isolated
  isolate-isolated t = then_act os _ _ _ _ _ (
      then_act os _ _ _ _ _ (
        then_act os _ _ _ _ _ (
          then_act os _ _ _ _ _ (
            then_act os _ _ _ _ _ (
              then_act os _ _ _ _ _ (
                then_act os _ _ _ _ _
                  (then_act os _ _ _ _ _ (then_act os _ _ _ _ _ (last_act os _ _ _ _ refl)))))))))

  pub drop_identity-stripped :
      (t : Trace) → Succeeds (λ _ u. u ≡ stripped config t) (drop_identity os config t)
  unfolding drop_identity stripped
  drop_identity-stripped t =
      then_act os _ _ _ _ _
        (then_act os _ _ _ _ _ (then_act os _ _ _ _ _ (last_act os _ _ _ _ refl)))

module _ (os : Os) where
  drop_from-dropped :
      (n capability : ℕ) (t : Trace)
      → Succeeds (λ _ u. u ≡ dropped_from n capability t) (drop_from os n capability t)
  unfolding drop_from dropped_from
  drop_from-dropped zero capability t = pure_case (Succeeds λ _ u. u ≡ t) tt t refl
  drop_from-dropped (suc n) capability t =
      then_act os _ _ _ _ _ (drop_from-dropped n (capability + 1) _)

-- All capabilities that the kernel names are dropped from the bounding set.
pub record IsDropped (t u : Trace) : Type 0 where
  pub value : Bytes
  pub count : ℕ
  pub counted : capability_count value ≡ ok count
  pub whole : u ≡ dropped_from count 0 (gave (read_file cap_last_cap) value ∷ t)

pub drop_capability_bounding_set-IsDropped :
    (os : Os) (t : Trace) → Succeeds (λ _ u. IsDropped t u) (drop_capability_bounding_set os t)
unfolding drop_capability_bounding_set
drop_capability_bounding_set-IsDropped os t = then_text os _ _ _ _ _ λ value.
    then_lift _ (capability_count value) _ _ λ count e.
      Succeeds-map (λ _ u. u ≡ dropped_from count 0 (gave (read_file cap_last_cap) value ∷ t))
        (λ _ u. IsDropped t u) _ (drop_from-dropped os count 0 _)
        λ a u h. record { value = value; count = count; counted = e; whole = h }
