-- ===== src/Runtime/Run/Cgroups.antt =====
-- Which cgroups a run leaves behind.
use kernlet.Common.{
  ℕ, String, List, [], ◌∷◌, Bytes, codes, equal, Result, ok, err, ◌≡◌, refl, sym, ap, ◌∙◌,
}
use kernlet.Sys.{
  Trace, Os, Io, act, text, number, within_io, on_error, ◌>>=◌, mkdir_temp, remove, close_file,
  open_file,
}
use kernlet.Sys.Only.{Makes, Makes-bind, makes_rules}
use kernlet.Sys.Cases.{bind_after, within_after, pure_case, on_error_cases, act_cases, text_cases}
use kernlet.Runtime.Config.{Config}
use kernlet.Runtime.Cgroup.{
  cgroup_root, create_cgroup, fill_cgroup, write_values, write_cgroup_value,
  close_and_remove_cgroup,
}
use kernlet.Runtime.Run.{
  Outcome, with_cleanup, with_network, check_run, run_in_cgroup, run_checked, run,
}
use kernlet.Runtime.Run.Tracking.{
  remaining, after_call, after_made, open_cgroups, Still, same_cgroups, remaining_self,
}
use kernlet.Runtime.Run.Still.{with_network-Still, check_run-Still}

-- A success leaves the new directory, and a failure leaves none.
abbrev Held : {A : Type 0} → Bytes → List Bytes → Result A × Trace → Type 0
Held path before (ok a, u) = open_cgroups u ≡ path ∷ before
Held path before (err e, u) = open_cgroups u ≡ before

module _ (os : Os) where
  open_cgroups-remove :
      (path : Bytes) (before : List Bytes) (t : Trace)
      → open_cgroups t ≡ path ∷ before
      → open_cgroups (act os (remove path) t).1 ≡ before
  unfolding open_cgroups after_call
  open_cgroups-remove path before t held =
      act_cases os (remove path) t (λ r. open_cgroups r.1 ≡ before)
        (ap (remaining path) held ∙ remaining_self path before)
        λ e. ap (remaining path) held ∙ remaining_self path before

  on_error-Held :
      {A : Type 0} (m : Io A) (path : Bytes) (before : List Bytes) (t : Trace)
      → Makes Still m
      → open_cgroups t ≡ path ∷ before
      → Held path before (on_error m (act os (remove path)) t)
  on_error-Held m path before t still held =
      on_error_cases (Held path before) m (act os (remove path)) t
        (λ a u e. ap (λ r. open_cgroups r.1) (sym e) ∙ same_cgroups m t still ∙ held)
        (λ x u e.
          open_cgroups-remove path before u
            (ap (λ r. open_cgroups r.1) (sym e) ∙ same_cgroups m t still ∙ held))

  write_values-Still :
      (path : Bytes) (values : List (Bytes × Bytes)) → Makes Still (write_values os path values)
  unfolding write_values write_cgroup_value
  write_values-Still path [] = search makes_rules
  write_values-Still path ((name, value) ∷ values) =
      Makes-bind _ _ (search makes_rules depth 20) λ _. write_values-Still path values

  close_and_remove_lem :
      (path : Bytes) (fd : ℕ) (before : List Bytes) (t : Trace)
      → open_cgroups t ≡ path ∷ before
      → open_cgroups (close_and_remove_cgroup os path fd t).1 ≡ before
  unfolding close_and_remove_cgroup ◌>>=◌
  close_and_remove_lem path fd before t held =
      open_cgroups-remove path before (act os (close_file fd) t).1
        (same_cgroups (act os (close_file fd)) t (search makes_rules depth 8) ∙ held)

  pub with_cleanup_trace :
      (context : String) (body : Io Outcome) (cleanup : Io (Unit {0})) (t : Trace)
      → (with_cleanup os context body cleanup t).1 ≡ (cleanup (body t).1).1
  unfolding with_cleanup ◌>>=◌
  with_cleanup_trace context body cleanup t = refl

  -- What holds after createCgroup.
  abbrev Created : List Bytes → Result (Bytes × ℕ) × Trace → Type 0
  Created before (ok cgroup, u) = open_cgroups u ≡ cgroup.0 ∷ before
  Created before (err e, u) = open_cgroups u ≡ before

  abbrev Made : List Bytes → Result Bytes × Trace → Type 0
  Made before (ok path, u) = open_cgroups u ≡ path ∷ before
  Made before (err e, u) = open_cgroups u ≡ before

  fill_cgroup-Created :
      (values : List (Bytes × Bytes)) (path : Bytes) (before : List Bytes) (t : Trace)
      → open_cgroups t ≡ path ∷ before
      → Created before (fill_cgroup os values path t)
  unfolding fill_cgroup
  fill_cgroup-Created values path before t held =
      bind_after (Held path before) (Created before) _ _ t
        (on_error-Held _ path before t (write_values-Still path values) held)
        (λ _ u h.
          bind_after (Held path before) (Created before) _ _ u
            (on_error-Held (within_io "open workload cgroup" (number os (open_file path))) path
              before u (search makes_rules depth 8) h)
            (λ fd v k. pure_case (Created before) (path, fd) v k) (λ e v k. k))
        (λ e u h. h)

  made :
      (t : Trace) → Made (open_cgroups t) (text os (mkdir_temp cgroup_root (codes "workload-")) t)
  unfolding open_cgroups after_made after_call equal
  made t =
      text_cases os (mkdir_temp cgroup_root (codes "workload-")) t (Made (open_cgroups t))
        (λ path. refl) (λ e. refl)

  create_cgroup-Created :
      (values : List (Bytes × Bytes)) (t : Trace)
      → Created (open_cgroups t) (create_cgroup os values t)
  unfolding create_cgroup
  create_cgroup-Created values t =
      bind_after (Made (open_cgroups t)) (Created (open_cgroups t)) _ _ t
        (within_after (Made (open_cgroups t)) (Made (open_cgroups t)) "create workload cgroup" _ t
          (made t) (λ path u h. h) (λ e u h. h))
        (λ path u h. fill_cgroup-Created values path (open_cgroups t) u h) (λ e u h. h)

  run_in_cgroup_lem :
      (sequence : ℕ) (config : Config) (cgroup : Bytes × ℕ) (before : List Bytes) (t : Trace)
      → open_cgroups t ≡ cgroup.0 ∷ before
      → open_cgroups (run_in_cgroup os sequence config cgroup t).1 ≡ before
  unfolding run_in_cgroup
  run_in_cgroup_lem sequence config (path, fd) before t held =
      ap open_cgroups (
        with_cleanup_trace "clean up workload cgroup" (with_network os sequence config fd)
          (close_and_remove_cgroup os path fd) t)
      ∙ close_and_remove_lem path fd before _ (
          same_cgroups (with_network os sequence config fd) t
            (with_network-Still os sequence config fd)
          ∙ held)

  run_checked_lem :
      (order : List (Bytes × Bytes) → List (Bytes × Bytes)) (sequence : ℕ) (config : Config)
      (t : Trace)
      → open_cgroups (run_checked os order sequence config t).1 ≡ open_cgroups t
  unfolding run_checked
  run_checked_lem order sequence config t =
      bind_after (Created (open_cgroups t)) (λ r. open_cgroups r.1 ≡ open_cgroups t) _ _ t
        (create_cgroup-Created _ t)
        (λ cgroup u h. run_in_cgroup_lem sequence config cgroup (open_cgroups t) u h) (λ e u h. h)

-- Whatever the system answers, and whether Run succeeds or fails at any point, every cgroup directory
-- that it created has had its removal tried when it returns, so that the cgroups that are left are those
-- from before.
pub run-open_cgroups :
    (os : Os) (order : List (Bytes × Bytes) → List (Bytes × Bytes)) (sequence : ℕ) (config : Config)
    (t : Trace)
    → open_cgroups (run os order sequence config t).1 ≡ open_cgroups t
unfolding run
run-open_cgroups os order sequence config t =
    bind_after (λ r. open_cgroups r.1 ≡ open_cgroups t) (λ r. open_cgroups r.1 ≡ open_cgroups t) _ _
      t (same_cgroups (check_run os config) t (check_run-Still os config))
      (λ checked u h. run_checked_lem os order sequence checked u ∙ h) (λ e u h. h)
