-- ===== src/Runtime/Cgroup/Limited.antt =====
-- What createCgroup has done when it succeeds.
use mathlib.Core.Path.{subst}
use kernlet.Common.{
  ℕ, List, [], ◌∷◌, Bytes, codes, equal, equal→eq, ◌≡◌, refl, Bool-cases, inl, inr,
}
use kernlet.Text.Fields.{normalize}
use kernlet.FilePath.{join_path}
use kernlet.Sys.{
  done, gave, counted, Trace, Os, Io, act, number, within_io, on_error, ◌>>=◌, read_file,
  write_file, mkdir_temp, remove, open_file,
}
use kernlet.Sys.Cases.{within_after, number_cases, on_error_cases, pure_case}
use kernlet.Sys.Steps.{Succeeds, then_known, then_act, then_text, Succeeds-map}
use kernlet.Runtime.Cgroup.{
  cgroup_root, verify_value, write_cgroup_value, write_values, fill_cgroup, create_cgroup,
}

-- The file of the limit was written, and what was then read from it is the value, up to white space.
-- The first trace is the one before, the second the one after.
abbrev pub IsVerified : (path name value : Bytes) → Trace → Trace → Type 0
IsVerified path name value t u =
    (actual : Bytes) × (normalize actual ≡ normalize value)
    × (u
        ≡ gave (read_file (join_path (path ∷ name ∷ []))) actual
          ∷ done (write_file (join_path (path ∷ name ∷ [])) value 0o644)
          ∷ t)

-- One limit after the other.
abbrev pub Applied : Bytes → List (Bytes × Bytes) → Trace → Trace → Type 0
Applied path [] t u = u ≡ t
Applied path ((name, value) ∷ values) t u =
    (middle : Trace) × IsVerified path name value t middle × Applied path values middle u

-- A new directory was made, the limits were applied in it, and it was opened; nothing else was done.
pub record IsLimited (values : List (Bytes × Bytes)) (t : Trace) (cgroup : Bytes × ℕ) (u : Trace)
    : Type 0 where
  pub limited : Trace
  pub applied :
      Applied cgroup.0 values
        (gave (mkdir_temp cgroup_root (codes "workload-")) cgroup.0 ∷ t)
        limited
  pub opened : u ≡ counted (open_file cgroup.0) cgroup.1 ∷ limited

module _ {A B : Type 0} (Good : A → Trace → Type 0) where
  on_error-Succeeds :
      (m : Io A) (cleanup : Io B) (t : Trace)
      → Succeeds Good (m t)
      → Succeeds Good (on_error m cleanup t)
  on_error-Succeeds m cleanup t h =
      on_error_cases (Succeeds Good) m cleanup t (λ a u e. subst (Succeeds Good) e h) (λ e u _. tt)

module _ (os : Os) where
  verify_value-Succeeds :
      (value actual : Bytes) (t : Trace)
      → Succeeds
          (λ _ u. (normalize actual ≡ normalize value) × (u ≡ t))
          (verify_value os value actual t)
  unfolding verify_value ◌>>=◌
  verify_value-Succeeds value actual t =
      elim (Bool-cases (equal (normalize actual) (normalize value))) [
        | inl same ↦ rw same (equal→eq _ _ same, refl)
        | inr other ↦ rw other tt
      ]

  write_cgroup_value-Succeeds :
      (path name value : Bytes) (t : Trace)
      → Succeeds (λ _ u. IsVerified path name value t u) (write_cgroup_value os path name value t)
  unfolding write_cgroup_value
  write_cgroup_value-Succeeds path name value t =
      then_act os "write cgroup value" _ t (λ _ u. IsVerified path name value t u) _
        (then_text os "read cgroup value" _ _ (λ _ u. IsVerified path name value t u) _
          λ actual.
            Succeeds-map _ (λ _ u. IsVerified path name value t u) _
              (verify_value-Succeeds value actual _) λ a u h. (actual, h.0, h.1))

  write_values-Succeeds :
      (path : Bytes) (values : List (Bytes × Bytes)) (t : Trace)
      → Succeeds (λ _ u. Applied path values t u) (write_values os path values t)
  unfolding write_values
  write_values-Succeeds path [] t =
      pure_case (Succeeds λ (_ : Unit {0}) u. Applied path [] t u) tt t refl
  write_values-Succeeds path ((name, value) ∷ values) t =
      then_known (λ (_ : Unit {0}) u. Applied path ((name, value) ∷ values) t u)
        (λ (_ : Unit {0}) u. IsVerified path name value t u) (write_cgroup_value os path name value)
        (λ _. write_values os path values) t (write_cgroup_value-Succeeds path name value t)
        λ _ u h.
          Succeeds-map (λ (_ : Unit {0}) v. Applied path values u v) _
            (write_values os path values u) (write_values-Succeeds path values u) λ _ v k. (u, h, k)

  open-Succeeds :
      (path : Bytes) (t : Trace)
      → Succeeds
          (λ fd u. u ≡ counted (open_file path) fd ∷ t)
          (on_error
            (within_io "open workload cgroup" (number os (open_file path)))
            (act os (remove path))
            t)
  open-Succeeds path t =
      let Good : ℕ → Trace → Type 0 = λ fd u. u ≡ counted (open_file path) fd ∷ t in
      on_error-Succeeds Good _ _ t (
        within_after (Succeeds Good) (Succeeds Good) "open workload cgroup" _ t
          (number_cases os (open_file path) t (Succeeds Good) (λ fd. refl) λ e. tt) (λ fd u h. h)
          λ e u h. h)

  fill_cgroup-IsLimited :
      (values : List (Bytes × Bytes)) (path : Bytes) (t : Trace)
      → Succeeds
          (IsLimited values t)
          (fill_cgroup os values path (gave (mkdir_temp cgroup_root (codes "workload-")) path ∷ t))
  unfolding fill_cgroup
  fill_cgroup-IsLimited values path t =
      let start : Trace = gave (mkdir_temp cgroup_root (codes "workload-")) path ∷ t in
      then_known (IsLimited values t) (λ (_ : Unit {0}) u. Applied path values start u) _ _ start
        (on_error-Succeeds _ _ _ start (write_values-Succeeds path values start))
        λ _ u applied.
          then_known (IsLimited values t) (λ fd v. v ≡ counted (open_file path) fd ∷ u) _ _ u
            (open-Succeeds path u)
            λ fd v opened.
              pure_case (Succeeds (IsLimited values t)) (path, fd) v
                (record { limited = u; applied = applied; opened = opened })

  -- If createCgroup succeeds, whatever the limits and whatever the system answers, then it has made one
  -- new directory, and in it, limit after limit, it has written each value and has read back the same
  -- value up to white space, and last it has opened the directory; it has done nothing else.
  pub create_cgroup-IsLimited :
      (values : List (Bytes × Bytes)) (t : Trace)
      → Succeeds (IsLimited values t) (create_cgroup os values t)
  unfolding create_cgroup
  create_cgroup-IsLimited values t =
      then_text os "create workload cgroup" (mkdir_temp cgroup_root (codes "workload-")) t
        (IsLimited values t) (fill_cgroup os values) λ path. fill_cgroup-IsLimited values path t
