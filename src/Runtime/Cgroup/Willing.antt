-- ===== src/Runtime/Cgroup/Willing.antt =====
-- The cgroup of a run, on a system whose calls succeed.
use kernlet.Common.{ℕ, List, [], ◌∷◌, Bytes, codes, equal_self, ◌≡◌}
use kernlet.Text.Fields.{normalize}
use kernlet.FilePath.{join_path}
use kernlet.Sys.{done, Trace, Os, text, ◌>>=◌, write_file, read_file, open_file}
use kernlet.Sys.Works.{
  Total, Any, Works, IsWilling, HasFiles, Total-bind, Total-within, Total-act, Total-fresh,
  Total-read, Works-bind, Works-pure, Works-within_io, Works-on_error, Works-number,
}
use kernlet.Runtime.Cgroup.{
  cgroup_root, verify_value, write_cgroup_value, write_values, fill_cgroup, create_cgroup,
  join_both, close_and_remove_cgroup,
}

module _ (os : Os) (willing : IsWilling os) (files : HasFiles os) where
  verified :
      (value actual : Bytes) (t : Trace)
      → actual ≡ value
      → Total Any (verify_value os value actual t)
  unfolding verify_value ◌>>=◌
  verified value actual t e = rw (e, equal_self (normalize value)) tt

  write_cgroup_value-Works :
      (path name value : Bytes) → Works (write_cgroup_value os path name value)
  unfolding write_cgroup_value
  write_cgroup_value-Works path name value = record {
    at = λ t.
        let file = join_path (path ∷ name ∷ []) in
        Total-bind (λ _ u. u ≡ done (write_file file value 0o644) ∷ t) Any _ _ t
          (Total-within (λ _ u. u ≡ done (write_file file value 0o644) ∷ t) "write cgroup value" _ t
            (Total-act os willing (write_file file value 0o644) t))
          λ _ u e.
            Total-bind (λ actual v. actual ≡ value) Any _ _ u
              (Total-within (λ actual v. actual ≡ value) "read cgroup value"
                (text os (read_file file)) u (rw e (Total-read os files file value 0o644 t)))
              λ actual v same. verified value actual v same;
  }

  write_values-Works :
      (path : Bytes) (values : List (Bytes × Bytes)) → Works (write_values os path values)
  unfolding write_values
  write_values-Works path [] = Works-pure tt
  write_values-Works path ((name, value) ∷ values) =
      Works-bind _ _ (write_cgroup_value-Works path name value) λ _. write_values-Works path values

  fill_cgroup-Works :
      (values : List (Bytes × Bytes)) (path : Bytes) → Works (fill_cgroup os values path)
  unfolding fill_cgroup
  fill_cgroup-Works values path =
      Works-bind _ _ (Works-on_error _ _ (write_values-Works path values)) λ _.
        Works-bind _ _
          (Works-on_error _ _ (Works-within_io _ _ (Works-number os willing (open_file path))))
          λ fd. Works-pure (path, fd)

  pub create_cgroup-Works : (values : List (Bytes × Bytes)) → Works (create_cgroup os values)
  unfolding create_cgroup
  create_cgroup-Works values =
      Works-bind _ _
        (Works-within_io "create workload cgroup" _
          (record { at = Total-fresh os files cgroup_root (codes "workload-") }))
        (fill_cgroup-Works values)

module _ (os : Os) (willing : IsWilling os) where
  pub close_and_remove-Works : (path : Bytes) (fd : ℕ) → Works (close_and_remove_cgroup os path fd)
  unfolding close_and_remove_cgroup join_both ◌>>=◌
  close_and_remove-Works path fd = record { at = λ t. simp (willing.acts) tt }
