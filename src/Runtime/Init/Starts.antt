-- ===== src/Runtime/Init/Starts.antt =====
-- The child starts the program of the workload when the system lets it.
use mathlib.Core.Path.{subst}
use kernlet.Common.{
  ℕ, zero, suc, ◌+◌, List, [], ◌∷◌, Bytes, codes, true, false, Result, ok, err, equal, ◌≡◌, refl,
}
use kernlet.FilePath.{is_abs}
use kernlet.Sys.{
  Call, done, Trace, Os, act, text, within_io, ◌>>=◌, read_file, look_path, read_ready, parse_ipv4,
  exec, drop_capability, set_no_new_privs,
}
use kernlet.Sys.Works.{
  Total, Any, Works, IsWilling, Total-bind, Works-bind, Works-pure, Works-within_io, Works-act,
}
use kernlet.Runtime.Config.{validate_identity, validate_rootfs}
use kernlet.Runtime.Link.{wait_for_network, configure_workload_network}
use kernlet.Runtime.Arguments.{InitArguments, parse_arguments}
use kernlet.Runtime.Init.{
  cap_last_cap, capability_count, join_network, isolate, drop_from, drop_capability_bounding_set,
  drop_identity, enter_program, run_arguments, init_process,
}
use kernlet.Runtime.Init.Guarded.{Guarded, IsReady, Guarded-exec, init_process-Guarded}

-- The system of the child: the parent sends its signal, addresses are well formed, the kernel names its
-- last capability, and programs are found.
pub record IsWillingChild (os : Os) : Type 0 where
  pub willing : IsWilling os
  pub ready : (t : Trace) → os.number_answer t read_ready ≡ ok 1
  pub is_ipv4 : (t : Trace) (address : Bytes) → os.flag_answer t (parse_ipv4 address) ≡ ok true
  pub last : Bytes
  pub count : ℕ
  pub reads : (t : Trace) → os.text_answer t (read_file cap_last_cap) ≡ ok last
  pub counted : capability_count last ≡ ok count
  pub program : Bytes → Bytes
  pub finds : (t : Trace) (name : Bytes) → os.text_answer t (look_path name) ≡ ok (program name)

-- The last event is the start of the program, in a process that is ready.
pub record IsStarted (args : List Bytes) (path : Bytes) (command : List Bytes) (u : Trace)
    : Type 0 where
  pub before : Trace
  pub started : u ≡ done (exec path command) ∷ before
  pub is_ready : IsReady args path command before

module _ (os : Os) (child : IsWillingChild os) (config : InitArguments) where
  join_network-Works :
      validate_identity config.uid config.gid ≡ ok tt
      → is_abs config.rootfs ≡ true
      → equal config.rootfs (codes "/") ≡ false
      → Works (join_network os config)
  unfolding join_network validate_rootfs wait_for_network configure_workload_network ◌>>=◌
  join_network-Works identity absolute not_root = record {
    at = λ t.
        simp
          (
            identity, absolute, not_root, child.willing.directories, child.willing.acts,
            child.ready, child.willing.numbers, child.is_ipv4,
          )
          tt;
  }

  isolate-Works : Works (isolate os config)
  unfolding isolate ◌>>=◌
  isolate-Works = record { at = λ t. simp (child.willing.acts) tt }

  drop_identity-Works : Works (drop_identity os config)
  unfolding drop_identity ◌>>=◌
  drop_identity-Works = record { at = λ t. simp (child.willing.acts) tt }

  drop_from-Works : (n capability : ℕ) → Works (drop_from os n capability)
  unfolding drop_from
  drop_from-Works zero capability = Works-pure tt
  drop_from-Works (suc n) capability =
      Works-bind _ _ (Works-within_io _ _ (Works-act os child.willing (drop_capability capability)))
        λ _. drop_from-Works n (capability + 1)

  bounding_set-Works : Works (drop_capability_bounding_set os)
  unfolding drop_capability_bounding_set ◌>>=◌
  bounding_set-Works = record {
    at = λ t. rw (child.reads t, child.counted) ((drop_from-Works child.count 0).at _);
  }

  abbrev program_path : Bytes
  program_path = child.program config.executable

  abbrev program_call : Call
  program_call = exec program_path (config.executable ∷ config.arguments)

  -- The program is the last that was started.
  abbrev Execs : Unit {0} → Trace → Type 0
  Execs _ u = (before : Trace) × (u ≡ done program_call ∷ before)

  look_path-Total :
      (t : Trace)
      → Total
          (λ path u. path ≡ program_path)
          (within_io "find executable" (text os (look_path config.executable)) t)
  unfolding ◌>>=◌
  look_path-Total t = rw (child.finds t config.executable) refl

  exec-Total : (t : Trace) → Total Execs (within_io "exec" (act os program_call) t)
  unfolding ◌>>=◌
  exec-Total t = rw (child.willing.acts t program_call) (t, refl)

  enter_program-Execs : (t : Trace) → Total Execs (enter_program os config t)
  unfolding enter_program
  enter_program-Execs t =
      Total-bind (λ path u. path ≡ program_path) Execs _ _ t (look_path-Total t)
        λ path u known.
          Total-bind Any Execs _ _ u
            ((Works-within_io "set no new privileges" _
                (Works-act os child.willing set_no_new_privs)).at
              u)
            λ _ v _. Total-bind Any Execs _ _ v (bounding_set-Works.at v) λ _ w _.
              Total-bind Any Execs _ _ w (drop_identity-Works.at w) λ _ x _. rw known (exec-Total x)

  run_arguments-Execs :
      (t : Trace)
      → validate_identity config.uid config.gid ≡ ok tt
      → is_abs config.rootfs ≡ true
      → equal config.rootfs (codes "/") ≡ false
      → Total Execs (run_arguments os config t)
  unfolding run_arguments
  run_arguments-Execs t identity absolute not_root =
      Total-bind Any Execs _ _ t ((join_network-Works identity absolute not_root).at t)
        λ _ u _. Total-bind Any Execs _ _ u (isolate-Works.at u) λ _ v _. enter_program-Execs v

-- The program was started, by a process that was ready.
combine :
    (os : Os) (child : IsWillingChild os) (config : InitArguments) (args : List Bytes)
    (r : Result (Unit {0}) × Trace)
    → Total (Execs os child config) r
    → Guarded args r.1
    → Total
        (λ _ u.
          IsStarted args (child.program config.executable) (config.executable ∷ config.arguments) u)
        r
combine os child config args (ok a, u) (before, started) guarded = record {
  before = before;
  started = started;
  is_ready = Guarded-exec args _ _ before (subst (Guarded args) started guarded);
}
combine os child config args (err e, u) h guarded = h

-- For arguments that parse and pass the checks, on a system that lets the child go on, InitProcess
-- succeeds, and its last call is the start of the program, in a process that is ready for it.
pub init_process-IsStarted :
    (os : Os) (child : IsWillingChild os) (args : List Bytes) (config : InitArguments)
    → parse_arguments args ≡ ok config
    → validate_identity config.uid config.gid ≡ ok tt
    → is_abs config.rootfs ≡ true
    → equal config.rootfs (codes "/") ≡ false
    → Total
        (λ _ u.
          IsStarted args (child.program config.executable) (config.executable ∷ config.arguments) u)
        (init_process os args [])
unfolding init_process ◌>>=◌
init_process-IsStarted os child args config parsed identity absolute not_root =
    combine os child config args (init_process os args [])
      (rw parsed (run_arguments-Execs os child config [] identity absolute not_root))
      (init_process-Guarded os args)
