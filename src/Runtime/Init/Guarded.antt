-- ===== src/Runtime/Init/Guarded.antt =====
-- The program of the workload starts only in a process that is ready for it.
use kernlet.Common.{
  ℕ, String, zero, suc, ◌+◌, ◌<◌, List, [], ◌∷◌, ◌++◌, Bytes, Result, ok, err, within, within-eq-ok,
  ◌≡◌, refl, sym, arith,
}
use kernlet.Sys.{
  Call, done, gave, Trace, Os, Io, act, lift, within_io, ◌>>=◌, look_path, set_no_new_privs, exec,
}
use kernlet.Sys.Only.{call_of, Only, Extends, Makes, Makes-bind, makes_rules}
use kernlet.Sys.Returns.{
  Returns, Returns-if, Returns-fail, Returns-bind, Returns-within_io, Returns-bind-lift,
}
use kernlet.FilePath.{is_abs}
use kernlet.Common.{equal, codes, true, false, not}
use kernlet.Sys.Cases.{bind_after, act_cases, within_after}
use kernlet.Sys.Steps.{Succeeds, Returns-Succeeds, last_act, last_text}
use kernlet.Runtime.Config.{validate_identity, validate_rootfs}
use kernlet.Runtime.Link.{wait_for_network, configure_workload_network}
use kernlet.Runtime.Arguments.{InitArguments, parse_arguments}
use kernlet.Runtime.Init.{
  join_network, isolate, drop_from, drop_capability_bounding_set, drop_identity, enter_program,
  run_arguments, init_process,
}
use kernlet.Runtime.Init.Ready.{
  isolated, stripped, IsDropped, isolate-isolated, drop_identity-stripped,
  drop_capability_bounding_set-IsDropped,
}

-- The state of the process when the program at `path` is started: the checks have passed, and the
-- latest events, with none between them, are the isolation, the lookup of the program, the bit against
-- new privileges, the bounding set, and the identity.
pub record IsReady (args : List Bytes) (path : Bytes) (command : List Bytes) (t : Trace)
    : Type 0 where
  pub config : InitArguments
  pub parsed : parse_arguments args ≡ ok config
  pub identity : (0 < config.uid) × (0 < config.gid)
  pub rootfs : (is_abs config.rootfs ≡ true) × (equal config.rootfs (codes "/") ≡ false)
  pub command_is : command ≡ config.executable ∷ config.arguments
  pub before : Trace
  pub dropped : Trace
  pub bounded :
      IsDropped
        (done set_no_new_privs ∷ gave (look_path config.executable) path ∷ isolated config before)
        dropped
  pub whole : t ≡ stripped config dropped

abbrev pub Guard : List Bytes → Call → Trace → Type 0
Guard args (exec path command) t = IsReady args path command t
Guard args _ t = Unit

-- Every attempt to start a program was made by a process that was ready.
pub Guarded : List Bytes → Trace → Type 0
Guarded args [] = Unit
Guarded args (e ∷ t) = Guard args (call_of e) t × Guarded args t

abbrev NotExec : Call → Type 0
NotExec (exec path command) = ⊥
NotExec _ = Unit

NotExec-Guard : (args : List Bytes) (c : Call) (t : Trace) → NotExec c → Guard args c t
NotExec-Guard args (exec path command) t h = absurd h
NotExec-Guard args _ t h = tt

pub Guarded-exec :
    (args : List Bytes) (path : Bytes) (command : List Bytes) (t : Trace)
    → Guarded args (done (exec path command) ∷ t)
    → IsReady args path command t
unfolding Guarded
Guarded-exec args path command t g = g.0

Guarded-append :
    (args : List Bytes) (new t : Trace)
    → Only NotExec new
    → Guarded args t
    → Guarded args (new ++ t)
unfolding Guarded
Guarded-append args [] t h g = g
Guarded-append args (e ∷ new) t h g =
    (NotExec-Guard args (call_of e) (new ++ t) h.0, Guarded-append args new t h.1 g)

module _ (args : List Bytes) where
  Guarded-Extends : {t u : Trace} → Extends NotExec t u → Guarded args t → Guarded args u
  Guarded-Extends {t} h g = rw h.whole (Guarded-append args h.new t h.kind g)

  -- What is kept through a block: the guard always, and `Good` after a success.
  abbrev Kept : {A : Type 0} → (A → Trace → Type 0) → Result A × Trace → Type 0
  Kept Good (ok a, u) = Guarded args u × Good a u
  Kept Good (err e, u) = Guarded args u

  module _ {A : Type 0} where
    Kept-pair :
        (Good : A → Trace → Type 0) (r : Result A × Trace)
        → Guarded args r.1
        → Succeeds Good r
        → Kept Good r
    Kept-pair Good (ok a, u) g h = (g, h)
    Kept-pair Good (err e, u) g h = g

    -- One part of the block, which starts no program, and the rest of it.
    and_then :
        {B : Type 0} (Good : A → Trace → Type 0) (m : Io A) (f : A → Io B) (t : Trace)
        → Guarded args t
        → Makes NotExec m
        → Succeeds Good (m t)
        → ((a : A) (u : Trace) → Guarded args u → Good a u → Guarded args (f a u).1)
        → Guarded args ((m >>= f) t).1
    and_then Good m f t g quiet h rest =
        bind_after (Kept Good) (λ r. Guarded args r.1) m f t
          (Kept-pair Good (m t) (Guarded-Extends (quiet.at t) g) h) (λ a u k. rest a u k.0 k.1)
          (λ e u k. k)

module _ (os : Os) where
  join_network-NotExec : (config : InitArguments) → Makes NotExec (join_network os config)
  unfolding join_network validate_rootfs wait_for_network configure_workload_network
  join_network-NotExec config = search makes_rules depth 40

  isolate-NotExec : (config : InitArguments) → Makes NotExec (isolate os config)
  unfolding isolate
  isolate-NotExec config = search makes_rules depth 30

  drop_from-NotExec : (n capability : ℕ) → Makes NotExec (drop_from os n capability)
  unfolding drop_from
  drop_from-NotExec zero capability = search makes_rules depth 20
  drop_from-NotExec (suc n) capability =
      Makes-bind _ _ (search makes_rules depth 8) λ _. drop_from-NotExec n (capability + 1)

  bounding_set-NotExec : Makes NotExec (drop_capability_bounding_set os)
  unfolding drop_capability_bounding_set
  bounding_set-NotExec = search (makes_rules, drop_from-NotExec) depth 20

  drop_identity-NotExec : (config : InitArguments) → Makes NotExec (drop_identity os config)
  unfolding drop_identity
  drop_identity-NotExec config = search makes_rules depth 20

  identity_sound : (uid gid : ℕ) → validate_identity uid gid ≡ ok tt → (0 < uid) × (0 < gid)
  unfolding validate_identity
  identity_sound uid gid h = ground arith

  validate_rootfs-Returns :
      (rootfs : Bytes)
      → Returns
          (λ _. (is_abs rootfs ≡ true) × (equal rootfs (codes "/") ≡ false))
          (validate_rootfs os rootfs)
  unfolding validate_rootfs
  validate_rootfs-Returns rootfs =
      Returns-if (not (is_abs rootfs)) _ _ (λ _. Returns-fail _)
        λ absolute.
          Returns-if (equal rootfs (codes "/")) _ _ (λ _. Returns-fail _)
            λ other. record { at = λ t a _. (ground (arith, absolute), other) }

  -- What the first part of InitProcess has checked.
  abbrev Checked : InitArguments → Type 0
  Checked config =
      ((0 < config.uid) × (0 < config.gid))
      × ((is_abs config.rootfs ≡ true) × (equal config.rootfs (codes "/") ≡ false))

  join_network-Returns :
      (config : InitArguments) → Returns (λ _. Checked config) (join_network os config)
  unfolding join_network
  join_network-Returns config =
      Returns-bind _ _
        (Returns-within_io "invalid rootfs" _ (validate_rootfs-Returns config.rootfs))
        λ _ rootfs.
          Returns-bind-lift (within "invalid identity" (validate_identity config.uid config.gid)) _
            λ _ e. record {
              at = λ t a _. (
                identity_sound config.uid config.gid
                    (within-eq-ok _ (validate_identity config.uid config.gid) tt e),
                rootfs,
              );
            }

  module _ (args : List Bytes) (config : InitArguments)
      (parsed : parse_arguments args ≡ ok config) where
    exec-Guarded :
        (context : String) (path : Bytes) (command : List Bytes) (t : Trace)
        → IsReady args path command t
        → Guarded args t
        → Guarded args (within_io context (act os (exec path command)) t).1
    unfolding Guarded
    exec-Guarded context path command t ready g =
        within_after (λ r. Guarded args r.1) (λ r. Guarded args r.1) context
          (act os (exec path command)) t
          (act_cases os (exec path command) t (λ r. Guarded args r.1) (ready, g) λ e. (ready, g))
          (λ a u h. h) (λ e u h. h)

    enter_program-Guarded :
        (before t : Trace)
        → Checked config
        → t ≡ isolated config before
        → Guarded args t
        → Guarded args (enter_program os config t).1
    unfolding enter_program
    enter_program-Guarded before t checked there g =
        and_then args (λ path u. u ≡ gave (look_path config.executable) path ∷ t) _ _ t g
          (search makes_rules depth 8) (last_text os _ _ t _ λ path. refl)
          λ path u gu eu.
            and_then args (λ _ v. v ≡ done set_no_new_privs ∷ u) _ _ u gu
              (search makes_rules depth 8) (last_act os _ _ u _ refl)
              λ _ v gv ev.
                and_then args (λ _ w. IsDropped v w) _ _ v gv (bounding_set-NotExec)
                  (drop_capability_bounding_set-IsDropped os v)
                  λ _ w gw dw.
                    and_then args (λ _ x. x ≡ stripped config w) _ _ w gw
                      (drop_identity-NotExec config) (drop_identity-stripped os config w)
                      λ _ x gx ex.
                        exec-Guarded _ path (config.executable ∷ config.arguments) x
                          (record {
                            config = config;
                            parsed = parsed;
                            identity = checked.0;
                            rootfs = checked.1;
                            command_is = refl;
                            before = before;
                            dropped = w;
                            bounded = rw (← there, ← eu, ← ev) dw;
                            whole = ex;
                          })
                          gx

    run_arguments-Guarded :
        (t : Trace) → Guarded args t → Guarded args (run_arguments os config t).1
    unfolding run_arguments
    run_arguments-Guarded t g =
        and_then args (λ _ u. Checked config) _ _ t g (join_network-NotExec config)
          (Returns-Succeeds _ _ t (join_network-Returns config))
          λ _ u gu checked.
            and_then args (λ _ v. v ≡ isolated config u) _ _ u gu (isolate-NotExec config)
              (isolate-isolated os config u)
              λ _ v gv there. enter_program-Guarded u v checked there gv

-- Whatever the system answers, InitProcess tries to start a program only in a process that is ready:
-- the arguments passed the checks, with a nonzero UID and GID and an absolute root directory that is
-- not the root of the guest; and in this order, each with success and with no call between them, it
-- set its hostname, moved to the new root, detached and removed the guest's root, mounted its own
-- /proc, entered the working directory, found the program, set no_new_privs, dropped every capability
-- that the kernel counts from the bounding set, cleared its groups, took the GID and then the UID, and
-- cleared its capability sets.
pub init_process-Guarded : (os : Os) (args : List Bytes) → Guarded args (init_process os args []).1
unfolding init_process Guarded
init_process-Guarded os args =
    bind_after (λ r. (r.1 ≡ []) × (r.0 ≡ parse_arguments args)) (λ r. Guarded args r.1)
      (lift (parse_arguments args)) (run_arguments os) [] (unfold ◌>>=◌ in (refl, refl))
      (λ config u h. run_arguments-Guarded os args config (sym h.1) u (rw h.0 tt))
      (λ e u h. rw h.0 tt)
