-- ===== src/Agent/Main/Readied.antt =====
-- What the agent has done before it takes connections, step by step.
use kernlet.Common.{List, [], ◌∷◌, Bytes, codes, ◌⊎◌, inl, inr}
use kernlet.FilePath.{join_path}
use kernlet.Sys.{
  Call, Event, done, failed, Trace, Io, ◌>>=◌, mount, write_file, vsock_socket, vsock_bind,
  vsock_listen, vsock_accept,
}
use kernlet.Sys.Only.{call_of, Makes}
use kernlet.Sys.Known.{HasOne, HasAll, HasAll-IsPast, and_known, nothing_known}
use kernlet.Sys.Has.{Each, Each-Extends, Each-bind, Extends-IsPast}
use kernlet.Sys.Steps.{Succeeds}
use kernlet.Runtime.Cgroup.{cgroup_root}

abbrev pub NoSocket : Call → Type 0
NoSocket vsock_socket = ⊥
NoSocket (vsock_bind socket port) = ⊥
NoSocket (vsock_listen socket backlog) = ⊥
NoSocket (vsock_accept socket) = ⊥
NoSocket _ = Unit

-- The mount was made, or was tried, when the mount point may be in use already.
abbrev pub mounted : Bytes → Bytes → Bytes → List Event
mounted source target kind =
    done (mount source target kind 0) ∷ failed (mount source target kind 0) ∷ []

abbrev pub control_file : Bytes
control_file = join_path (cgroup_root ∷ codes "cgroup.subtree_control" ∷ [])

abbrev pub controlled : List Event
controlled = done (write_file control_file (codes "+cpu +memory +pids") 0o644) ∷ []

abbrev pub proc_mounted : List Event
proc_mounted = mounted (codes "proc") (codes "/proc") (codes "proc")

abbrev pub sys_mounted : List Event
sys_mounted = mounted (codes "sysfs") (codes "/sys") (codes "sysfs")

abbrev pub cgroup_mounted : List Event
cgroup_mounted = mounted (codes "none") (codes "/sys/fs/cgroup") (codes "cgroup2")

abbrev pub mounts : List (List Event)
mounts = cgroup_mounted ∷ sys_mounted ∷ proc_mounted ∷ []

-- The file systems are mounted, and the controllers are on for the cgroups of workloads.
abbrev pub booted : List (List Event)
booted = controlled ∷ mounts

-- A call on the vsock socket comes after all of this.
abbrev pub IsReadied : Event → Trace → Type 0
IsReadied e t = NoSocket (call_of e) ⊎ HasAll booted t

module _ {A : Type 0} (m : Io A) (t : Trace) where
  prepare_on : Makes NoSocket m → Each IsReadied t → Each IsReadied (m t).1
  prepare_on h k = Each-Extends IsReadied NoSocket t (m t).1 (λ e u c _. inl c) (h.at t) k

  serve_on : Makes (λ _. Unit) m → HasAll booted t → Each IsReadied t → Each IsReadied (m t).1
  serve_on h all k =
      Each-Extends IsReadied (λ _. Unit) t (m t).1
        (λ e u _ past. inr (HasAll-IsPast booted t u past all)) (h.at t) k

  kept_after :
      (P : A → Trace → Type 0) (list : List (List Event))
      → Makes NoSocket m
      → Succeeds P (m t)
      → HasAll list t
      → Succeeds (λ a u. P a u × HasAll list u) (m t)
  kept_after P list h k all =
      and_known P (HasAll list) (m t) k
        (HasAll-IsPast list t (m t).1 (Extends-IsPast t _ (h.at t)) all)

module _ {A B : Type 0} (m : Io A) (f : A → Io B) (t : Trace) (list : List (List Event)) where
  -- A step of the preparation, which leaves one of the events.
  pub step :
      (events : List Event)
      → Makes NoSocket m
      → Succeeds (λ _ u. HasOne events u) (m t)
      → HasAll list t
      → Each IsReadied t
      → ((a : A) (u : Trace)
          → HasAll (events ∷ list) u
          → Each IsReadied u
          → Each IsReadied (f a u).1)
      → Each IsReadied ((m >>= f) t).1
  step events h left all k rest =
      Each-bind IsReadied (λ _ u. HasOne events u × HasAll list u) m f t (prepare_on m t h k)
        (kept_after m t (λ _ u. HasOne events u) list h left all) λ a u ku known. rest a u known ku

  -- A step of which nothing is needed later.
  pub pass :
      Makes NoSocket m
      → HasAll list t
      → Each IsReadied t
      → ((a : A) (u : Trace) → HasAll list u → Each IsReadied u → Each IsReadied (f a u).1)
      → Each IsReadied ((m >>= f) t).1
  pass h all k rest =
      Each-bind IsReadied (λ _ u. Unit × HasAll list u) m f t (prepare_on m t h k)
        (kept_after m t (λ _ _. Unit) list h (nothing_known (m t)) all)
        λ a u ku known. rest a u known.1 ku

-- The last step of the preparation, and what the agent does from then on.
pub last_step :
    {A B : Type 0} (m : Io A) (f : A → Io B) (t : Trace)
    → Makes NoSocket m
    → Succeeds (λ _ u. HasOne controlled u) (m t)
    → HasAll mounts t
    → Each IsReadied t
    → ((a : A) → Makes (λ _. Unit) (f a))
    → Each IsReadied ((m >>= f) t).1
last_step m f t h left all k rest =
    step m f t mounts controlled h left all k λ a u known ku. serve_on (f a) u (rest a) known ku
