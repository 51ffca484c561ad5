-- ===== src/Runtime/Run/Tracking.antt =====
-- The cgroup directories that a trace has created and not removed.
use kernlet.Common.{
  List, [], ◌∷◌, ◌++◌, Bytes, false, equal, equal_self, if◌then◌else◌, ◌≡◌, refl, ap, ◌∙◌,
}
use kernlet.Sys.{
  Call, Event, done, failed, gave, counted, tested, Trace, Io, mkdir_temp, remove, remove_all,
  write_connection,
}
use kernlet.Sys.Only.{call_of, Only, Makes, Makes-weaken}
use kernlet.Runtime.Cgroup.{cgroup_root}

-- The list without the first occurrence of the path.
pub remaining : Bytes → List Bytes → List Bytes
remaining path [] = []
remaining path (p ∷ paths) = if equal p path then paths else p ∷ remaining path paths

unfoldable pub after_call : Call → List Bytes → List Bytes
after_call (remove path) paths = remaining path paths
after_call _ paths = paths

unfoldable pub after_made : Call → Bytes → List Bytes → List Bytes
after_made (mkdir_temp parent pattern) path paths =
    if equal parent cgroup_root then path ∷ paths else paths
after_made _ path paths = paths

abbrev pub after : Event → List Bytes → List Bytes
after (done c) paths = after_call c paths
after (failed c) paths = after_call c paths
after (gave c path) paths = after_made c path paths
after (counted c n) paths = paths
after (tested c b) paths = paths

-- The directories that were created and whose removal was not tried since.
unfoldable pub open_cgroups : Trace → List Bytes
open_cgroups [] = []
open_cgroups (e ∷ t) = after e (open_cgroups t)

-- Calls that create no new directory, remove nothing and write to no connection.
abbrev pub Still : Call → Type 0
Still (mkdir_temp parent pattern) = ⊥
Still (remove path) = ⊥
Still (remove_all path) = ⊥
Still (write_connection fd text) = ⊥
Still _ = Unit

-- Calls that create no cgroup and remove none.
abbrev pub NoCgroup : Call → Type 0
NoCgroup (mkdir_temp parent pattern) = equal parent cgroup_root ≡ false
NoCgroup (remove path) = ⊥
NoCgroup _ = Unit

Still-NoCgroup : (c : Call) → Still c → NoCgroup c
Still-NoCgroup (mkdir_temp parent pattern) h = absurd h
Still-NoCgroup (remove path) h = absurd h
Still-NoCgroup _ h = tt

NoCgroup-call : (c : Call) (paths : List Bytes) → NoCgroup c → after_call c paths ≡ paths
unfolding after_call
NoCgroup-call (remove path) paths h = absurd h
NoCgroup-call _ paths h = refl

NoCgroup-made :
    (c : Call) (path : Bytes) (paths : List Bytes) → NoCgroup c → after_made c path paths ≡ paths
unfolding after_made
NoCgroup-made (mkdir_temp parent pattern) path paths h = rw h
NoCgroup-made _ path paths h = refl

NoCgroup-event : (e : Event) (paths : List Bytes) → NoCgroup (call_of e) → after e paths ≡ paths
NoCgroup-event (done c) paths h = NoCgroup-call c paths h
NoCgroup-event (failed c) paths h = NoCgroup-call c paths h
NoCgroup-event (gave c path) paths h = NoCgroup-made c path paths h
NoCgroup-event (counted c n) paths h = refl
NoCgroup-event (tested c b) paths h = refl

open_cgroups-NoCgroup :
    (new t : Trace) → Only NoCgroup new → open_cgroups (new ++ t) ≡ open_cgroups t
unfolding open_cgroups
open_cgroups-NoCgroup [] t h = refl
open_cgroups-NoCgroup (e ∷ new) t h =
    NoCgroup-event e (open_cgroups (new ++ t)) h.0 ∙ open_cgroups-NoCgroup new t h.1

module _ {A : Type 0} (m : Io A) (t : Trace) where
  pub other_cgroups : Makes NoCgroup m → open_cgroups (m t).1 ≡ open_cgroups t
  other_cgroups h = let e = h.at t in ap open_cgroups e.whole ∙ open_cgroups-NoCgroup e.new t e.kind

  pub same_cgroups : Makes Still m → open_cgroups (m t).1 ≡ open_cgroups t
  same_cgroups h = other_cgroups (Makes-weaken Still-NoCgroup m h)

pub remaining_self : (path : Bytes) (paths : List Bytes) → remaining path (path ∷ paths) ≡ paths
unfolding remaining
remaining_self path paths = rw (equal_self path)
