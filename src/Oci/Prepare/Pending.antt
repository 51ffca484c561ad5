-- ===== src/Oci/Prepare/Pending.antt =====
-- Which bundle directories are left behind.
use mathlib.Core.Path.{subst}
use kernlet.Common.{
  List, [], ◌∷◌, ◌++◌, Bytes, codes, false, Result, ok, err, equal, equal_self, if◌then◌else◌, ◌≡◌,
  refl, sym, ap, ◌∙◌,
}
use kernlet.Sys.{
  Call, Event, done, failed, gave, counted, tested, Trace, Os, Io, act, text, within_io, on_error,
  ◌>>=◌, mkdir_all, mkdir_temp, remove_all,
}
use kernlet.Sys.Only.{call_of, Only, Extends, Makes, makes_rules, Makes-weaken}
use kernlet.Sys.Cases.{
  bind_cases, bind_after, within_after, pure_case, on_error_cases, act_cases, text_cases,
}
use kernlet.Oci.Image.{Bundle, Codecs, bundle_root}
use kernlet.Oci.Layer.{unpack_layer}
use kernlet.FilePath.{clean}
use kernlet.Oci.Prepare.Calls.{Reading, Unpacking, load-Reading, unpack_layer-Unpacking}
use kernlet.Oci.Prepare.{Loaded, bundle_of, load, fill, install, prepare}

-- The list without the first occurrence of the path.
pub without : Bytes → List Bytes → List Bytes
without path [] = []
without path (p ∷ paths) = if equal p path then paths else p ∷ without path paths

pub without_self : (path : Bytes) (paths : List Bytes) → without path (path ∷ paths) ≡ paths
unfolding without
without_self path paths = rw (equal_self path)

pub after_remove : Call → List Bytes → List Bytes
after_remove (remove_all path) paths = without path paths
after_remove _ paths = paths

pub after_gave : Call → Bytes → List Bytes → List Bytes
after_gave (mkdir_temp parent pattern) path paths =
    if equal parent bundle_root then path ∷ paths else paths
after_gave _ path paths = paths

abbrev pub after_event : Event → List Bytes → List Bytes
after_event (done c) paths = after_remove c paths
after_event (failed c) paths = after_remove c paths
after_event (gave c path) paths = after_gave c path paths
after_event (counted c n) paths = paths
after_event (tested c b) paths = paths

-- The bundle directories that were created and whose removal was not tried since.
pub pending : Trace → List Bytes
pending [] = []
pending (e ∷ t) = after_event e (pending t)

-- Calls that neither create a bundle directory nor remove a tree.
abbrev pub Quiet : Call → Type 0
Quiet (mkdir_temp parent pattern) = equal parent bundle_root ≡ false
Quiet (remove_all path) = ⊥
Quiet _ = Unit

Quiet-remove : (c : Call) (paths : List Bytes) → Quiet c → after_remove c paths ≡ paths
unfolding after_remove
Quiet-remove (remove_all path) paths h = absurd h
Quiet-remove _ paths h = refl

Quiet-gave :
    (c : Call) (path : Bytes) (paths : List Bytes) → Quiet c → after_gave c path paths ≡ paths
unfolding after_gave
Quiet-gave (mkdir_temp parent pattern) path paths h = rw h
Quiet-gave _ path paths h = refl

Quiet-event : (e : Event) (paths : List Bytes) → Quiet (call_of e) → after_event e paths ≡ paths
Quiet-event (done c) paths h = Quiet-remove c paths h
Quiet-event (failed c) paths h = Quiet-remove c paths h
Quiet-event (gave c path) paths h = Quiet-gave c path paths h
Quiet-event (counted c n) paths h = refl
Quiet-event (tested c b) paths h = refl

pending-Quiet : (new t : Trace) → Only Quiet new → pending (new ++ t) ≡ pending t
unfolding pending
pending-Quiet [] t h = refl
pending-Quiet (e ∷ new) t h = Quiet-event e (pending (new ++ t)) h.0 ∙ pending-Quiet new t h.1

pub pending-Extends : {t u : Trace} → Extends Quiet t u → pending u ≡ pending t
pending-Extends {t} h = ap pending h.whole ∙ pending-Quiet h.new t h.kind

-- A run that returns a bundle leaves its directory pending, and one that fails leaves nothing.
abbrev pub Balanced : List Bytes → Result Bundle × Trace → Type 0
Balanced before (ok bundle, t) = pending t ≡ bundle.rootfs ∷ before
Balanced before (err e, t) = pending t ≡ before

Reading-Quiet : (c : Call) → Reading c → Quiet c
Reading-Quiet (mkdir_temp parent pattern) h = absurd h
Reading-Quiet (remove_all path) h = absurd h
Reading-Quiet _ h = tt

Unpacking-Quiet : (c : Call) → Unpacking c → Quiet c
Unpacking-Quiet (mkdir_temp parent pattern) h = absurd h
Unpacking-Quiet (remove_all path) h = absurd h
Unpacking-Quiet _ h = tt

module _ (os : Os) (codecs : Codecs) where
  load-Quiet : (layout_path : Bytes) → Makes Quiet (load os codecs layout_path)
  load-Quiet layout_path = Makes-weaken Reading-Quiet _ (load-Reading os codecs layout_path)

  unpack_layer-Quiet :
      (rootfs blob media_type diff_id : Bytes)
      → Makes Quiet (unpack_layer os codecs rootfs blob media_type diff_id)
  unpack_layer-Quiet rootfs blob media_type diff_id =
      Makes-weaken Unpacking-Quiet _
        (unpack_layer-Unpacking os codecs rootfs blob media_type diff_id)

  -- A quiet part in front changes nothing.
  Quiet-first :
      {A : Type 0} (m : Io A) (f : A → Io Bundle) (t : Trace)
      → Makes Quiet m
      → ((a : A) (u : Trace) → Balanced (pending u) (f a u))
      → Balanced (pending t) ((m >>= f) t)
  Quiet-first m f t quiet rest =
      bind_cases (Balanced (pending t)) m f t
        (λ a u e.
          let same = pending-Extends (quiet.at t) in
          subst (λ b. Balanced b (f a u)) (ap (λ r. pending r.1) (sym e) ∙ same) (rest a u))
        (λ e u h. ap (λ r. pending r.1) (sym h) ∙ pending-Extends (quiet.at t))

  pub pending-remove_all :
      (path : Bytes) (t : Trace) → pending (act os (remove_all path) t).1 ≡ without path (pending t)
  unfolding pending after_remove
  pending-remove_all path t =
      act_cases os (remove_all path) t (λ r. pending r.1 ≡ without path (pending t)) refl
        (λ e. refl)

  -- What holds after the unpacking, whose failure removes the directory.
  abbrev Unpacked : Bytes → List Bytes → Result (Unit {0}) × Trace → Type 0
  Unpacked rootfs before (ok _, t) = pending t ≡ rootfs ∷ before
  Unpacked rootfs before (err e, t) = pending t ≡ before

  module _ (loaded : Loaded) (rootfs : Bytes) (before : List Bytes) (t : Trace)
      (held : pending t ≡ rootfs ∷ before) where
    unpacking : Io (Unit {0})
    unpacking =
        unpack_layer os codecs rootfs loaded.blob loaded.layer.media_type loaded.workload.diff_id

    unpacking_held : pending (unpacking t).1 ≡ rootfs ∷ before
    unfolding unpacking
    unpacking_held =
        pending-Extends (
          (unpack_layer-Quiet rootfs loaded.blob loaded.layer.media_type loaded.workload.diff_id).at
            t)
        ∙ held

    unpack_or_remove : Unpacked rootfs before (on_error unpacking (act os (remove_all rootfs)) t)
    unpack_or_remove =
        on_error_cases (Unpacked rootfs before) unpacking (act os (remove_all rootfs)) t
          (λ a u e. ap (λ r. pending r.1) (sym e) ∙ unpacking_held)
          (λ x u e.
            pending-remove_all rootfs u
            ∙ ap (λ r. without rootfs (pending r.1)) (sym e)
            ∙ ap (without rootfs) unpacking_held
            ∙ without_self rootfs before)

    rootfs_held :
        (u : Trace)
        → pending u ≡ rootfs ∷ before
        → pending u ≡ (bundle_of os codecs loaded rootfs).rootfs ∷ before
    unfolding bundle_of
    rootfs_held u h = h

    fill-Balanced : Balanced before (fill os codecs loaded rootfs t)
    unfolding fill unpacking
    fill-Balanced =
        bind_after (Unpacked rootfs before) (Balanced before) _ _ t unpack_or_remove
          (λ _ u h.
            pure_case (Balanced before) (bundle_of os codecs loaded rootfs) u (rootfs_held u h))
          (λ x u h. h)

  pending-mkdir_temp :
      (t : Trace) (rootfs : Bytes)
      → pending (gave (mkdir_temp bundle_root (codes "rootfs-")) rootfs ∷ t) ≡ rootfs ∷ pending t
  unfolding pending after_gave
  pending-mkdir_temp t rootfs = rw (equal_self bundle_root)

  create_failed :
      (t : Trace) → pending (failed (mkdir_temp bundle_root (codes "rootfs-")) ∷ t) ≡ pending t
  unfolding pending after_remove
  create_failed t = refl

  -- What holds after the creation of the directory.
  abbrev Created : List Bytes → Result Bytes × Trace → Type 0
  Created before (ok rootfs, t) = pending t ≡ rootfs ∷ before
  Created before (err e, t) = pending t ≡ before

  create_held :
      (t : Trace)
      → Created
          (pending t)
          (within_io "create bundle rootfs" (text os (mkdir_temp bundle_root (codes "rootfs-"))) t)
  create_held t =
      within_after (Created (pending t)) (Created (pending t)) "create bundle rootfs" _ t
        (text_cases os (mkdir_temp bundle_root (codes "rootfs-")) t (Created (pending t))
          (pending-mkdir_temp t) (λ e. create_failed t))
        (λ rootfs u h. h) (λ e u h. h)

  install-Balanced :
      (loaded : Loaded) (t : Trace) → Balanced (pending t) (install os codecs loaded t)
  unfolding install
  install-Balanced loaded t =
      Quiet-first (within_io "create bundle directory" (act os (mkdir_all bundle_root 0o700))) _ t
        (search makes_rules depth 8)
        λ _ u.
          bind_after (Created (pending u)) (Balanced (pending u)) _ _ u (create_held u)
            (λ rootfs v h. fill-Balanced loaded rootfs (pending u) v h) (λ x v h. h)

  -- Whatever the system answers: after a failure of Prepare every bundle directory that it created has
  -- had its removal tried, and after a success the only one left is the root filesystem of the bundle.
  pub prepare-Balanced :
      (layout_path : Bytes) (t : Trace) → Balanced (pending t) (prepare os codecs layout_path t)
  unfolding prepare
  prepare-Balanced layout_path t =
      Quiet-first (load os codecs (clean layout_path)) _ t (load-Quiet (clean layout_path))
        install-Balanced
