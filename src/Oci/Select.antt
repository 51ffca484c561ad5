-- ===== src/Oci/Select.antt =====
-- selectManifest: the one manifest of the index for the guest's platform.
use kernlet.Common.{
  List, [], ◌∷◌, Bytes, codes, Option, none, some, Bool, true, false, ◌&&◌, ◌||◌, not, Result, ok,
  err, fault, equal, if◌then◌else◌, ◌≡◌, refl, arith,
}
use kernlet.Oci.Image.{Descriptor, Platform, manifest_media_type}

-- candidate.Platform != nil && (... || ...)
other_platform : Bytes → Option Platform → Bool
other_platform goarch none = false
other_platform goarch (some p) =
    not (equal p.os (codes "linux")) || not (equal p.architecture goarch)

-- The loop of selectManifest, with what is selected so far.
select_from : Bytes → List Descriptor → Option Descriptor → Result Descriptor
select_from goarch [] none = err (fault "OCI index does not contain a linux manifest")
select_from goarch [] (some selected) = ok selected
select_from goarch (candidate ∷ manifests) selected =
    let skipped = select_from goarch manifests selected in
    let taken = select_from goarch manifests (some candidate) in
    if not (equal candidate.media_type manifest_media_type)
    then skipped
    else if other_platform goarch candidate.platform
    then skipped
    else elim selected [
      | some _ ↦ err (fault "OCI index contains multiple linux manifests")
      | none ↦ taken
    ]

unfoldable pub select_manifest : Bytes → List Descriptor → Result Descriptor
unfolding select_from other_platform
select_manifest goarch manifests = select_from goarch manifests none

-- A descriptor of an image manifest for any platform, or for linux on this architecture.
abbrev pub fits_platform : Bytes → Option Platform → Bool
fits_platform goarch none = true
fits_platform goarch (some p) = equal p.os (codes "linux") && equal p.architecture goarch

abbrev pub fits : Bytes → Descriptor → Bool
fits goarch d = equal d.media_type manifest_media_type && fits_platform goarch d.platform

-- The descriptors of the index that fit, in order.
pub fitting : Bytes → List Descriptor → List Descriptor
fitting goarch [] = []
fitting goarch (d ∷ manifests) =
    let rest = fitting goarch manifests in if fits goarch d then d ∷ rest else rest

-- What the function promises of the descriptors that fit.
abbrev pub only_one : List Descriptor → Result Descriptor
only_one [] = err (fault "OCI index does not contain a linux manifest")
only_one (d ∷ []) = ok d
only_one (d ∷ e ∷ ds) = err (fault "OCI index contains multiple linux manifests")

fits_test :
    (goarch : Bytes) (d : Descriptor)
    → fits goarch d ≡ (
        if not (equal d.media_type manifest_media_type)
        then false
        else not (other_platform goarch d.platform))
unfolding other_platform
fits_test goarch d = ground arith

select_from-some :
    (goarch : Bytes) (manifests : List Descriptor) (d : Descriptor)
    → select_from goarch manifests (some d) ≡ only_one (d ∷ fitting goarch manifests)
unfolding select_from fitting
select_from-some goarch [] d = refl
select_from-some goarch (m ∷ manifests) d =
    ground (arith, select_from-some goarch manifests d, fits_test goarch m)

select_from-none :
    (goarch : Bytes) (manifests : List Descriptor)
    → select_from goarch manifests none ≡ only_one (fitting goarch manifests)
unfolding select_from fitting
select_from-none goarch [] = refl
select_from-none goarch (m ∷ manifests) = ground (
  arith,
  select_from-none goarch manifests,
  select_from-some goarch manifests m,
  fits_test goarch m,
)

-- For every index, selectManifest returns the one descriptor that is an image manifest and names no
-- platform or linux on the guest's architecture; with none, or with more than one, it is refused.
pub select_manifest-fitting :
    (goarch : Bytes) (manifests : List Descriptor)
    → select_manifest goarch manifests ≡ only_one (fitting goarch manifests)
unfolding select_manifest
select_manifest-fitting goarch manifests = select_from-none goarch manifests
