-- ===== src/Oci/Bundle.antt =====
-- Bundle.Close: the bundle's directory is removed, if it is one.
use kernlet.Common.{
  List, [], ◌∷◌, Bytes, codes, Option, none, some, true, false, ◌||◌, ok, err, fault, within,
  within-eq-ok, equal, All, if◌then◌else◌, ◌≡◌, refl, arith,
}
use kernlet.Text.Split.{split, join}
use kernlet.FilePath.{dot, clean, is_abs, render, rel, climbs_out, IsName}
use kernlet.FilePath.Rel.{refused, rel_absolute}
use kernlet.FilePath.Beneath.{IsBeneath, rel_sound, rel_complete}
use kernlet.Sys.{Call, Os, Trace, Io, act, lift, pure, ◌>>=◌, remove_all}
use kernlet.Sys.Only.{
  Only, Extends-Only, Makes, Makes-if, Makes-bind-lift, Makes-act, Makes-pure, Makes-lift,
}
use kernlet.Oci.Image.{Bundle, bundle_root}

module _ (os : Os) where
  remove_relative : Bytes → Bytes → Io (Unit {0})
  remove_relative rootfs relative =
      if equal relative dot || climbs_out relative
      then lift (err (fault "refusing to remove invalid bundle path"))
      else act os (remove_all rootfs)

  close_rootfs : Bytes → Io (Unit {0})
  close_rootfs rootfs = do
    relative ← lift (within "resolve bundle path" (rel bundle_root rootfs))
    remove_relative rootfs relative

  -- `none` is a nil bundle.
  pub close : Option Bundle → Io (Unit {0})
  close none = pure tt
  close (some bundle) = if equal bundle.rootfs [] then pure tt else close_rootfs bundle.rootfs

-- The elements of the bundle root.
abbrev pub bundle_parts : List Bytes
bundle_parts = codes "run" ∷ codes "kernlet" ∷ codes "bundles" ∷ []

bundle_parts-names : All IsName bundle_parts
unfolding equal
bundle_parts-names = ground arith

bundle_root-clean : clean bundle_root ≡ render true bundle_parts
unfolding clean render split join equal
bundle_root-clean = refl

-- Close removes nothing but a directory strictly below the bundle root.
abbrev pub RemovesBundle : Call → Type 0
RemovesBundle (remove_all path) = IsBeneath bundle_parts path
RemovesBundle _ = ⊥

beneath :
    (rootfs relative : Bytes)
    → rel bundle_root rootfs ≡ ok relative
    → refused relative ≡ false
    → IsBeneath bundle_parts rootfs
unfolding is_abs
beneath rootfs relative e n =
    rel_sound bundle_root bundle_parts bundle_root-clean bundle_parts-names rootfs relative
      (rel_absolute bundle_root rootfs relative refl e n) e n

module _ (os : Os) where
  remove_relative-RemovesBundle :
      (rootfs relative : Bytes)
      → rel bundle_root rootfs ≡ ok relative
      → Makes RemovesBundle (remove_relative os rootfs relative)
  unfolding remove_relative
  remove_relative-RemovesBundle rootfs relative e =
      Makes-if (refused relative) _ _ (λ _. Makes-lift _)
        λ n. Makes-act os (remove_all rootfs) (beneath rootfs relative e n)

  pub close-RemovesBundle : (bundle : Option Bundle) → Makes RemovesBundle (close os bundle)
  unfolding close close_rootfs
  close-RemovesBundle none = Makes-pure tt
  close-RemovesBundle (some bundle) =
      Makes-if (equal bundle.rootfs []) _ _ (λ _. Makes-pure tt)
        λ _.
          Makes-bind-lift (within "resolve bundle path" (rel bundle_root bundle.rootfs)) _
            λ relative e.
              remove_relative-RemovesBundle bundle.rootfs relative (within-eq-ok _ _ relative e)

nonempty : (path : Bytes) → is_abs path ≡ true → equal path [] ≡ false
unfolding equal is_abs
nonempty [] a = cc
nonempty (c ∷ path) a = refl

-- Whatever path the bundle holds, Close removes nothing but a path that is absolute and, when it is
-- cleaned, lies strictly below /run/kernlet/bundles.
pub close_removes_below :
    (os : Os) (bundle : Option Bundle) → Only RemovesBundle (close os bundle []).1
close_removes_below os bundle = Extends-Only ((close-RemovesBundle os bundle).at [])

-- The directory of a bundle that lies strictly below the bundle root is removed: Close makes the call,
-- and returns its error.
pub close-remove_all :
    (os : Os) (bundle : Bundle) (t : Trace)
    → IsBeneath bundle_parts bundle.rootfs
    → close os (some bundle) t ≡ act os (remove_all bundle.rootfs) t
unfolding close close_rootfs remove_relative ◌>>=◌
close-remove_all os bundle t h =
    let (relative, e, n) =
      rel_complete bundle_root bundle_parts bundle_root-clean bundle_parts-names bundle.rootfs h in
    rw (nonempty bundle.rootfs h.absolute, e, n)
