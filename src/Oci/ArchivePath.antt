-- ===== src/Oci/ArchivePath.antt =====
-- cleanArchivePath and validateSymlink: which paths of a layer are accepted.
use kernlet.Common.{
  ℕ, List, [], ◌∷◌, ◌++◌, Bytes, true, false, not, Result, ok, err, fault, equal, All, length,
  arith, ◌≡◌, ◌↔◌, ◌∙◌, if◌then◌else◌,
}
use kernlet.Text.Split.{split}
use kernlet.FilePath.{
  slash, is_abs, clean, dir, join_path, climbs_out, render, IsName, stays_within,
}
use kernlet.FilePath.Within.{climbs_out-clean, clean-IsName}
use kernlet.FilePath.Dir.{dir-names, climbs_out-join_path}

unfoldable pub clean_archive_path : Bytes → Result Bytes
clean_archive_path name =
    if equal name []
    then err (fault "layer entry path is empty")
    else if is_abs name
    then err (fault "layer entry path is absolute")
    else if climbs_out (clean name)
    then err (fault "layer entry path escapes the rootfs")
    else ok (clean name)

unfoldable pub validate_symlink : Bytes → Bytes → Result (Unit {0})
validate_symlink name target =
    if equal target []
    then err (fault "symbolic-link target is empty")
    else if is_abs target
    then err (fault "absolute symbolic-link target is unsupported")
    else if climbs_out (clean (join_path (dir name ∷ target ∷ [])))
    then err (fault "symbolic-link target escapes the rootfs")
    else ok tt

-- A path that names the root directory, as `.`, or something below it: no empty element, no `.`, no
-- `..`, and no leading slash.
pub record IsInside (path : Bytes) : Type 0 where
  pub parts : List Bytes
  pub spelled : path ≡ render false parts
  pub named : All IsName parts

-- A nonempty relative path whose walk, element by element, never leaves the root.
abbrev pub IsAccepted : Bytes → Type 0
IsAccepted name =
    (equal name [] ≡ false) × (is_abs name ≡ false) × (stays_within 0 (split slash name) ≡ true)

clean_archive_path_sound :
    (name cleaned : Bytes)
    → clean_archive_path name ≡ ok cleaned
    → IsAccepted name × (cleaned ≡ clean name)
unfolding clean_archive_path
clean_archive_path_sound name cleaned h = ground (arith, climbs_out-clean name)

clean_archive_path_complete :
    (name cleaned : Bytes)
    → IsAccepted name × (cleaned ≡ clean name)
    → clean_archive_path name ≡ ok cleaned
unfolding clean_archive_path
clean_archive_path_complete name cleaned h = ground (arith, climbs_out-clean name)

-- A name of the layer is accepted exactly when it is not empty, not absolute, and its walk, element
-- by element from the root, never leaves the root; what is returned is then the cleaned name.
pub clean_archive_path_iff :
    (name cleaned : Bytes)
    → (clean_archive_path name ≡ ok cleaned) ↔ (IsAccepted name × (cleaned ≡ clean name))
clean_archive_path_iff name cleaned =
    (clean_archive_path_sound name cleaned, clean_archive_path_complete name cleaned)

-- Every name that is accepted is turned into a path of plain names below the root, with no `..` left.
pub clean_archive_path-IsInside :
    (name cleaned : Bytes) → clean_archive_path name ≡ ok cleaned → IsInside cleaned
clean_archive_path-IsInside name cleaned h =
    let ((_, relative, inside), e) = clean_archive_path_sound name cleaned h in
    let (parts, spelled, named) = clean-IsName name relative inside in
    record { parts = parts; spelled = e ∙ spelled; named = named }

-- A link target is nonempty, relative, and its walk from a directory of `depth` names below the root
-- never leaves the root.
abbrev pub IsContained : ℕ → Bytes → Type 0
IsContained depth target =
    (equal target [] ≡ false)
    × (is_abs target ≡ false)
    × (stays_within depth (split slash target) ≡ true)

module _ (parts : List Bytes) (last target : Bytes) (named : All IsName parts)
    (h : IsName last) where
  symlink_test :
      equal target [] ≡ false
      → climbs_out (clean (join_path (dir (render false (parts ++ last ∷ [])) ∷ target ∷ [])))
        ≡ not (stays_within (length parts) (split slash target))
  symlink_test n = rw (dir-names parts last named h) (climbs_out-join_path parts target named n)

  validate_symlink_sound :
      validate_symlink (render false (parts ++ last ∷ [])) target ≡ ok tt
      → IsContained (length parts) target
  unfolding validate_symlink
  validate_symlink_sound e = ground (arith, symlink_test)

  validate_symlink_complete :
      IsContained (length parts) target
      → validate_symlink (render false (parts ++ last ∷ [])) target ≡ ok tt
  unfolding validate_symlink
  validate_symlink_complete e = ground (arith, symlink_test)

  -- The target of a symbolic link, at a path of plain names, is accepted exactly when it is not empty,
  -- not absolute, and its walk from the directory of the link never leaves the root.
  pub validate_symlink_iff :
      (validate_symlink (render false (parts ++ last ∷ [])) target ≡ ok tt)
      ↔ IsContained (length parts) target
  validate_symlink_iff = (validate_symlink_sound, validate_symlink_complete)
