-- ===== src/Oci/Extract.antt =====
-- applyMetadata, createArchiveEntry and extractArchive: the entries of a layer become files below the
-- root directory of the bundle. The calls are those of an `os.Root`.
pub mod Confined
use kernlet.Common.{
  ℕ, ℤ, [], ◌∷◌, Bytes, codes, Bool, true, false, ◌||◌, not, ok, err, fault, wrap, within, equal,
  ◌==◌, ◌%◌, is_pos, if◌then◌else◌,
}
use kernlet.Text.Split.{has_prefix}
use kernlet.FilePath.{dot, dir, base}
use kernlet.Sys.{
  Os, Io, act, number, pure, lift, within_io, attempt, ◌>>=◌, ◌>>◌, close_file, root_mkdir_all,
  root_remove_all, root_create, copy_to_file, root_symlink, root_link, root_lchown, root_chmod,
}
use kernlet.Oci.Image.{Header, Archive, eof, broken, entry}
use kernlet.Oci.ArchivePath.{clean_archive_path, validate_symlink}
use kernlet.Oci.Mode.{file_mode}

-- tar.TypeReg, tar.TypeRegA, tar.TypeLink, tar.TypeSymlink, tar.TypeDir
abbrev pub type_reg : ℕ
type_reg = b'0'

abbrev pub type_reg_a : ℕ
type_reg_a = 0

abbrev pub type_link : ℕ
type_link = b'1'

abbrev pub type_symlink : ℕ
type_symlink = b'2'

abbrev pub type_dir : ℕ
type_dir = b'5'

module _ (os : Os) where
  unfoldable pub apply_metadata : Bytes → Header → Bool → Io (Unit {0})
  apply_metadata name header symbolic_link = do
    within_io "set ownership" (act os (root_lchown name header.uid header.gid))
    if symbolic_link
        then pure tt
        else within_io "set mode" (act os (root_chmod name (file_mode header.mode)))

  unfoldable pub make_parent : Bytes → Io (Unit {0})
  make_parent parent =
      if equal parent dot
      then pure tt
      else within_io "create parent directory" (act os (root_mkdir_all parent 0o755))

  unfoldable pub create_directory : Header → Bytes → Io (Unit {0})
  create_directory header name = do
    within_io "create directory" (act os (root_mkdir_all name 0o755))
    apply_metadata name header false

  -- The errors of the copy and of the close are looked at after both calls.
  unfoldable pub create_regular : Header → Bytes → Bytes → Io (Unit {0})
  create_regular header content name = do
    within_io "remove existing path" (act os (root_remove_all name))
    file ← within_io "create file" (number os (root_create name (header.mode % 512)))
    copied ← attempt (number os (copy_to_file file content))
    closed ← attempt (act os (close_file file))
    written ← within_io "write file" (lift copied)
    within_io "close file" (lift closed)
    if not (is_pos written header.size)
        then lift (err (fault "expected bytes, wrote"))
        else apply_metadata name header false

  unfoldable pub create_symlink : Header → Bytes → Io (Unit {0})
  create_symlink header name = do
    lift (validate_symlink name header.linkname)
    within_io "remove existing path" (act os (root_remove_all name))
    within_io "create symbolic link" (act os (root_symlink header.linkname name))
    apply_metadata name header true

  unfoldable pub make_link : Header → Bytes → Bytes → Io (Unit {0})
  make_link header target name =
      if equal target dot
      then lift (err (fault "hard-link target cannot be the root directory"))
      else (do
        within_io "remove existing path" (act os (root_remove_all name))
        within_io "create hard link" (act os (root_link target name))
        apply_metadata name header false)

  unfoldable pub create_hard_link : Header → Bytes → Io (Unit {0})
  create_hard_link header name = do
    target ← lift (within "invalid hard-link target" (clean_archive_path header.linkname))
    make_link header target name

  unfoldable pub create_by_type : Header → Bytes → Bytes → Io (Unit {0})
  create_by_type header content name =
      if header.typeflag == type_dir
      then create_directory header name
      else if header.typeflag == type_reg || header.typeflag == type_reg_a
      then create_regular header content name
      else if header.typeflag == type_symlink
      then create_symlink header name
      else if header.typeflag == type_link
      then create_hard_link header name
      else lift (err (fault "unsupported layer entry type"))

  unfoldable pub create_archive_entry : Header → Bytes → Bytes → Io (Unit {0})
  create_archive_entry header content name = do
    make_parent (dir name)
    create_by_type header content name

  -- The body of the loop, for a name that was accepted.
  unfoldable pub extract_entry : Header → Bytes → Bytes → Io (Unit {0})
  extract_entry header content name =
      if equal name dot
      then (if not (header.typeflag == type_dir)
          then lift (err (fault "root layer entry must be a directory"))
          else within_io "apply root directory metadata" (apply_metadata name header false))
      else if has_prefix (codes ".wh.") (base name)
      then lift (err (fault "whiteout requires multi-layer image support"))
      else within_io "extract" (create_archive_entry header content name)

  unfoldable pub extract_archive : Archive → Io (Unit {0})
  extract_archive eof = pure tt
  extract_archive (broken e) = lift (err (wrap "read layer entry" e))
  extract_archive (entry header content archive) = do
    name ← lift (clean_archive_path header.name)
    extract_entry header content name
    extract_archive archive
