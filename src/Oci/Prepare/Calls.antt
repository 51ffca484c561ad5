-- ===== src/Oci/Prepare/Calls.antt =====
-- The calls that Prepare makes.
use kernlet.Common.{Bytes, codes, ◌≡◌, refl}
use kernlet.Sys.{
  Call, Os, text, within_io, read_file, mkdir_all, mkdir_temp, remove_all, open_root, close_root,
  root_mkdir_all, root_remove_all, root_create, copy_to_file, close_file, root_symlink, root_link,
  root_lchown, root_chmod,
}
use kernlet.Sys.Only.{Makes, Makes-within_io, Makes-text, makes_rules, Makes-weaken}
use kernlet.Oci.Image.{Descriptor, Codecs, Archive, bundle_root}
use kernlet.Oci.Blob.{read_json, read_blob}
use kernlet.Oci.Extract.{extract_archive}
use kernlet.Oci.Extract.Confined.{Confined, extract_archive-Makes}
use kernlet.Oci.Layer.{unpack_layer}
use kernlet.Oci.Prepare.{
  Loaded, load_manifest, load_configuration, load_layer, load, fill, install, prepare,
}

-- Nothing is changed.
abbrev pub Reading : Call → Type 0
Reading (read_file path) = Unit
Reading _ = ⊥

-- The layer is unpacked through a root.
abbrev pub Unpacking : Call → Type 0
Unpacking (open_root path) = Unit
Unpacking (close_root path) = Unit
Unpacking (root_mkdir_all path mode) = Unit
Unpacking (root_remove_all path) = Unit
Unpacking (root_create path mode) = Unit
Unpacking (root_symlink target name) = Unit
Unpacking (root_link target name) = Unit
Unpacking (root_lchown path uid gid) = Unit
Unpacking (root_chmod path mode) = Unit
Unpacking (copy_to_file file content) = Unit
Unpacking (close_file file) = Unit
Unpacking _ = ⊥

-- A new directory is made below the bundle root, and filled.
abbrev pub Preparing : Call → Type 0
Preparing (read_file path) = Unit
Preparing (mkdir_all path mode) = Unit
Preparing (mkdir_temp parent pattern) = parent ≡ bundle_root
Preparing (remove_all path) = Unit
Preparing c = Unpacking c

Confined-Unpacking : (c : Call) → Confined c → Unpacking c
Confined-Unpacking (root_mkdir_all path mode) h = tt
Confined-Unpacking (root_remove_all path) h = tt
Confined-Unpacking (root_create path mode) h = tt
Confined-Unpacking (root_symlink target name) h = tt
Confined-Unpacking (root_link target name) h = tt
Confined-Unpacking (root_lchown path uid gid) h = tt
Confined-Unpacking (root_chmod path mode) h = tt
Confined-Unpacking (copy_to_file file content) h = tt
Confined-Unpacking (close_file file) h = tt
Confined-Unpacking _ h = absurd h

Unpacking-Preparing : (c : Call) → Unpacking c → Preparing c
Unpacking-Preparing (read_file path) h = tt
Unpacking-Preparing (mkdir_all path mode) h = tt
Unpacking-Preparing (mkdir_temp parent pattern) h = absurd h
Unpacking-Preparing (remove_all path) h = tt
Unpacking-Preparing _ h = h

Reading-Preparing : (c : Call) → Reading c → Preparing c
Reading-Preparing (read_file path) h = tt
Reading-Preparing _ h = absurd h

module _ (os : Os) (codecs : Codecs) where
  read_blob-Reading :
      (layout_path : Bytes) (value : Descriptor)
      → Makes Reading (read_blob os codecs layout_path value)
  unfolding read_blob
  read_blob-Reading layout_path value = search makes_rules depth 8

  load_manifest-Reading :
      (layout_path : Bytes) → Makes Reading (load_manifest os codecs layout_path)
  unfolding load_manifest read_json
  load_manifest-Reading layout_path = search (makes_rules, read_blob-Reading) depth 20

  pub load-Reading : (layout_path : Bytes) → Makes Reading (load os codecs layout_path)
  unfolding load load_configuration load_layer
  load-Reading layout_path = search (makes_rules, read_blob-Reading, load_manifest-Reading) depth 20

  extract_archive-Unpacking : (archive : Archive) → Makes Unpacking (extract_archive os archive)
  extract_archive-Unpacking archive =
      Makes-weaken Confined-Unpacking _ (extract_archive-Makes os archive)

  pub unpack_layer-Unpacking :
      (rootfs blob media_type diff_id : Bytes)
      → Makes Unpacking (unpack_layer os codecs rootfs blob media_type diff_id)
  unfolding unpack_layer
  unpack_layer-Unpacking rootfs blob media_type diff_id =
      search (makes_rules, extract_archive-Unpacking) depth 20

  load-Preparing : (layout_path : Bytes) → Makes Preparing (load os codecs layout_path)
  load-Preparing layout_path = Makes-weaken Reading-Preparing _ (load-Reading layout_path)

  unpack_layer-Preparing :
      (rootfs blob media_type diff_id : Bytes)
      → Makes Preparing (unpack_layer os codecs rootfs blob media_type diff_id)
  unpack_layer-Preparing rootfs blob media_type diff_id =
      Makes-weaken Unpacking-Preparing _ (unpack_layer-Unpacking rootfs blob media_type diff_id)

  fill-Preparing :
      (loaded : Loaded) (rootfs : Bytes) → Makes Preparing (fill os codecs loaded rootfs)
  unfolding fill
  fill-Preparing loaded rootfs = search (makes_rules, unpack_layer-Preparing) depth 12

  new_rootfs-Preparing :
      Makes Preparing
        (within_io "create bundle rootfs" (text os (mkdir_temp bundle_root (codes "rootfs-"))))
  new_rootfs-Preparing =
      Makes-within_io "create bundle rootfs" _
        (Makes-text os (mkdir_temp bundle_root (codes "rootfs-")) refl)

  install-Preparing : (loaded : Loaded) → Makes Preparing (install os codecs loaded)
  unfolding install
  install-Preparing loaded = search (makes_rules, new_rootfs-Preparing, fill-Preparing) depth 12

  pub prepare-Preparing : (layout_path : Bytes) → Makes Preparing (prepare os codecs layout_path)
  unfolding prepare
  prepare-Preparing layout_path = search (makes_rules, install-Preparing, load-Preparing) depth 8
