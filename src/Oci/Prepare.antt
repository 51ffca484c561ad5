-- ===== src/Oci/Prepare.antt =====
-- Prepare: from the path of an image layout to a bundle with its root filesystem unpacked.
pub mod Calls
pub mod Checked
pub mod Pending
pub mod Rootfs
mod Tests
use kernlet.Common.{
  ℕ, List, [], ◌∷◌, Bytes, codes, Bool, true, false, not, ◌&&◌, Result, ok, err, within, fail_if,
  equal, is_pos,
}
use kernlet.FilePath.{clean, is_abs, join_path}
use kernlet.Sys.{
  Os, Io, act, text, lift, pure, within_io, on_error, ◌>>=◌, ◌>>◌, mkdir_all, mkdir_temp,
  remove_all,
}
use kernlet.Oci.Image.{
  Bundle, Descriptor, Manifest, ImageConfiguration, Codecs, bundle_root, config_media_type,
  layer_media_type, gzip_layer_media_type,
}
use kernlet.Oci.Select.{select_manifest}
use kernlet.Oci.Configuration.{exactly_one, Workload, check_configuration}
use kernlet.Oci.Blob.{read_json, read_blob}
use kernlet.Oci.Layer.{unpack_layer}

-- What is known before anything is written: the image, and the layer with its bytes.
pub record Loaded : Type 0 where
  pub image : ImageConfiguration
  pub workload : Workload
  pub layer : Descriptor
  pub blob : Bytes

module _ (os : Os) (codecs : Codecs) where
  -- From the layout file to the manifest.
  load_manifest : Bytes → Io Manifest
  load_manifest layout_path = do
    layout ←
        within_io "read OCI layout"
          (read_json os codecs.decode_layout (join_path (layout_path ∷ codes "oci-layout" ∷ [])))
    lift (
        fail_if (not (equal layout.image_layout_version (codes "1.0.0")))
          "unsupported OCI image layout version")
    index ←
        within_io "read OCI index"
          (read_json os codecs.decode_index (join_path (layout_path ∷ codes "index.json" ∷ [])))
    lift (fail_if (not (is_pos 2 index.schema_version)) "unsupported OCI index schema version")
    descriptor ← lift (select_manifest codecs.goarch index.manifests)
    blob ← within_io "read OCI manifest" (read_blob os codecs layout_path descriptor)
    manifest ← lift (within "decode OCI manifest" (codecs.decode_manifest blob))
    lift (fail_if (not (is_pos 2 manifest.schema_version)) "unsupported manifest schema version")
    lift (
        fail_if (not (equal manifest.config.media_type config_media_type))
          "unsupported config media type")
    pure manifest

  load_configuration : Bytes → Descriptor → Io ImageConfiguration
  load_configuration layout_path descriptor = do
    blob ← within_io "read OCI configuration" (read_blob os codecs layout_path descriptor)
    lift (within "decode OCI configuration" (codecs.decode_configuration blob))

  load_layer : Bytes → Descriptor → Io Bytes
  load_layer layout_path layer = do
    lift (
        fail_if
          (not (equal layer.media_type layer_media_type)
            && not (equal layer.media_type gzip_layer_media_type))
          "unsupported layer media type")
    within_io "read OCI layer" (read_blob os codecs layout_path layer)

  -- The part of Prepare that only reads.
  pub load : Bytes → Io Loaded
  load layout_path = do
    lift (fail_if (not (is_abs layout_path)) "OCI layout path must be absolute")
    manifest ← load_manifest layout_path
    layer ← lift (exactly_one "OCI V1 requires exactly one layer" manifest.layers)
    image ← load_configuration layout_path manifest.config
    workload ← lift (check_configuration codecs.goarch image)
    blob ← load_layer layout_path layer
    pure (record { image = image; workload = workload; layer = layer; blob = blob })

  bundle_of : Loaded → Bytes → Bundle
  bundle_of loaded rootfs = record {
    rootfs = rootfs;
    command = loaded.workload.command;
    environment = loaded.image.config.env;
    working_dir = loaded.workload.working_dir;
    uid = loaded.workload.uid;
    gid = loaded.workload.gid;
  }

  -- The layer is unpacked into a new directory, which is removed if that fails.
  fill : Loaded → Bytes → Io Bundle
  fill loaded rootfs = do
    on_error
        (unpack_layer os codecs rootfs loaded.blob loaded.layer.media_type loaded.workload.diff_id)
        (act os (remove_all rootfs))
    pure (bundle_of loaded rootfs)

  -- The part of Prepare that writes.
  install : Loaded → Io Bundle
  install loaded = do
    within_io "create bundle directory" (act os (mkdir_all bundle_root 0o700))
    rootfs ← within_io "create bundle rootfs" (text os (mkdir_temp bundle_root (codes "rootfs-")))
    fill loaded rootfs

  pub prepare : Bytes → Io Bundle
  prepare layout_path = do loaded ← load (clean layout_path); install loaded
