-- ===== src/Oci/Prepare/Checked.antt =====
-- What every bundle that Prepare returns is.
use kernlet.Common.{◌<◌, ◌≤◌, [], Bytes, true, ok, All, ◌≡◌, ◌≢◌}
use kernlet.Text.Decimal.{max_u32}
use kernlet.FilePath.{clean, is_abs}
use kernlet.Sys.{Trace, Os, lift}
use kernlet.Sys.Returns.{
  Returns, Returns-bind, Returns-bind-lift, Returns-then, Returns-pure, Returns-within_io,
}
use kernlet.Oci.Image.{Bundle, Descriptor, Codecs}
use kernlet.Oci.Environment.{IsEntry}
use kernlet.Oci.Configuration.{check_configuration, IsRunnable, check_configuration-IsRunnable}
use kernlet.Oci.Blob.Integrity.{Describes, read_blob-Describes}
use kernlet.Oci.Prepare.{
  Loaded, load_manifest, load_configuration, load_layer, load, bundle_of, fill, install, prepare,
}

-- The layer's bytes are those of its descriptor, and the configuration passed its checks.
pub record IsLoaded (codecs : Codecs) (loaded : Loaded) : Type 0 where
  pub runnable : IsRunnable codecs.goarch loaded.image loaded.workload
  pub described : Describes codecs loaded.layer loaded.blob

-- A bundle that may be run.
pub record IsBundle (bundle : Bundle) : Type 0 where
  pub uid : (0 < bundle.uid) × (bundle.uid ≤ max_u32)
  pub gid : (0 < bundle.gid) × (bundle.gid ≤ max_u32)
  pub command : bundle.command ≢ []
  pub environment : All IsEntry bundle.environment
  pub absolute : is_abs bundle.working_dir ≡ true
  pub clean_dir : clean bundle.working_dir ≡ bundle.working_dir

module _ (os : Os) (codecs : Codecs) where
  load_layer-Describes :
      (layout_path : Bytes) (layer : Descriptor)
      → Returns (Describes codecs layer) (load_layer os codecs layout_path layer)
  unfolding load_layer
  load_layer-Describes layout_path layer =
      Returns-then (lift _) _
        λ _. Returns-within_io "read OCI layer" _ (read_blob-Describes os codecs layout_path layer)

  load-IsLoaded : (layout_path : Bytes) → Returns (IsLoaded codecs) (load os codecs layout_path)
  unfolding load
  load-IsLoaded layout_path = Returns-then (lift _) _ λ _.
      Returns-then (load_manifest os codecs layout_path) _ λ manifest.
        Returns-then (lift _) _ λ layer.
          Returns-then (load_configuration os codecs layout_path manifest.config) _ λ image.
            Returns-bind-lift (check_configuration codecs.goarch image) _ λ workload e.
              Returns-bind (load_layer os codecs layout_path layer) _
                (load_layer-Describes layout_path layer)
                λ blob described. Returns-pure _ (record {
                  runnable = check_configuration-IsRunnable codecs.goarch image workload e;
                  described = described;
                })

  bundle_of-IsBundle :
      (loaded : Loaded) (rootfs : Bytes)
      → IsLoaded codecs loaded
      → IsBundle (bundle_of os codecs loaded rootfs)
  unfolding bundle_of
  bundle_of-IsBundle loaded rootfs h = record {
    uid = h.runnable.uid;
    gid = h.runnable.gid;
    command = h.runnable.command.1;
    environment = h.runnable.environment;
    absolute = h.runnable.absolute;
    clean_dir = h.runnable.clean_dir;
  }

  install-IsBundle :
      (loaded : Loaded) → IsLoaded codecs loaded → Returns IsBundle (install os codecs loaded)
  unfolding install fill
  install-IsBundle loaded h = Returns-then _ _ λ _.
      Returns-then _ _
        λ rootfs. Returns-then _ _ λ _. Returns-pure _ (bundle_of-IsBundle loaded rootfs h)

  prepare-Returns : (layout_path : Bytes) → Returns IsBundle (prepare os codecs layout_path)
  unfolding prepare
  prepare-Returns layout_path =
      Returns-bind (load os codecs (clean layout_path)) _ (load-IsLoaded (clean layout_path))
        install-IsBundle

-- Whatever the file system answers, a bundle that Prepare returns has a nonzero 32-bit UID and GID, a
-- command, only well-formed environment entries, and an absolute and clean working directory.
pub prepare-IsBundle :
    (os : Os) (codecs : Codecs) (layout_path : Bytes) (t : Trace) (bundle : Bundle)
    → (prepare os codecs layout_path t).0 ≡ ok bundle
    → IsBundle bundle
prepare-IsBundle os codecs layout_path t bundle h =
    (prepare-Returns os codecs layout_path).at t bundle h
