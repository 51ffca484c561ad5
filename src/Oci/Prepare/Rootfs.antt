-- ===== src/Oci/Prepare/Rootfs.antt =====
-- What Prepare returns and calls, as far as the removal of the bundle and the agent's connections care.
use kernlet.Common.{Bytes, codes, ok, ◌≡◌}
use kernlet.Sys.{Call, Trace, Os, text, mkdir_temp, write_connection}
use kernlet.Sys.Returns.{
  Returns, Returns-pure, Returns-bind, Returns-then, Returns-within_io, Returns-text,
}
use kernlet.FilePath.Beneath.{IsBeneath}
use kernlet.Oci.Image.{Codecs, bundle_root}
use kernlet.Oci.Bundle.{bundle_parts}
use kernlet.Oci.Prepare.{Loaded, bundle_of, fill, install, prepare}
use kernlet.Oci.Prepare.Calls.{Preparing}

-- Calls that write to no connection.
abbrev pub Silent : Call → Type 0
Silent (write_connection fd text) = ⊥
Silent _ = Unit

pub Preparing-Silent : (c : Call) → Preparing c → Silent c
Preparing-Silent (write_connection fd text) h = absurd h
Preparing-Silent _ h = tt

-- os.MkdirTemp answers the path of a directory in the one that it is given.
abbrev pub MakesBeneath : Os → Type 0
MakesBeneath os =
    (t : Trace) (path : Bytes)
    → os.text_answer t (mkdir_temp bundle_root (codes "rootfs-")) ≡ ok path
    → IsBeneath bundle_parts path

module _ (os : Os) (codecs : Codecs) where
  fill-IsBeneath :
      (loaded : Loaded) (rootfs : Bytes)
      → IsBeneath bundle_parts rootfs
      → Returns (λ bundle. IsBeneath bundle_parts bundle.rootfs) (fill os codecs loaded rootfs)
  unfolding fill bundle_of
  fill-IsBeneath loaded rootfs h =
      Returns-then _ _ λ _. Returns-pure (bundle_of os codecs loaded rootfs) h

  pub prepare-IsBeneath :
      (layout_path : Bytes)
      → MakesBeneath os
      → Returns (λ bundle. IsBeneath bundle_parts bundle.rootfs) (prepare os codecs layout_path)
  unfolding prepare install
  prepare-IsBeneath layout_path made = Returns-then _ _ λ loaded. Returns-then _ _ λ _.
      Returns-bind _ _
        (Returns-within_io "create bundle rootfs" _
          (Returns-text os (mkdir_temp bundle_root (codes "rootfs-")) made))
        λ rootfs h. fill-IsBeneath loaded rootfs h
