-- ===== src/Oci/Prepare/Tests.antt =====
-- A run of Prepare from its first call on.
use kernlet.Common.{[], codes, ok, ◌≡◌, refl, equal}
use kernlet.Text.Split.{has_prefix, cut, contains, split, join}
use kernlet.Text.Decimal.{parse_uint}
use kernlet.Text.Hex.{hex_encode, is_hex}
use kernlet.FilePath.{is_abs, render, clean, join_path, climbs_out, dir, base}
use kernlet.Sys.{◌>>=◌}
use kernlet.Oci.Sample.{sample_os, sample_codecs, sample_bundle}
use kernlet.Oci.User.{parse_user}
use kernlet.Oci.Select.{select_manifest}
use kernlet.Oci.Environment.{validate_environment}
use kernlet.Oci.ArchivePath.{clean_archive_path, validate_symlink}
use kernlet.Oci.Extract.{
  apply_metadata, make_parent, create_directory, create_regular, create_symlink, make_link,
  create_hard_link, create_by_type, create_archive_entry, extract_entry, extract_archive,
}
use kernlet.Oci.Blob.{read_json, read_blob}
use kernlet.Oci.Layer.{unpack_layer}
use kernlet.Oci.Configuration.{check_configuration}
use kernlet.Oci.Prepare.{
  load_manifest, load_configuration, load_layer, load, bundle_of, fill, install, prepare,
}
use kernlet.Oci.Prepare.Checked.{IsBundle, prepare-IsBundle}
use kernlet.Oci.Prepare.Pending.{Balanced, pending, prepare-Balanced}

sample_run : (prepare sample_os sample_codecs (codes "/image") []).0 ≡ ok sample_bundle
unfolding prepare load load_manifest load_configuration load_layer install fill bundle_of
    unpack_layer check_configuration read_blob read_json select_manifest validate_environment
    parse_user cut contains parse_uint equal is_abs render clean join_path climbs_out dir base split
    join extract_archive extract_entry create_archive_entry create_by_type create_directory
    create_regular create_symlink create_hard_link make_link make_parent apply_metadata
    clean_archive_path validate_symlink has_prefix ◌>>=◌ hex_encode is_hex
sample_run = refl

prepare-IsBundle_example : IsBundle sample_bundle
prepare-IsBundle_example =
    prepare-IsBundle sample_os sample_codecs (codes "/image") [] sample_bundle sample_run

prepare-Balanced_example :
    Balanced (pending []) (prepare sample_os sample_codecs (codes "/image") [])
prepare-Balanced_example = prepare-Balanced sample_os sample_codecs (codes "/image") []
