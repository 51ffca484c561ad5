-- ===== src/Oci/Layer/Tests.antt =====
-- A layer that unpackLayer accepts.
use kernlet.Common.{[], codes, ok, ◌≡◌, refl, equal}
use kernlet.Text.Split.{has_prefix, contains, split, join}
use kernlet.Text.Hex.{hex_encode}
use kernlet.FilePath.{is_abs, render, clean, join_path, climbs_out, dir, base}
use kernlet.Sys.{◌>>=◌}
use kernlet.Oci.Image.{layer_media_type}
use kernlet.Oci.ArchivePath.{clean_archive_path, validate_symlink}
use kernlet.Oci.Extract.{
  apply_metadata, make_parent, create_directory, create_regular, create_symlink, make_link,
  create_hard_link, create_by_type, create_archive_entry, extract_entry, extract_archive,
}
use kernlet.Oci.Layer.{unpack_layer}
use kernlet.Oci.Layer.DiffId.{IsVerified, layer_stream, unpack_layer-IsVerified}
use kernlet.Common.{inl, inr}
use kernlet.Sys.{done, root_symlink}
use kernlet.Sys.Has.{Has}
use kernlet.Oci.Image.{Archive, entry, eof}
use kernlet.Oci.Sample.{header_of, sample_os, sample_codecs, zero_digest}

unpacked_layer :
    (unpack_layer sample_os sample_codecs
      (codes "/r")
      (codes "doc")
      layer_media_type
      zero_digest
      []).0
    ≡ ok tt
unfolding unpack_layer equal is_abs render clean join_path climbs_out dir base split join
    extract_archive extract_entry create_archive_entry create_by_type create_directory
    create_regular create_symlink create_hard_link make_link make_parent apply_metadata
    clean_archive_path validate_symlink has_prefix contains ◌>>=◌ hex_encode
unpacked_layer = refl

unpack_layer-IsVerified_example :
    IsVerified sample_codecs (layer_stream sample_codecs layer_media_type (codes "doc")) zero_digest
unpack_layer-IsVerified_example =
    unpack_layer-IsVerified sample_os sample_codecs (codes "/r") (codes "doc") layer_media_type
      zero_digest [] unpacked_layer

-- Two symbolic links: d/e leads to d itself, so that d/e/x is d/x.
abbrev linked_twice : Archive
linked_twice = entry (header_of (codes "d/") b'5' []) [] (
    entry (header_of (codes "d/e") b'2' (codes ".")) []
      (entry (header_of (codes "d/e/x") b'2' (codes "../..")) [] eof))

-- The second link is accepted, although its target leads from d out of the root.
second_link-Has :
    Has
      (done (root_symlink (codes "../..") (codes "d/e/x")))
      (extract_archive sample_os linked_twice []).1
unfolding Has equal is_abs render clean join_path climbs_out dir base split join extract_archive
    extract_entry create_archive_entry create_by_type create_directory create_regular create_symlink
    create_hard_link make_link make_parent apply_metadata clean_archive_path validate_symlink
    has_prefix contains ◌>>=◌
second_link-Has = inr (inl refl)
