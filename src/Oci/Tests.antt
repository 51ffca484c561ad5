-- ===== src/Oci/Tests.antt =====
-- The theorems on internal/oci/image.go at concrete inputs.
use kernlet.Common.{
  ◌<◌, ◌≤◌, ◌%◌, ◌++◌, List, [], ◌∷◌, Bytes, codes, some, false, ok, All, equal, ◌≡◌, ◌↔◌, refl,
  arith,
}
use kernlet.Text.Split.{has_prefix, contains, cut, split, join}
use kernlet.Text.Decimal.{parse_uint, format_uint, max_u32}
use kernlet.FilePath.{is_abs, render, clean, climbs_out, IsName}
use kernlet.FilePath.Beneath.{IsBeneath}
use kernlet.Sys.{gave, read_file}
use kernlet.Sys.Only.{Only}
use kernlet.Sys.Returns.{Returns}
use kernlet.Oci.Image.{manifest_media_type, layer_media_type}
use kernlet.Oci.Select.{select_manifest, only_one, fitting, select_manifest-fitting}
use kernlet.Oci.User.{parse_user, Names, parse_user_sound, parse_user_print}
use kernlet.Oci.Environment.{validate_environment, IsEntry, validate_environment_iff}
use kernlet.Oci.ArchivePath.{
  clean_archive_path, validate_symlink, IsAccepted, IsContained, clean_archive_path_iff,
  validate_symlink_iff,
}
use kernlet.Oci.Mode.{file_mode, syscall_mode, syscall_mode-file_mode}
use kernlet.Oci.Extract.{extract_archive}
use kernlet.Oci.Extract.Confined.{Confined, extract_archive-Confined}
use kernlet.Text.Hex.{hex_encode, is_hex}
use kernlet.Oci.Blob.{read_blob, blob_path}
use kernlet.Oci.Blob.Integrity.{Describes, read_blob-Describes, read_blob_complete}
use kernlet.Oci.Configuration.{check_configuration, IsRunnable, check_configuration-IsRunnable}
use kernlet.Oci.Bundle.{bundle_parts, RemovesBundle, close, close_removes_below}
use kernlet.Oci.Sample.{
  sample_os, sample_codecs, sample_archive, sample_image, sample_bundle, foreign_manifest,
  descriptor_of, zero_digest,
}

extract_archive-Confined_example : Only Confined (extract_archive sample_os sample_archive []).1
extract_archive-Confined_example = extract_archive-Confined sample_os sample_archive

clean_archive_path_iff_example :
    (clean_archive_path (codes "./a/../etc") ≡ ok (codes "etc"))
    ↔ (IsAccepted (codes "./a/../etc") × (codes "etc" ≡ clean (codes "./a/../etc")))
clean_archive_path_iff_example = clean_archive_path_iff (codes "./a/../etc") (codes "etc")

cleaned_path : clean_archive_path (codes "./a/../etc") ≡ ok (codes "etc")
unfolding clean_archive_path equal is_abs clean climbs_out split join render has_prefix
cleaned_path = refl

abbrev link_directory : List Bytes
link_directory = codes "usr" ∷ codes "lib" ∷ []

link_directory-names : All IsName link_directory
unfolding equal
link_directory-names = ground arith

link-IsName : IsName (codes "link")
unfolding equal
link-IsName = ground arith

validate_symlink_iff_example :
    (validate_symlink (render false (link_directory ++ codes "link" ∷ [])) (codes "../../etc")
      ≡ ok tt)
    ↔ IsContained 2 (codes "../../etc")
validate_symlink_iff_example =
    validate_symlink_iff link_directory (codes "link") (codes "../../etc") link_directory-names
      link-IsName

read_blob-Describes_example :
    Returns
      (Describes sample_codecs (descriptor_of layer_media_type))
      (read_blob sample_os sample_codecs (codes "/image") (descriptor_of layer_media_type))
read_blob-Describes_example =
    read_blob-Describes sample_os sample_codecs (codes "/image") (descriptor_of layer_media_type)

checked_image :
    check_configuration (codes "arm64") sample_image
    ≡ ok (record {
      diff_id = zero_digest;
      uid = 1000;
      gid = 100;
      command = codes "/bin/sh" ∷ codes "-c" ∷ [];
      working_dir = codes "/app";
    })
unfolding check_configuration equal cut parse_user parse_uint validate_environment is_abs clean
    split join render contains
checked_image = refl

check_configuration-IsRunnable_example : IsRunnable (codes "arm64") sample_image (record {
  diff_id = zero_digest;
  uid = 1000;
  gid = 100;
  command = codes "/bin/sh" ∷ codes "-c" ∷ [];
  working_dir = codes "/app";
})
check_configuration-IsRunnable_example =
    check_configuration-IsRunnable (codes "arm64") sample_image
      (record {
        diff_id = zero_digest;
        uid = 1000;
        gid = 100;
        command = codes "/bin/sh" ∷ codes "-c" ∷ [];
        working_dir = codes "/app";
      })
      checked_image

close_removes_below_example : Only RemovesBundle (close sample_os (some sample_bundle) []).1
close_removes_below_example = close_removes_below sample_os (some sample_bundle)

sample_bundle-IsBeneath : IsBeneath bundle_parts (codes "/run/kernlet/bundles/rootfs-7")
unfolding is_abs clean split join render equal
sample_bundle-IsBeneath = record {
  part = codes "rootfs-7";
  parts = [];
  absolute = refl;
  spelled = refl;
  named = ground arith;
}

select_manifest-fitting_example :
    select_manifest (codes "arm64") (foreign_manifest ∷ descriptor_of manifest_media_type ∷ [])
    ≡ only_one (fitting (codes "arm64") (foreign_manifest ∷ descriptor_of manifest_media_type ∷ []))
select_manifest-fitting_example =
    select_manifest-fitting (codes "arm64")
      (foreign_manifest ∷ descriptor_of manifest_media_type ∷ [])

parsed_user : parse_user (codes "1000:100") ≡ ok (1000, 100)
unfolding parse_user cut parse_uint equal
parsed_user = refl

parse_user_sound_example :
    Names (codes "1000:100") 1000 100 × (0 < 1000) × (0 < 100) × (1000 ≤ max_u32) × (100 ≤ max_u32)
parse_user_sound_example = parse_user_sound (codes "1000:100") 1000 100 parsed_user

parse_user_print_example : parse_user (format_uint 1000 ++ b':' ∷ format_uint 100) ≡ ok (1000, 100)
parse_user_print_example =
    parse_user_print 1000 100 (omega arith) (omega arith) (omega arith) (omega arith)

validate_environment_iff_example :
    (validate_environment (codes "A=b" ∷ codes "PATH=/bin" ∷ []) ≡ ok tt)
    ↔ All IsEntry (codes "A=b" ∷ codes "PATH=/bin" ∷ [])
validate_environment_iff_example = validate_environment_iff (codes "A=b" ∷ codes "PATH=/bin" ∷ [])

syscall_mode-file_mode_example : syscall_mode (file_mode 0o104755) ≡ 0o104755 % 4096
syscall_mode-file_mode_example = syscall_mode-file_mode 0o104755

zero_hash : Describes sample_codecs (descriptor_of layer_media_type) (codes "doc")
unfolding hex_encode is_hex
zero_hash = record {
  encoded = codes "0000000000000000000000000000000000000000000000000000000000000000";
  digest_form = record { spelled = refl; size = refl; hexadecimal = refl };
  hashed = refl;
  sized = refl;
}

read_blob_complete_example :
    read_blob sample_os sample_codecs (codes "/image") (descriptor_of layer_media_type) [] ≡ (
      ok (codes "doc"),
      gave (read_file (blob_path (codes "/image") zero_hash.encoded)) (codes "doc") ∷ [],
    )
read_blob_complete_example =
    read_blob_complete sample_os sample_codecs (codes "/image") (descriptor_of layer_media_type)
      (codes "doc") [] zero_hash refl
