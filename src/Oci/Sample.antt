-- ===== src/Oci/Sample.antt =====
-- A system that answers every call, and an image layout for the tests: every document reads as `doc`,
-- and the
-- layer has a directory with a file, a symbolic link and a hard link.
use kernlet.Common.{ℕ, pos, [], ◌∷◌, Bytes, codes, none, some, true, ok}
use kernlet.Sys.{Call, Os, mkdir_temp}
use kernlet.Oci.Image.{
  Bundle, Descriptor, ImageConfiguration, Header, Archive, eof, entry, Codecs, manifest_media_type,
  config_media_type, layer_media_type,
}

abbrev pub sample_text : Call → Bytes
sample_text (mkdir_temp parent pattern) = codes "/run/kernlet/bundles/rootfs-7"
sample_text _ = codes "doc"

abbrev pub sample_os : Os
sample_os = record {
  act_answer = λ t c. ok tt;
  text_answer = λ t c. ok (sample_text c);
  number_answer = λ t c. ok 3;
  flag_answer = λ t c. ok true;
  captured = λ t. [];
}

abbrev zeros : Bytes
zeros = codes "0000000000000000000000000000000000000000000000000000000000000000"

abbrev pub zero_digest : Bytes
zero_digest = codes "sha256:0000000000000000000000000000000000000000000000000000000000000000"

abbrev hash_of_zeros : Bytes
hash_of_zeros =
    0 ∷ 0 ∷ 0 ∷ 0 ∷ 0 ∷ 0 ∷ 0 ∷ 0 ∷ 0 ∷ 0 ∷ 0 ∷ 0 ∷ 0 ∷ 0 ∷ 0 ∷ 0 ∷ 0 ∷ 0 ∷ 0 ∷ 0 ∷ 0 ∷ 0 ∷ 0 ∷ 0
    ∷ 0 ∷ 0 ∷ 0 ∷ 0 ∷ 0 ∷ 0 ∷ 0 ∷ 0 ∷ []

abbrev pub descriptor_of : Bytes → Descriptor
descriptor_of media_type = record {
  media_type = media_type;
  digest = zero_digest;
  size = pos 3;
  platform = none;
}

abbrev pub foreign_manifest : Descriptor
foreign_manifest = record {
  media_type = manifest_media_type;
  digest = zero_digest;
  size = pos 3;
  platform = some (record { architecture = codes "arm64"; os = codes "windows" });
}

abbrev pub sample_image : ImageConfiguration
sample_image = record {
  architecture = codes "arm64";
  os = codes "linux";
  config = record {
    user = codes "1000:100";
    env = codes "A=b" ∷ [];
    entrypoint = codes "/bin/sh" ∷ [];
    cmd = codes "-c" ∷ [];
    working_dir = codes "/srv/../app/";
  };
  root_fs = record { type = codes "layers"; diff_ids = zero_digest ∷ [] };
}

abbrev pub header_of : Bytes → ℕ → Bytes → Header
header_of name typeflag linkname = record {
  name = name;
  typeflag = typeflag;
  linkname = linkname;
  size = pos 3;
  mode = 0o4755;
  uid = pos 1000;
  gid = pos 100;
}

abbrev pub sample_archive : Archive
sample_archive = entry (header_of (codes "./etc/") b'5' []) [] (
    entry (header_of (codes "etc/motd") b'0' []) (codes "doc") (
      entry (header_of (codes "etc/link") b'2' (codes "motd")) []
        (entry (header_of (codes "etc/hard") b'1' (codes "etc/motd")) [] eof)))

abbrev pub sample_codecs : Codecs
sample_codecs = record {
  goarch = codes "arm64";
  decode_layout = λ b. ok (record { image_layout_version = codes "1.0.0" });
  decode_index = λ b. ok (record {
    schema_version = pos 2;
    manifests = foreign_manifest ∷ descriptor_of manifest_media_type ∷ [];
  });
  decode_manifest = λ b. ok (record {
    schema_version = pos 2;
    media_type = manifest_media_type;
    config = descriptor_of config_media_type;
    layers = descriptor_of layer_media_type ∷ [];
  });
  decode_configuration = λ b. ok sample_image;
  sha256 = λ b. hash_of_zeros;
  gunzip = λ b. record {
    opened = ok tt;
    stream = record { content = b; broken = none };
    closed = ok tt;
  };
  untar = λ s. sample_archive;
}

abbrev pub sample_bundle : Bundle
sample_bundle = record {
  rootfs = codes "/run/kernlet/bundles/rootfs-7";
  command = codes "/bin/sh" ∷ codes "-c" ∷ [];
  environment = codes "A=b" ∷ [];
  working_dir = codes "/app";
  uid = 1000;
  gid = 100;
}
