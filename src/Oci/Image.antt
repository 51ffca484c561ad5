-- ===== src/Oci/Image.antt =====
-- The documents of an image layout, and what the standard library's decoders make of bytes.
use kernlet.Common.{ℕ, ℤ, List, Bytes, codes, Option, Error, Result}

abbrev pub bundle_root : Bytes
bundle_root = codes "/run/kernlet/bundles"

abbrev pub manifest_media_type : Bytes
manifest_media_type = codes "application/vnd.oci.image.manifest.v1+json"

abbrev pub config_media_type : Bytes
config_media_type = codes "application/vnd.oci.image.config.v1+json"

abbrev pub layer_media_type : Bytes
layer_media_type = codes "application/vnd.oci.image.layer.v1.tar"

abbrev pub gzip_layer_media_type : Bytes
gzip_layer_media_type = codes "application/vnd.oci.image.layer.v1.tar+gzip"

pub record Bundle : Type 0 where
  pub rootfs : Bytes
  pub command : List Bytes
  pub environment : List Bytes
  pub working_dir : Bytes
  pub uid : ℕ
  pub gid : ℕ

pub record LayoutFile : Type 0 where
  pub image_layout_version : Bytes

pub record Platform : Type 0 where
  pub architecture : Bytes
  pub os : Bytes

-- `platform` is nil where the document has none.
pub record Descriptor : Type 0 where
  pub media_type : Bytes
  pub digest : Bytes
  pub size : ℤ
  pub platform : Option Platform

pub record Index : Type 0 where
  pub schema_version : ℤ
  pub manifests : List Descriptor

pub record Manifest : Type 0 where
  pub schema_version : ℤ
  pub media_type : Bytes
  pub config : Descriptor
  pub layers : List Descriptor

pub record Config : Type 0 where
  pub user : Bytes
  pub env : List Bytes
  pub entrypoint : List Bytes
  pub cmd : List Bytes
  pub working_dir : Bytes

pub record RootFs : Type 0 where
  pub type : Bytes
  pub diff_ids : List Bytes

pub record ImageConfiguration : Type 0 where
  pub architecture : Bytes
  pub os : Bytes
  pub config : Config
  pub root_fs : RootFs

-- tar.Header. `mode` is the 64-bit pattern of the header's int64.
pub record Header : Type 0 where
  pub name : Bytes
  pub typeflag : ℕ
  pub linkname : Bytes
  pub size : ℤ
  pub mode : ℕ
  pub uid : ℤ
  pub gid : ℤ

-- What the calls of tar.Reader.Next return, with the content of each entry.
pub data Archive : Type 0 where
  eof : Archive
  broken : Error → Archive
  entry : Header → Bytes → Archive → Archive

-- The bytes that a reader delivers, and the error that it ends with in place of io.EOF.
pub record Stream : Type 0 where
  pub content : Bytes
  pub broken : Option Error

-- gzip.NewReader, the decompressed stream, and gzip.Reader.Close.
pub record Gzip : Type 0 where
  pub opened : Result (Unit {0})
  pub stream : Stream
  pub closed : Result (Unit {0})

-- The decoders and the hash of the standard library, and the architecture of the guest. They are
-- parameters: json.Unmarshal for each type of document, sha256.Sum256, compress/gzip, archive/tar.
pub record Codecs : Type 0 where
  pub goarch : Bytes
  pub decode_layout : Bytes → Result LayoutFile
  pub decode_index : Bytes → Result Index
  pub decode_manifest : Bytes → Result Manifest
  pub decode_configuration : Bytes → Result ImageConfiguration
  pub sha256 : Bytes → Bytes
  pub gunzip : Bytes → Gzip
  pub untar : Stream → Archive
