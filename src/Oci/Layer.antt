-- ===== src/Oci/Layer.antt =====
-- unpackLayer: the layer is decompressed, unpacked, read to its end and checked against the diff ID.
pub mod DiffId
mod Tests
use kernlet.Common.{
  ℕ, [], ◌∷◌, ◌++◌, Bytes, codes, Option, none, some, Bool, true, false, not, Result, ok, err,
  fault, wrap, within, equal, if◌then◌else◌,
}
use kernlet.Text.Hex.{hex_encode}
use kernlet.Sys.{
  Os, Io, act, lift, pure, within_io, ignore, deferred, ◌>>=◌, ◌>>◌, open_root, close_root,
}
use kernlet.Oci.Image.{Stream, Gzip, Codecs, gzip_layer_media_type}
use kernlet.Oci.Extract.{extract_archive}

-- io.Copy(io.Discard, reader): the error of the stream, once it is read to its end.
drain : Stream → Result (Unit {0})
drain stream = elim stream.broken [ none ↦ ok tt | some e ↦ err e ]

-- "sha256:" + hex.EncodeToString(hasher.Sum(nil)), where the hasher has read the whole stream.
abbrev pub diff_id : Codecs → Bytes → Bytes
diff_id codecs content = codes "sha256:" ++ hex_encode (codecs.sha256 content)

module _ (os : Os) (codecs : Codecs) where
  -- What follows os.OpenRoot, for the stream of the layer and the result of closing its reader.
  unpack_opened : Stream → Result (Unit {0}) → Bytes → Io (Unit {0})
  unpack_opened stream closed expected_diff_id = do
    extract_archive os (codecs.untar stream)
    lift (within "finish reading layer" (drain stream))
    lift (within "close gzip layer" closed)
    if not (equal (diff_id codecs stream.content) expected_diff_id)
        then lift (err (fault "layer diff ID mismatch"))
        else pure tt

  unpack_stream : Bytes → Stream → Result (Unit {0}) → Bytes → Io (Unit {0})
  unpack_stream rootfs stream closed expected_diff_id = do
    within_io "open bundle root" (act os (open_root rootfs))
    deferred (unpack_opened stream closed expected_diff_id) (act os (close_root rootfs))

  unpack_gzip : Bytes → Gzip → Bytes → Io (Unit {0})
  unpack_gzip rootfs layer expected_diff_id = do
    lift (within "open gzip layer" layer.opened)
    unpack_stream rootfs layer.stream layer.closed expected_diff_id

  unfoldable pub unpack_layer : Bytes → Bytes → Bytes → Bytes → Io (Unit {0})
  unfolding unpack_gzip unpack_stream unpack_opened drain
  unpack_layer rootfs blob media_type expected_diff_id =
      if equal media_type gzip_layer_media_type
      then unpack_gzip rootfs (codecs.gunzip blob) expected_diff_id
      else unpack_stream rootfs (record { content = blob; broken = none }) (ok tt) expected_diff_id
