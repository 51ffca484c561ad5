-- ===== src/Oci/Blob.antt =====
-- readJSON and readBlob: documents and blobs from the layout's directory.
pub mod Integrity
use kernlet.Common.{
  ℕ, ◌*◌, [], ◌∷◌, Bytes, codes, none, some, not, Result, ok, err, fault, equal, ◌==◌, is_pos,
  length, if◌then◌else◌,
}
use kernlet.Text.Split.{cut}
use kernlet.Text.Hex.{hex_encode, is_hex}
use kernlet.FilePath.{join_path}
use kernlet.Sys.{Os, Io, text, lift, pure, ◌>>=◌, read_file}
use kernlet.Oci.Image.{Descriptor, Codecs}

-- sha256.Size
abbrev pub sha256_size : ℕ
sha256_size = 32

-- The part of a digest behind `sha256:`.
pub parse_digest : Bytes → Result Bytes
parse_digest digest = elim (cut b':' digest) [
  | none ↦ err (fault "unsupported digest")
  | some (algorithm, encoded) ↦
      if not (equal algorithm (codes "sha256"))
      then err (fault "unsupported digest")
      else if not (length encoded == sha256_size * 2)
      then err (fault "invalid SHA-256 digest")
      else if not (is_hex encoded)
      then err (fault "decode digest")
      else ok encoded
]

module _ (codecs : Codecs) where
  -- The size and the hash of the data against those of the descriptor.
  verify_blob : Descriptor → Bytes → Bytes → Result Bytes
  verify_blob value encoded data_read =
      if not (is_pos (length data_read) value.size)
      then err (fault "blob has another size than its descriptor requires")
      else if not (equal (hex_encode (codecs.sha256 data_read)) encoded)
      then err (fault "blob digest mismatch")
      else ok data_read

abbrev pub blob_path : Bytes → Bytes → Bytes
blob_path layout_path encoded =
    join_path (layout_path ∷ codes "blobs" ∷ codes "sha256" ∷ encoded ∷ [])

module _ (os : Os) where
  unfoldable pub read_json : {A : Type 0} → (Bytes → Result A) → Bytes → Io A
  read_json decode path = do content ← text os (read_file path); lift (decode content)

  unfoldable pub read_blob : Codecs → Bytes → Descriptor → Io Bytes
  unfolding parse_digest verify_blob
  read_blob codecs layout_path value = do
    encoded ← lift (parse_digest value.digest)
    content ← text os (read_file (blob_path layout_path encoded))
    lift (verify_blob codecs value encoded content)
