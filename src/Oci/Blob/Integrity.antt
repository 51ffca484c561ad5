-- ===== src/Oci/Blob/Integrity.antt =====
-- What a blob that was read is.
use kernlet.Common.{
  ℕ, is_pos, pos, [], ◌∷◌, ◌++◌, Bytes, codes, true, ok, equal, equal→eq, eq→equal, is_pos-eq,
  length, ◌≡◌, arith, Option-cases, inl, inr,
}
use kernlet.Text.Split.{cut, cut_sound, cut-append}
use kernlet.Text.Hex.{hex_encode, is_hex, is_hex-Lacks}
use kernlet.FilePath.{slash, IsName}
use kernlet.Sys.{Trace, gave, ◌>>=◌, Os, text, read_file}
use kernlet.Sys.Returns.{Returns, Returns-bind-lift, Returns-then, Returns-lift}
use kernlet.Oci.Image.{Descriptor, Codecs}
use kernlet.Oci.Blob.{parse_digest, verify_blob, read_blob, blob_path}

-- A digest in the one form that is accepted.
pub record IsSha256 (digest encoded : Bytes) : Type 0 where
  pub spelled : digest ≡ codes "sha256:" ++ encoded
  pub size : length encoded ≡ 64
  pub hexadecimal : is_hex encoded ≡ true

parse_digest_sound :
    (digest encoded : Bytes) → parse_digest digest ≡ ok encoded → IsSha256 digest encoded
unfolding parse_digest
parse_digest_sound digest encoded h = elim (Option-cases (cut b':' digest)) [
  | inl missing ↦ ground arith
  | inr ((algorithm, rest), found) ↦
      let (whole, _) = cut_sound b':' digest algorithm rest found in
      let tests : (equal algorithm (codes "sha256") ≡ true)
          × (rest ≡ encoded)
          × (length rest ≡ 64)
          × (is_hex rest ≡ true) =
        ground arith in
      record {
        spelled = cc (whole, equal→eq algorithm (codes "sha256") tests.0, tests.1);
        size = rw (← tests.1) (tests.2);
        hexadecimal = rw (← tests.1) (tests.3);
      }
]

-- The data that a descriptor stands for: it has the size and the SHA-256 hash that the descriptor gives.
pub record Describes (codecs : Codecs) (value : Descriptor) (content : Bytes) : Type 0 where
  pub encoded : Bytes
  pub digest_form : IsSha256 value.digest encoded
  pub hashed : hex_encode (codecs.sha256 content) ≡ encoded
  pub sized : value.size ≡ pos (length content)

verify_blob_sound :
    (codecs : Codecs) (value : Descriptor) (encoded content result : Bytes)
    → verify_blob codecs value encoded content ≡ ok result
    → (result ≡ content)
      × (hex_encode (codecs.sha256 result) ≡ encoded)
      × (value.size ≡ pos (length result))
unfolding verify_blob
verify_blob_sound codecs value encoded content result h = ground (
  arith,
  is_pos-eq (length content) value.size,
  equal→eq (hex_encode (codecs.sha256 content)) encoded,
)

-- Whatever the file system answers, a blob that readBlob returns has the size and the hash of its
-- descriptor, whose digest is `sha256:` and 64 hexadecimal digits.
pub read_blob-Describes :
    (os : Os) (codecs : Codecs) (layout_path : Bytes) (value : Descriptor)
    → Returns (Describes codecs value) (read_blob os codecs layout_path value)
unfolding read_blob
read_blob-Describes os codecs layout_path value =
    Returns-bind-lift (parse_digest value.digest) _ λ encoded e.
      Returns-then (text os (read_file (blob_path layout_path encoded))) _ λ content.
        Returns-lift (verify_blob codecs value encoded content) λ result v.
          let (_, hashed, sized) = verify_blob_sound codecs value encoded content result v in
          record {
            encoded = encoded;
            digest_form = parse_digest_sound value.digest encoded e;
            hashed = hashed;
            sized = sized;
          }

hex-IsName : (encoded : Bytes) → length encoded ≡ 64 → is_hex encoded ≡ true → IsName encoded
unfolding equal
hex-IsName [] n h = cc n
hex-IsName (c ∷ encoded) n h =
    ground (arith, is_hex-Lacks b'.' (c ∷ encoded), is_hex-Lacks slash (c ∷ encoded))

-- The digest of a descriptor cannot lead out of the directory of blobs: what is accepted is one
-- plain file name.
pub parse_digest-IsName :
    (digest encoded : Bytes) → parse_digest digest ≡ ok encoded → IsName encoded
parse_digest-IsName digest encoded h =
    let form = parse_digest_sound digest encoded h in hex-IsName encoded form.size form.hexadecimal

parse_digest_complete :
    (digest encoded : Bytes) → IsSha256 digest encoded → parse_digest digest ≡ ok encoded
unfolding parse_digest equal
parse_digest_complete digest encoded h =
    rw (h.spelled, parse_digest, cut-append b':' (codes "sha256") encoded (ground arith))
      (ground (arith, h.size, h.hexadecimal))

is_pos_self : (n : ℕ) → is_pos n (pos n) ≡ true
is_pos_self n = ground arith

verify_blob_complete :
    (codecs : Codecs) (value : Descriptor) (encoded content : Bytes)
    → hex_encode (codecs.sha256 content) ≡ encoded
    → value.size ≡ pos (length content)
    → verify_blob codecs value encoded content ≡ ok content
unfolding verify_blob
verify_blob_complete codecs value encoded content hashed sized = ground (
  arith,
  eq→equal (hex_encode (codecs.sha256 content)) encoded hashed,
  is_pos_self (length content),
)

-- A blob whose size and hash are those of the descriptor is returned, if the file system delivers it:
-- readBlob refuses no valid blob, and its one call is the reading of the blob's file.
pub read_blob_complete :
    (os : Os) (codecs : Codecs) (layout_path : Bytes) (value : Descriptor) (content : Bytes)
    (t : Trace)
    → (described : Describes codecs value content)
    → os.text_answer t (read_file (blob_path layout_path described.encoded)) ≡ ok content
    → read_blob os codecs layout_path value t
      ≡ (ok content, gave (read_file (blob_path layout_path described.encoded)) content ∷ t)
unfolding read_blob ◌>>=◌
read_blob_complete os codecs layout_path value content t described read = rw (
  parse_digest_complete value.digest described.encoded described.digest_form,
  read,
  verify_blob_complete codecs value described.encoded content described.hashed described.sized,
)
