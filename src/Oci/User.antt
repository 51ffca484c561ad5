-- ===== src/Oci/User.antt =====
-- parseUser: the numeric identity of the image.
use kernlet.Common.{
  ℕ, ◌<◌, ◌≤◌, [], ◌∷◌, ◌++◌, Bytes, none, some, false, ◌||◌, Result, ok, err, fault, equal,
  if◌then◌else◌, ◌≡◌, ◌≢◌, refl, arith, Option-cases, inl, inr, within, fail_if, ◌>>=◌, ◌>>◌, ◌==◌,
  All,
}
use kernlet.Text.Split.{cut, cut_sound, cut-append}
use kernlet.Text.Decimal.{
  parse_uint, format_uint, parse_uint_sound, parse_uint-format_uint, IsDigit, value, max_u32,
  format_uint-IsDigit, Digits-Lacks, format_uint-ne-nil,
}

-- The part of parseUser behind the test on the two texts.
parse_ids : Bytes → Bytes → Result (ℕ × ℕ)
parse_ids uid_value gid_value = do
  uid ← within "parse image UID" (parse_uint uid_value)
  gid ← within "parse image GID" (parse_uint gid_value)
  fail_if (uid == 0 || gid == 0) "image UID and GID must be nonzero"
  ok (uid, gid)

unfoldable pub parse_user : Bytes → Result (ℕ × ℕ)
unfolding parse_ids
parse_user text = elim (cut b':' text) [
  | none ↦ err (fault "image user must use numeric UID:GID form")
  | some (uid_value, gid_value) ↦
      if equal uid_value [] || equal gid_value []
      then err (fault "image user must use numeric UID:GID form")
      else parse_ids uid_value gid_value
]

parse_ids_sound :
    (u g : Bytes) (uid gid : ℕ)
    → parse_ids u g ≡ ok (uid, gid)
    → (parse_uint u ≡ ok uid) × (parse_uint g ≡ ok gid) × (0 < uid) × (0 < gid)
unfolding parse_ids
parse_ids_sound u g uid gid h = ground arith

-- A text names the identity (uid, gid) when it is two runs of digits around a colon, with these
-- values.
pub record Names (text : Bytes) (uid gid : ℕ) : Type 0 where
  pub uid_digits : Bytes
  pub gid_digits : Bytes
  pub spelled : text ≡ uid_digits ++ b':' ∷ gid_digits
  pub digits : All IsDigit uid_digits × All IsDigit gid_digits
  pub values : (uid ≡ value 0 uid_digits) × (gid ≡ value 0 gid_digits)

-- An accepted user is two runs of digits around a colon, both values are as spelled, neither is
-- zero (no image runs as root or with the root group), and both fit into 32 bits.
pub parse_user_sound :
    (text : Bytes) (uid gid : ℕ)
    → parse_user text ≡ ok (uid, gid)
    → Names text uid gid × (0 < uid) × (0 < gid) × (uid ≤ max_u32) × (gid ≤ max_u32)
unfolding parse_user
parse_user_sound text uid gid h = elim (Option-cases (cut b':' text)) [
  | inl missing ↦ ground arith
  | inr ((u, g), found) ↦
      let ids : parse_ids u g ≡ ok (uid, gid) = ground arith in
      let (hu, hg, pu, pg) = parse_ids_sound u g uid gid ids in
      let (_, du, vu, fu) = parse_uint_sound u uid hu in
      let (_, dg, vg, fg) = parse_uint_sound g gid hg in
      (
        record {
          uid_digits = u;
          gid_digits = g;
          spelled = (cut_sound b':' text u g found).0;
          digits = (du, dg);
          values = (vu, vg);
        },
        pu,
        pg,
        fu,
        fg,
      )
]

ne-equal : (s : Bytes) → s ≢ [] → equal s [] ≡ false
unfolding equal
ne-equal [] h = absurd (h refl)
ne-equal (c ∷ s) h = refl

-- Every identity of two nonzero 32-bit numbers is read back from its decimal print.
pub parse_user_print :
    (uid gid : ℕ)
    → 0 < uid
    → 0 < gid
    → uid ≤ max_u32
    → gid ≤ max_u32
    → parse_user (format_uint uid ++ b':' ∷ format_uint gid) ≡ ok (uid, gid)
unfolding parse_user
parse_user_print uid gid pu pg fu fg = ground (
  arith,
  cut-append b':' (format_uint uid) (format_uint gid)
      (Digits-Lacks b':' (format_uint uid) refl (format_uint-IsDigit uid)),
  ne-equal (format_uint uid) (format_uint-ne-nil uid),
  ne-equal (format_uint gid) (format_uint-ne-nil gid),
  parse_uint-format_uint uid fu,
  parse_uint-format_uint gid fg,
)
