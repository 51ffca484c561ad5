-- ===== src/Text/Hex.antt =====
-- encoding/hex: EncodeToString, and whether DecodeString succeeds.
use kernlet.Common.{
  ℕ, ◌+◌, ◌-◌, ◌*◌, ◌/◌, ◌%◌, ◌<◌, [], ◌∷◌, Bytes, Bool, true, false, ◌&&◌, ◌||◌, leb, ltb,
  if◌then◌else◌, length, All, Lacks, ◌≡◌, refl, arith,
}

pub hex_digit : ℕ → ℕ
hex_digit n = if ltb n 10 then b'0' + n else b'a' + (n - 10)

-- hex.EncodeToString: two digits, in lower case, for each byte.
unfoldable pub hex_encode : Bytes → Bytes
unfolding hex_digit
hex_encode [] = []
hex_encode (b ∷ s) = hex_digit (b / 16) ∷ hex_digit (b % 16) ∷ hex_encode s

pub is_hex_digit : ℕ → Bool
is_hex_digit c =
    (leb b'0' c && leb c b'9') || (leb b'a' c && leb c b'f') || (leb b'A' c && leb c b'F')

-- hex.DecodeString returns no error: an even number of digits, in either case.
unfoldable pub is_hex : Bytes → Bool
unfolding is_hex_digit
is_hex [] = true
is_hex (c ∷ []) = false
is_hex (c ∷ d ∷ s) = is_hex_digit c && is_hex_digit d && is_hex s

pub length-hex_encode : (s : Bytes) → length (hex_encode s) ≡ 2 * length s
unfolding hex_encode
length-hex_encode [] = omega arith
length-hex_encode (b ∷ s) = omega (arith, length-hex_encode s)

pub is_hex_digit_low : (n : ℕ) → n < 16 → is_hex_digit (hex_digit n) ≡ true
unfolding is_hex_digit hex_digit
is_hex_digit_low n h = ground arith

-- What is encoded can be decoded.
pub is_hex-hex_encode : (s : Bytes) → All (λ b. b < 256) s → is_hex (hex_encode s) ≡ true
unfolding is_hex hex_encode
is_hex-hex_encode [] h = refl
is_hex-hex_encode (b ∷ s) h =
    ground (arith, is_hex_digit_low (b / 16), is_hex_digit_low (b % 16), is_hex-hex_encode s h.1)

-- A hexadecimal text holds no byte below the digits, such as a dot or a slash.
pub is_hex-Lacks : (b : ℕ) (s : Bytes) → b < b'0' → is_hex s ≡ true → Lacks b s
unfolding is_hex is_hex_digit
is_hex-Lacks b [] l h = tt
is_hex-Lacks b (c ∷ []) l h = ground arith
is_hex-Lacks b (c ∷ d ∷ s) l h = ground (arith, is_hex-Lacks b s l)

pub hex_digit-injective : (m n : ℕ) → m < 16 → n < 16 → hex_digit m ≡ hex_digit n → m ≡ n
unfolding hex_digit
hex_digit-injective m n hm hn e = ground arith
