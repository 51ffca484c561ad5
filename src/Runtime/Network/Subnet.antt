-- ===== src/Runtime/Network/Subnet.antt =====
-- The networks of two slots share nothing.
use kernlet.Common.{
  ℕ, ◌+◌, ◌*◌, ◌/◌, ◌%◌, ◌^◌, ◌-◌, Option, ◌<◌, ◌≤◌, List, [], ◌∷◌, ◌++◌, Bytes, codes, none, some,
  Result, ok, err, fault, ltb, ◌==◌, false, All-append, length, All, Lacks, ◌>>=◌, ◌>>◌, fail_if,
  ◌≡◌, ◌≢◌, refl, ap, ◌∙◌, arith,
}
use kernlet.Text.Split.{cut, cut-append, split, split-append, split-Lacks_self}
use kernlet.Text.Decimal.{
  parse_uint, format_uint, format_uint-IsDigit, parse_uint-format_uint, IsDigit,
}
use kernlet.Text.Hex.{hex_digit, hex_digit-injective}
use kernlet.Runtime.Network.{hex4, dotted, network_of, max_workload_networks}

hex4-injective : (m n : ℕ) → m < 65536 → n < 65536 → hex4 m ≡ hex4 n → m ≡ n
unfolding hex4
hex4-injective m n hm hn e =
    let a : hex_digit (m / 4096 % 16) ≡ hex_digit (n / 4096 % 16) = cc e in
    let b : hex_digit (m / 256 % 16) ≡ hex_digit (n / 256 % 16) = cc e in
    let c : hex_digit (m / 16 % 16) ≡ hex_digit (n / 16 % 16) = cc e in
    let d : hex_digit (m % 16) ≡ hex_digit (n % 16) = cc e in
    let a' = hex_digit-injective (m / 4096 % 16) (n / 4096 % 16) (omega arith) (omega arith) a in
    let b' = hex_digit-injective (m / 256 % 16) (n / 256 % 16) (omega arith) (omega arith) b in
    let c' = hex_digit-injective (m / 16 % 16) (n / 16 % 16) (omega arith) (omega arith) c in
    let d' = hex_digit-injective (m % 16) (n % 16) (omega arith) (omega arith) d in omega arith

-- Digits are no dots and no slashes.
digits-Lacks : (b : ℕ) (s : Bytes) → b < b'0' → All IsDigit s → Lacks b s
digits-Lacks b [] l h = tt
digits-Lacks b (c ∷ s) l h = (ground arith, digits-Lacks b s l h.1)

-- The number of an IPv4 address in dotted notation: four decimal numbers of at most 255.
abbrev byte_of : Bytes → Result ℕ
byte_of text = do n ← parse_uint text; fail_if (ltb 255 n) "no octet"; ok n

quad_number : List Bytes → Result ℕ
quad_number (a ∷ b ∷ c ∷ d ∷ []) = do
  first ← byte_of a
  second ← byte_of b
  third ← byte_of c
  fourth ← byte_of d
  ok (((first * 256 + second) * 256 + third) * 256 + fourth)
quad_number _ = err (fault "no address")

pub address_number : Bytes → Result ℕ
unfolding quad_number
address_number text = quad_number (split b'.' text)

with_prefix : Option (Bytes × Bytes) → Result (ℕ × ℕ)
with_prefix none = err (fault "no prefix length")
with_prefix (some (address, prefix)) = do
  number ← address_number address
  bits ← parse_uint prefix
  fail_if (ltb 32 bits) "no prefix length"
  ok (number, bits)

-- An address, a slash, and the length of the prefix, which is at most 32.
pub prefixed_address : Bytes → Result (ℕ × ℕ)
prefixed_address text = with_prefix (cut b'/' text)

-- The block of addresses that share the prefix, by its number among the blocks of this size.
pub block_number : Bytes → Result ℕ
block_number text = do address ← prefixed_address text; ok (address.0 / 2 ^ (32 - address.1))

parse_ten : parse_uint (codes "10") ≡ ok 10
unfolding parse_uint
parse_ten = refl

parse_two_hundred : parse_uint (codes "200") ≡ ok 200
unfolding parse_uint
parse_two_hundred = refl

parse_thirty : parse_uint (codes "30") ≡ ok 30
unfolding parse_uint
parse_thirty = refl

module _ (third fourth : ℕ) where
  abbrev last_two : Bytes
  last_two = format_uint third ++ b'.' ∷ format_uint fourth

  clear : (b n : ℕ) → b < b'0' → Lacks b (format_uint n)
  clear b n l = digits-Lacks b (format_uint n) l (format_uint-IsDigit n)

  split-dotted :
      split b'.' (dotted third fourth)
      ≡ codes "10" ∷ codes "200" ∷ format_uint third ∷ format_uint fourth ∷ []
  unfolding dotted
  split-dotted = rw (
    split-append b'.' (codes "10") (codes "200" ++ b'.' ∷ last_two) (refl, (refl, tt)),
    split-append b'.' (codes "200") last_two (refl, (refl, (refl, tt))),
    split-append b'.' (format_uint third) (format_uint fourth) (clear b'.' third (omega arith)),
    split-Lacks_self b'.' (format_uint fourth) (clear b'.' fourth (omega arith)),
  )

  dotted-Lacks : Lacks b'/' (dotted third fourth)
  unfolding dotted
  dotted-Lacks =
      All-append (λ c. c == b'/' ≡ false) (codes "10.200.") last_two (ground arith)
        (All-append (λ c. c == b'/' ≡ false) (format_uint third) (b'.' ∷ format_uint fourth)
          (clear b'/' third (omega arith)) (refl, clear b'/' fourth (omega arith)))

  number-dotted :
      third ≤ 255
      → fourth ≤ 255
      → address_number (dotted third fourth)
        ≡ ok ((10 * 256 + 200) * 65536 + (third * 256 + fourth))
  unfolding address_number quad_number
  number-dotted ht hf = rw split-dotted (
      ground (
        arith,
        parse_ten,
        parse_two_hundred,
        parse_uint-format_uint third (omega arith),
        parse_uint-format_uint fourth (omega arith),
      ))

  prefixed-dotted :
      third ≤ 255
      → fourth ≤ 255
      → prefixed_address (dotted third fourth ++ codes "/30")
        ≡ ok ((10 * 256 + 200) * 65536 + (third * 256 + fourth), 30)
  unfolding prefixed_address with_prefix
  prefixed-dotted ht hf =
      ap with_prefix (cut-append b'/' (dotted third fourth) (codes "30") dotted-Lacks)
      ∙ rw (number-dotted ht hf, parse_thirty) refl

-- 10.200.0.0
abbrev pub network_base : ℕ
network_base = (10 * 256 + 200) * 65536

block-prefixed :
    (text : Bytes) (number slot : ℕ)
    → prefixed_address text ≡ ok (number, 30)
    → number / 4 ≡ network_base / 4 + slot
    → block_number text ≡ ok (network_base / 4 + slot)
unfolding block_number
block-prefixed text number slot e same = rw (e, same)

-- For every slot below the limit: the guest's end of the link has the second address from
-- 10.200.0.0 + 4 * slot on, and is the gateway, and the workload's end has the third, both with the
-- prefix length 30. So the two ends are in one block of four addresses, the block with the number of the
-- slot, counted from 10.200.0.0, which two slots never share.
pub network_of-block :
    (slot : ℕ)
    → slot < max_workload_networks
    → (prefixed_address (network_of slot).guest_address ≡ ok (network_base + 4 * slot + 1, 30))
      × (prefixed_address (network_of slot).workload_address ≡ ok (network_base + 4 * slot + 2, 30))
      × (address_number (network_of slot).gateway ≡ ok (network_base + 4 * slot + 1))
      × (block_number (network_of slot).guest_address ≡ ok (network_base / 4 + slot))
      × (block_number (network_of slot).workload_address ≡ ok (network_base / 4 + slot))
unfolding network_of
network_of-block slot h =
    let third = slot / 64 in
    let fourth = slot % 64 * 4 in
    let value : third * 256 + fourth ≡ 4 * slot = omega arith in
    let guest = prefixed-dotted third (fourth + 1) (omega arith) (omega arith) in
    let workload = prefixed-dotted third (fourth + 2) (omega arith) (omega arith) in
    (
      guest ∙ ap (λ (n : ℕ). ok (n, 30)) (omega arith),
      workload ∙ ap (λ (n : ℕ). ok (n, 30)) (omega arith),
      number-dotted third (fourth + 1) (omega arith) (omega arith) ∙ ap ok (omega arith),
      block-prefixed _ _ slot guest (omega arith),
      block-prefixed _ _ slot workload (omega arith),
    )

-- The interface names of two slots below the limit are four different ones, of seven bytes each,
-- where the kernel takes fifteen.
pub network_of-interfaces :
    (a b : ℕ)
    → a < max_workload_networks
    → b < max_workload_networks
    → a ≢ b
    → ((network_of a).guest_interface ≢ (network_of a).peer_interface)
      × ((network_of b).guest_interface ≢ (network_of b).peer_interface)
      × ((network_of a).guest_interface ≢ (network_of b).guest_interface)
      × ((network_of a).peer_interface ≢ (network_of b).peer_interface)
      × ((network_of a).guest_interface ≢ (network_of b).peer_interface)
      × ((network_of b).guest_interface ≢ (network_of a).peer_interface)
      × (length (network_of a).guest_interface ≡ 7)
      × (length (network_of a).peer_interface ≡ 7)
      × (length (network_of b).guest_interface ≡ 7)
      × (length (network_of b).peer_interface ≡ 7)
unfolding network_of hex4
network_of-interfaces a b ha hb ne = (
  (λ e. ground arith),
  (λ e. ground arith),
  (λ e. ne (hex4-injective a b (omega arith) (omega arith) (unfold hex4 in cc e))),
  (λ e. ne (hex4-injective a b (omega arith) (omega arith) (unfold hex4 in cc e))),
  (λ e. ground arith),
  (λ e. ground arith),
  refl,
  refl,
  refl,
  refl,
)
