-- ===== src/Text/Decimal.antt =====
-- strconv.ParseUint(s, 10, 32) and strconv.FormatUint(n, 10).
use kernlet.Common.{
  ℕ, zero, suc, ◌+◌, ◌-◌, ◌*◌, ◌/◌, ◌%◌, ◌^◌, ◌≤◌, ◌<◌, ◌≡◌, refl, sym, ap, ◌∙◌, ◌≢◌, ◌||◌, true,
  [], ◌∷◌, arith, Bytes, codes, ltb, if◌then◌else◌, All, Lacks, Result, ok, err, fault,
}

abbrev pub max_u32 : ℕ
max_u32 = 2 ^ 32 - 1

-- The loop over the digits. The number so far is at most `max_u32`, so that no step wraps around.
scan_uint : Bytes → ℕ → Result ℕ
scan_uint [] n = ok n
scan_uint (c ∷ s) n =
    let m = n * 10 + (c - b'0') in
    let rest = scan_uint s m in
    if ltb c b'0' || ltb b'9' c
    then err (fault "invalid syntax")
    else if ltb max_u32 m
    then err (fault "value out of range")
    else rest

unfoldable pub parse_uint : Bytes → Result ℕ
unfolding scan_uint
parse_uint [] = err (fault "invalid syntax")
parse_uint (c ∷ s) = scan_uint (c ∷ s) 0

-- The digits of `n` in front of `out`; the fuel bounds their number.
digits : ℕ → ℕ → Bytes → Bytes
digits zero n out = out
digits (suc fuel) n out =
    let rest = digits fuel (n / 10) ((b'0' + n % 10) ∷ out) in
    if ltb n 10 then (b'0' + n) ∷ out else rest

-- `n` has fewer digits than the fuel `n + 1`: each round divides by ten.
unfoldable pub format_uint : ℕ → Bytes
unfolding digits
format_uint n = digits (suc n) n []

abbrev pub IsDigit : ℕ → Type 0
IsDigit c = (b'0' ≤ c) × (c ≤ b'9')

-- The number that the digits of `s` spell behind `n`, with no bound.
abbrev pub value : ℕ → Bytes → ℕ
value n [] = n
value n (c ∷ s) = value (n * 10 + (c - b'0')) s

scan_uint_sound :
    (s : Bytes) (n r : ℕ)
    → n ≤ max_u32
    → scan_uint s n ≡ ok r
    → All IsDigit s × (r ≡ value n s) × (r ≤ max_u32)
unfolding scan_uint
scan_uint_sound [] n r fits h = ground arith
scan_uint_sound (c ∷ s) n r fits h = ground (arith, scan_uint_sound s (n * 10 + (c - b'0')) r)

-- What is accepted is one or more digits, and the result is their value, below 2 ^ 32.
pub parse_uint_sound :
    (s : Bytes) (r : ℕ)
    → parse_uint s ≡ ok r
    → (s ≢ []) × All IsDigit s × (r ≡ value 0 s) × (r ≤ max_u32)
unfolding parse_uint
parse_uint_sound [] r h = cc
parse_uint_sound (c ∷ s) r h =
    let (all_digits, exact, fits) = scan_uint_sound (c ∷ s) 0 r (omega arith) h in
    ((λ e. cc), all_digits, exact, fits)

value_mono : (s : Bytes) (n : ℕ) → n ≤ value n s
value_mono [] n = omega arith
value_mono (c ∷ s) n = omega (arith, value_mono s (n * 10 + (c - b'0')))

scan_uint_complete :
    (s : Bytes) (n : ℕ) → All IsDigit s → value n s ≤ max_u32 → scan_uint s n ≡ ok (value n s)
unfolding scan_uint
scan_uint_complete [] n _ _ = refl
scan_uint_complete (c ∷ s) n (hc, hs) fits =
    let m = n * 10 + (c - b'0') in ground (arith, scan_uint_complete s m hs fits, value_mono s m)

-- Digits whose value fits are accepted.
pub parse_uint_complete :
    (s : Bytes) → s ≢ [] → All IsDigit s → value 0 s ≤ max_u32 → parse_uint s ≡ ok (value 0 s)
unfolding parse_uint
parse_uint_complete [] h = absurd (h refl)
parse_uint_complete (c ∷ s) _ = scan_uint_complete (c ∷ s) 0

digits-value : (fuel n : ℕ) (out : Bytes) → n < fuel → value 0 (digits fuel n out) ≡ value n out
unfolding digits
digits-value zero n out h = absurd (omega arith)
digits-value (suc fuel) n out h = ground (arith, digits-value fuel (n / 10) ((b'0' + n % 10) ∷ out))

digits-IsDigit : (fuel n : ℕ) (out : Bytes) → All IsDigit out → All IsDigit (digits fuel n out)
unfolding digits
digits-IsDigit zero n out h = h
digits-IsDigit (suc fuel) n out h =
    ground (arith, digits-IsDigit fuel (n / 10) ((b'0' + n % 10) ∷ out))

digits-ne-nil : (fuel n : ℕ) (out : Bytes) → out ≢ [] → digits fuel n out ≢ []
unfolding digits
digits-ne-nil zero n out h = h
digits-ne-nil (suc fuel) n out h =
    ground (arith, digits-ne-nil fuel (n / 10) ((b'0' + n % 10) ∷ out))

pub format_uint-IsDigit : (n : ℕ) → All IsDigit (format_uint n)
unfolding format_uint
format_uint-IsDigit n = digits-IsDigit (suc n) n [] tt

pub format_uint-value : (n : ℕ) → value 0 (format_uint n) ≡ n
unfolding format_uint
format_uint-value n = digits-value (suc n) n [] (omega arith)

pub format_uint-ne-nil : (n : ℕ) → format_uint n ≢ []
unfolding format_uint
format_uint-ne-nil n = ground (arith, digits-ne-nil n (n / 10) ((b'0' + n % 10) ∷ []))

-- Every number below 2 ^ 32 is read back from its decimal print.
pub parse_uint-format_uint : (n : ℕ) → n ≤ max_u32 → parse_uint (format_uint n) ≡ ok n
parse_uint-format_uint n h = ground (
  arith,
  format_uint-value n,
  parse_uint_complete (format_uint n) (format_uint-ne-nil n) (format_uint-IsDigit n),
)

-- Two numbers with the same print are the same.
pub format_uint-injective : (m n : ℕ) → format_uint m ≡ format_uint n → m ≡ n
format_uint-injective m n e = sym (format_uint-value m) ∙ ap (value 0) e ∙ format_uint-value n

pub Digits-Lacks : (b : ℕ) (s : Bytes) → ltb b'9' b ≡ true → All IsDigit s → Lacks b s
Digits-Lacks b [] h d = tt
Digits-Lacks b (c ∷ s) h d = (ground arith, Digits-Lacks b s h d.1)

format_max : format_uint max_u32 ≡ codes "4294967295"
unfolding format_uint
format_max = refl

parse_overflow : parse_uint (codes "4294967296") ≡ err (fault "value out of range")
unfolding parse_uint
parse_overflow = refl
