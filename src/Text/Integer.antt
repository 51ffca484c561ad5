-- ===== src/Text/Integer.antt =====
-- strconv.Atoi, where an int has 64 bits.
use kernlet.Common.{
  ℕ, ◌+◌, ◌-◌, ◌*◌, ◌^◌, zero, suc, ℤ, pos, negsuc, [], ◌∷◌, Bytes, ◌||◌, ltb, ◌==◌, Result, ok,
  err, fault, ◌>>=◌, if◌then◌else◌,
}

-- The digits after the sign, for a number of at most `limit`.
scan_to : ℕ → Bytes → ℕ → Result ℕ
scan_to limit [] n = ok n
scan_to limit (c ∷ s) n =
    let m = n * 10 + (c - b'0') in
    let rest = scan_to limit s m in
    if ltb c b'0' || ltb b'9' c
    then err (fault "invalid syntax")
    else if ltb limit m
    then err (fault "value out of range")
    else rest

unsigned : ℕ → Bytes → Result ℕ
unfolding scan_to
unsigned limit [] = err (fault "invalid syntax")
unsigned limit (c ∷ s) = scan_to limit (c ∷ s) 0

abbrev negative : ℕ → ℤ
negative zero = pos 0
negative (suc n) = negsuc n

unfoldable pub atoi : Bytes → Result ℤ
unfolding unsigned
atoi [] = err (fault "invalid syntax")
atoi (c ∷ s) =
    if c == b'-'
    then (do n ← unsigned (2 ^ 63) s; ok (negative n))
    else if c == b'+'
    then (do n ← unsigned (2 ^ 63 - 1) s; ok (pos n))
    else (do n ← unsigned (2 ^ 63 - 1) (c ∷ s); ok (pos n))
