-- ===== src/Text/Split.antt =====
-- strings.Cut, strings.Split, strings.Join, strings.HasPrefix and strings.IndexByte.
use kernlet.Common.{
  ℕ, List, [], ◌∷◌, ◌++◌, Option, none, some, ◌≡◌, refl, ap, ◌∙◌, Bool, true, false, ◌&&◌, ◌||◌,
  arith, Bytes, ◌==◌, if◌then◌else◌, All, Lacks, Option-cases, inl, inr,
}

-- strings.HasPrefix(s, p), its arguments the other way round.
unfoldable pub has_prefix : Bytes → Bytes → Bool
has_prefix [] s = true
has_prefix (a ∷ p) [] = false
has_prefix (a ∷ p) (b ∷ s) = a == b && has_prefix p s

-- strings.IndexByte(s, b) >= 0
unfoldable pub contains : ℕ → Bytes → Bool
contains b [] = false
contains b (c ∷ s) = c == b || contains b s

abbrev put_front : ℕ → Option (Bytes × Bytes) → Option (Bytes × Bytes)
put_front c none = none
put_front c (some (before, after)) = some (c ∷ before, after)

-- strings.Cut(s, sep) for a separator of one byte; `none` is `found == false`.
unfoldable pub cut : ℕ → Bytes → Option (Bytes × Bytes)
cut sep [] = none
cut sep (c ∷ s) = if c == sep then some ([], s) else put_front c (cut sep s)

abbrev pub extend : ℕ → List Bytes → List Bytes
extend c [] = (c ∷ []) ∷ []
extend c (p ∷ ps) = (c ∷ p) ∷ ps

-- strings.Split(s, sep) for a separator of one byte.
unfoldable pub split : ℕ → Bytes → List Bytes
split sep [] = [] ∷ []
split sep (c ∷ s) = if c == sep then [] ∷ split sep s else extend c (split sep s)

-- strings.Join(parts, sep) for a separator of one byte.
unfoldable pub join : ℕ → List Bytes → Bytes
join sep [] = []
join sep (p ∷ []) = p
join sep (p ∷ q ∷ ps) = p ++ sep ∷ join sep (q ∷ ps)

-- The first parts of a text that lacks the separator.
pub split-append :
    (sep : ℕ) (p s : Bytes) → Lacks sep p → split sep (p ++ sep ∷ s) ≡ p ∷ split sep s
unfolding split
split-append sep [] s h = ground arith
split-append sep (c ∷ p) s h = ground (arith, split-append sep p s h.1)

pub split-Lacks_self : (sep : ℕ) (p : Bytes) → Lacks sep p → split sep p ≡ p ∷ []
unfolding split
split-Lacks_self sep [] h = refl
split-Lacks_self sep (c ∷ p) h = ground (arith, split-Lacks_self sep p h.1)

-- Parts that lack the separator are split off again.
pub split-join :
    (sep : ℕ) (p : Bytes) (ps : List Bytes)
    → All (Lacks sep) (p ∷ ps)
    → split sep (join sep (p ∷ ps)) ≡ p ∷ ps
unfolding join
split-join sep p [] h = split-Lacks_self sep p h.0
split-join sep p (q ∷ ps) h =
    split-append sep p (join sep (q ∷ ps)) h.0
    ∙ ap (λ (r : List Bytes). p ∷ r) (split-join sep q ps h.1)

All-extend :
    (sep c : ℕ) (ps : List Bytes)
    → c == sep ≡ false
    → All (Lacks sep) ps
    → All (Lacks sep) (extend c ps)
All-extend sep c [] e h = ((e, tt), tt)
All-extend sep c (p ∷ ps) e h = ((e, h.0), h.1)

-- No part of a split holds the separator.
pub split-Lacks : (sep : ℕ) (s : Bytes) → All (Lacks sep) (split sep s)
unfolding split
split-Lacks sep [] = (tt, tt)
split-Lacks sep (c ∷ s) = ground (arith, split-Lacks sep s, All-extend sep c (split sep s))

-- The two sides of a cut make up the text, and the left side lacks the separator.
pub cut_sound :
    (sep : ℕ) (s before after : Bytes)
    → cut sep s ≡ some (before, after)
    → (s ≡ before ++ sep ∷ after) × Lacks sep before
unfolding cut
cut_sound sep [] before after h = ground arith
cut_sound sep (c ∷ s) before after h = elim (Option-cases (cut sep s)) [
  | inl missing ↦ ground arith
  | inr ((p, q), found) ↦ ground (arith, cut_sound sep s p q found)
]

-- A text is cut at its first separator.
pub cut-append : (sep : ℕ) (p s : Bytes) → Lacks sep p → cut sep (p ++ sep ∷ s) ≡ some (p, s)
unfolding cut
cut-append sep [] s h = ground arith
cut-append sep (c ∷ p) s h = ground (arith, cut-append sep p s h.1)

-- A text with no separator is not cut.
pub cut-Lacks : (sep : ℕ) (s : Bytes) → Lacks sep s → cut sep s ≡ none
unfolding cut
cut-Lacks sep [] h = refl
cut-Lacks sep (c ∷ s) h = ground (arith, cut-Lacks sep s h.1)
