-- ===== src/FilePath/Beneath.antt =====
-- Which absolute paths filepath.Rel finds strictly below a base.
use mathlib.Core.Path.{subst}
use kernlet.Common.{
  List, [], ◌∷◌, ◌++◌, true, false, Bytes, equal, equal→eq, eq→equal, length, length-append, arith,
  ok-injective, append-nil, All, All-append, ok, ◌≡◌, refl, sym, ap, ◌∙◌, Bool-cases, inl, inr,
}
use kernlet.Text.Split.{split}
use kernlet.FilePath.{slash, names, dot, render, clean, is_abs, rel, diverge, climb, IsName}
use kernlet.FilePath.Rel.{
  clean_absolute, names-split, rel-parts, diverge_whole, diverge-append, diverge_names, refused,
  refused-names, refused-climb,
}

All-back : (xs ys : List Bytes) → All IsName (xs ++ ys) → All IsName ys
All-back [] ys h = h
All-back (x ∷ xs) ys h = All-back xs ys h.1

-- A path strictly below a directory, whose elements are given: more names follow those.
pub record IsBeneath (fs : List Bytes) (path : Bytes) : Type 0 where
  pub part : Bytes
  pub parts : List Bytes
  pub absolute : is_abs path ≡ true
  pub spelled : clean path ≡ render true (fs ++ part ∷ parts)
  pub named : All IsName (part ∷ parts)

longer : (fs rest : List Bytes) (part : Bytes) → fs ≡ fs ++ part ∷ rest → ⊥
longer fs rest part e = omega (arith, ap length e, length-append {0} fs (part ∷ rest))

longer_ne :
    (fs : List Bytes) (part : Bytes) (parts : List Bytes)
    → All IsName fs
    → All IsName (part ∷ parts)
    → equal (render true fs) (render true (fs ++ part ∷ parts)) ≡ false
longer_ne fs part parts nf n =
    elim (Bool-cases (equal (render true fs) (render true (fs ++ part ∷ parts)))) [
      | inr other ↦ other
      | inl same ↦ absurd (
          longer fs parts part (
            sym (names-split fs nf)
            ∙ ap (λ p. names (split slash p)) (equal→eq _ _ same)
            ∙ names-split (fs ++ part ∷ parts) (All-append IsName fs (part ∷ parts) nf n)))
    ]

climb_here :
    (part : Bytes) (parts : List Bytes) → climb [] (part ∷ parts) ≡ ok (render false (part ∷ parts))
unfolding climb render
climb_here part parts = refl

refused-dot : refused dot ≡ true
unfolding equal
refused-dot = refl

module _ (from : Bytes) (fs : List Bytes) (ef : clean from ≡ render true fs)
    (nf : All IsName fs) where
  below_of_rest :
      (to : Bytes) (ts rest : List Bytes)
      → is_abs to ≡ true
      → clean to ≡ render true ts
      → All IsName ts
      → ts ≡ fs ++ rest
      → equal (render true fs) (render true ts) ≡ false
      → IsBeneath fs to
  below_of_rest to ts [] a et nt e n =
      let same : fs ≡ ts = sym (append-nil fs) ∙ sym e in
      cc (n, eq→equal _ _ (ap (render true) same))
  below_of_rest to ts (part ∷ parts) a et nt e n = record {
    part = part;
    parts = parts;
    absolute = a;
    spelled = et ∙ ap (render true) e;
    named = All-back fs (part ∷ parts) (subst (All IsName) e nt);
  }

  leads :
      (to : Bytes) (ts : List Bytes) (relative : Bytes)
      → is_abs to ≡ true
      → clean to ≡ render true ts
      → All IsName ts
      → refused relative ≡ false
      → equal (render true fs) (render true ts) ≡ false
      → (left : List Bytes) → (diverge fs ts).0 ≡ left
      → All IsName left
      → climb (diverge fs ts).0 (diverge fs ts).1 ≡ ok relative
      → IsBeneath fs to
  leads to ts relative a et nt n other [] e named climbed =
      below_of_rest to ts (diverge fs ts).1 a et nt (diverge_whole fs ts e) other
  leads to ts relative a et nt n other (b ∷ bs) e named climbed =
      cc (n, refused-climb b bs (diverge fs ts).1 relative named.0 (rw e at climbed))

  -- A relative path that is not refused leads strictly below the base.
  pub rel_sound :
      (to relative : Bytes)
      → is_abs to ≡ true
      → rel from to ≡ ok relative
      → refused relative ≡ false
      → IsBeneath fs to
  rel_sound to relative a e n =
      let (ts, et, nt) = clean_absolute to a in
      let whole = sym (rel-parts from to fs ts ef et nf nt) ∙ e in
      elim (Bool-cases (equal (render true fs) (render true ts))) [
        | inl same ↦
            let is_dot : dot ≡ relative = ok-injective (rw same at whole) in
            cc (refused-dot, ap refused is_dot, n)
        | inr other ↦
            leads to ts relative a et nt n other (diverge fs ts).0 refl (diverge_names fs ts nf)
              (rw other at whole)
      ]

  -- The other way round, a path strictly below the base is not refused.
  pub rel_complete :
      (to : Bytes)
      → IsBeneath fs to
      → (relative : Bytes) × (rel from to ≡ ok relative) × (refused relative ≡ false)
  rel_complete to h = (
    render false (h.part ∷ h.parts),
    rel-parts from to fs (fs ++ h.part ∷ h.parts) ef h.spelled nf
          (All-append IsName fs (h.part ∷ h.parts) nf h.named)
        ∙ rw (longer_ne fs h.part h.parts nf h.named, diverge-append fs (h.part ∷ h.parts))
            (climb_here h.part h.parts),
    refused-names h.part h.parts h.named,
  )
