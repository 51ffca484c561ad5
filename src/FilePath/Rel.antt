-- ===== src/FilePath/Rel.antt =====
-- filepath.Rel between absolute paths.
use mathlib.Core.Path.{subst}
use kernlet.Common.{
  List, [], ◌∷◌, ◌++◌, reverse, map, Bool, true, false, ◌||◌, Bytes, equal, equal→eq, eq→equal,
  ok-injective, equal_self, All, All-append, Lacks, ok, ◌≡◌, refl, sym, ap, ◌∙◌, arith, Bool-cases,
  inl, inr, if◌then◌else◌,
}
use mathlib.Core.List.{reverse-cons}
use kernlet.Text.Split.{split, join, split-append, split-join}
use kernlet.FilePath.{
  slash, dot, dotdot, render, clean, is_abs, rel, names, diverge, climb, climbs_out, IsName,
}
use kernlet.FilePath.Clean.{IsTidy, stack_of, stack_of-IsTidy, is_abs-clean}
use kernlet.FilePath.Within.{climbs_out-dotdot, climbs_out-IsName}

Tidy-Names : (stack : List Bytes) → IsTidy true stack → All IsName (reverse stack)
Tidy-Names [] h = tt
Tidy-Names (top ∷ stack) (inl h) =
    rw (reverse-cons top stack)
      (All-append IsName (reverse stack) (top ∷ []) (Tidy-Names stack h.1) (h.0, tt))
Tidy-Names (top ∷ stack) (inr h) = cc (h.0)

clean_parts : (path : Bytes) → clean path ≡ render (is_abs path) (reverse (stack_of path))
unfolding clean
clean_parts path = refl

-- An absolute path is cleaned to the root and plain names.
pub clean_absolute :
    (path : Bytes)
    → is_abs path ≡ true
    → (parts : List Bytes) × (clean path ≡ render true parts) × All IsName parts
clean_absolute path h = (
  reverse (stack_of path),
  clean_parts path ∙ ap (λ b. render b (reverse (stack_of path))) h,
  Tidy-Names (stack_of path) (subst (λ b. IsTidy b (stack_of path)) h (stack_of-IsTidy path)),
)

names_all : (parts : List Bytes) → All IsName parts → names parts ≡ parts
unfolding names
names_all [] h = refl
names_all (part ∷ parts) h = ground (arith, names_all parts h.1, h.0.nonempty, h.0.not_dot)

Names-Lacks : (parts : List Bytes) → All IsName parts → All (Lacks slash) parts
Names-Lacks [] h = tt
Names-Lacks (part ∷ parts) h = (h.0.no_slash, Names-Lacks parts h.1)

skip_empty : (parts : List Bytes) → names ([] ∷ parts) ≡ names parts
unfolding names equal
skip_empty parts = refl

-- The elements of an absolute path of names.
pub names-split :
    (parts : List Bytes) → All IsName parts → names (split slash (render true parts)) ≡ parts
unfolding render
names-split [] h = unfold split names equal join in refl
names-split (part ∷ parts) h = rw (
  split-append slash [] (join slash (part ∷ parts)) tt,
  split-join slash part parts (Names-Lacks (part ∷ parts) h),
  skip_empty (part ∷ parts),
  names_all (part ∷ parts) h,
)

is_abs-render : (parts : List Bytes) → is_abs (render true parts) ≡ true
unfolding is_abs render
is_abs-render parts = refl

-- The relative path between absolute paths, by their elements.
pub rel-parts :
    (from to : Bytes) (fs ts : List Bytes)
    → clean from ≡ render true fs
    → clean to ≡ render true ts
    → All IsName fs
    → All IsName ts
    → rel from to ≡ (
        if equal (render true fs) (render true ts)
        then ok dot
        else climb (diverge fs ts).0 (diverge fs ts).1)
unfolding rel equal
rel-parts from to fs ts ef et nf nt =
    rw (ef, et, is_abs-render fs, is_abs-render ts, names-split fs nf, names-split ts nt)

-- What is left behind the shared elements.
pub diverge_whole : (fs ts : List Bytes) → (diverge fs ts).0 ≡ [] → ts ≡ fs ++ (diverge fs ts).1
unfolding diverge
diverge_whole [] ts h = refl
diverge_whole (f ∷ fs) [] h = cc
diverge_whole (f ∷ fs) (t ∷ ts) h = ground (arith, equal→eq f t, diverge_whole fs ts)

pub diverge-append : (fs rest : List Bytes) → diverge fs (fs ++ rest) ≡ ([], rest)
unfolding diverge
diverge-append [] rest = refl
diverge-append (f ∷ fs) rest = rw (equal_self f) (diverge-append fs rest)

pub diverge_names : (fs ts : List Bytes) → All IsName fs → All IsName (diverge fs ts).0
unfolding diverge
diverge_names [] ts h = tt
diverge_names (f ∷ fs) [] h = h
diverge_names (f ∷ fs) (t ∷ ts) h = elim (Bool-cases (equal f t)) [
  | inl same ↦ rw same (diverge_names fs ts h.1)
  | inr other ↦ rw other h
]

-- The test on a relative path: it names the directory itself or leaves it.
abbrev pub refused : Bytes → Bool
refused relative = equal relative dot || climbs_out relative

render_ne_dot :
    (part : Bytes) (parts : List Bytes)
    → All IsName (part ∷ parts)
    → equal (render false (part ∷ parts)) dot ≡ false
unfolding render
render_ne_dot part parts h = elim (Bool-cases (equal (join slash (part ∷ parts)) dot)) [
  | inr other ↦ other
  | inl same ↦
      let split_dot : split slash dot ≡ dot ∷ [] = unfold split in refl in
      let e : part ∷ parts ≡ dot ∷ [] =
        sym (split-join slash part parts (Names-Lacks (part ∷ parts) h))
        ∙ ap (split slash) (equal→eq _ dot same)
        ∙ split_dot in
      cc (h.0.not_dot, eq→equal part dot (cons_head part parts e))
]
  where
    cons_head : (part : Bytes) (parts : List Bytes) → part ∷ parts ≡ dot ∷ [] → part ≡ dot
    cons_head part parts e = cc e

pub refused-names :
    (part : Bytes) (parts : List Bytes)
    → All IsName (part ∷ parts)
    → refused (render false (part ∷ parts)) ≡ false
refused-names part parts h = rw (render_ne_dot part parts h) (climbs_out-IsName (part ∷ parts) h)

climb_up :
    (b : Bytes) (bs ts : List Bytes)
    → IsName b
    → climb (b ∷ bs) ts ≡ ok (render false (dotdot ∷ map (λ _. dotdot) bs ++ ts))
unfolding climb render
climb_up b bs ts h = rw h.not_dotdot

-- Going up from the base is refused.
pub refused-climb :
    (b : Bytes) (bs ts : List Bytes) (relative : Bytes)
    → IsName b
    → climb (b ∷ bs) ts ≡ ok relative
    → refused relative ≡ true
refused-climb b bs ts relative h e =
    let spelled : render false (dotdot ∷ map (λ _. dotdot) bs ++ ts) ≡ relative =
      ok-injective (sym (climb_up b bs ts h) ∙ e) in
    rw (← spelled, climbs_out-dotdot (map (λ _. dotdot) bs ++ ts)) (or_true _)
  where
    or_true : (b : Bool) → (b || true) ≡ true
    or_true true = refl
    or_true false = refl

-- From an absolute base, only an absolute path has a relative one.
pub rel_absolute :
    (from to relative : Bytes)
    → is_abs from ≡ true
    → rel from to ≡ ok relative
    → refused relative ≡ false
    → is_abs to ≡ true
unfolding rel equal
rel_absolute from to relative a e n =
    ground (arith, equal→eq (clean from) (clean to), is_abs-clean from, is_abs-clean to)
