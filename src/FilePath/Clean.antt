-- ===== src/FilePath/Clean.antt =====
-- filepath.Clean gives a normal form: cleaning a clean path changes nothing.
use mathlib.Core.List.{reverse-cons}
use kernlet.Common.{
  List, [], ◌∷◌, ◌++◌, reverse, Bool, true, false, ◌||◌, Bytes, equal, All, Lacks, ◌≡◌, refl, arith,
  All-append, eq→equal, Bool-cases, ◌⊎◌, inl, inr,
}
use kernlet.Text.Split.{split, join, split-Lacks, split-join, split-append}
use kernlet.FilePath.{slash, dot, dotdot, up, push, resolve, render, clean, is_abs, IsName}

-- Only `..`, and only in a relative path.
abbrev pub IsUps : Bool → List Bytes → Type 0
IsUps rooted [] = Unit
IsUps rooted (top ∷ stack) = (rooted ≡ false) × (top ≡ dotdot) × IsUps rooted stack

-- The stack of a clean path, its last element first: names above a run of `..`.
abbrev pub IsTidy : Bool → List Bytes → Type 0
IsTidy rooted [] = Unit
IsTidy rooted (top ∷ stack) =
    (IsName top × IsTidy rooted stack) ⊎ ((rooted ≡ false) × (top ≡ dotdot) × IsUps rooted stack)

Ups-IsTidy : (rooted : Bool) (stack : List Bytes) → IsUps rooted stack → IsTidy rooted stack
Ups-IsTidy rooted [] h = tt
Ups-IsTidy rooted (top ∷ stack) h = inr h

IsName-of_tests :
    (part : Bytes)
    → (equal part [] || equal part dot) ≡ false
    → equal part dotdot ≡ false
    → Lacks slash part
    → IsName part
IsName-of_tests part kept name clear = ground arith

up-IsTidy :
    (rooted : Bool) (stack : List Bytes) → IsTidy rooted stack → IsTidy rooted (up rooted stack)
unfolding up
up-IsTidy true [] h = tt
up-IsTidy false [] h = inr (refl, refl, tt)
up-IsTidy true (top ∷ stack) (inl h) = rw h.0.not_dotdot h.1
up-IsTidy false (top ∷ stack) (inl h) = rw h.0.not_dotdot h.1
up-IsTidy true (top ∷ stack) (inr h) = cc (h.0)
up-IsTidy false (top ∷ stack) (inr h) = rw (eq→equal top dotdot h.1) (inr (refl, refl, h))

push-IsTidy :
    (rooted : Bool) (stack : List Bytes) (part : Bytes)
    → Lacks slash part
    → IsTidy rooted stack
    → IsTidy rooted (push rooted stack part)
unfolding push
push-IsTidy rooted stack part clear h = elim (Bool-cases (equal part [] || equal part dot)) [
  | inl skip ↦ rw skip h
  | inr kept ↦ elim (Bool-cases (equal part dotdot)) [
    | inl up ↦ rw (kept, up) (up-IsTidy rooted stack h)
    | inr name ↦ rw (kept, name) (inl (IsName-of_tests part kept name clear, h))
  ]
]

resolve-IsTidy :
    (rooted : Bool) (parts stack : List Bytes)
    → All (Lacks slash) parts
    → IsTidy rooted stack
    → IsTidy rooted (resolve rooted stack parts)
unfolding resolve
resolve-IsTidy rooted [] stack clear h = h
resolve-IsTidy rooted (part ∷ parts) stack clear h =
    resolve-IsTidy rooted parts (push rooted stack part) clear.1
      (push-IsTidy rooted stack part clear.0 h)

-- The last element of a tidy path is pushed as it is.
push_tidy :
    (rooted : Bool) (top : Bytes) (stack : List Bytes)
    → IsTidy rooted (top ∷ stack)
    → push rooted stack top ≡ top ∷ stack
unfolding push up equal
push_tidy rooted top stack (inl h) = ground (arith, h.0.nonempty, h.0.not_dot, h.0.not_dotdot)
push_tidy rooted top [] (inr h) = rw (h.0, h.1)
push_tidy true top (next ∷ stack) (inr h) = cc (h.0)
push_tidy false top (next ∷ stack) (inr h) = rw (h.1, h.2.1)

resolve-append :
    (rooted : Bool) (parts stack : List Bytes) (last : Bytes)
    → resolve rooted stack (parts ++ last ∷ []) ≡ push rooted (resolve rooted stack parts) last
unfolding resolve
resolve-append rooted [] stack last = refl
resolve-append rooted (part ∷ parts) stack last =
    resolve-append rooted parts (push rooted stack part) last

tail-IsTidy :
    (rooted : Bool) (top : Bytes) (stack : List Bytes)
    → IsTidy rooted (top ∷ stack)
    → IsTidy rooted stack
tail-IsTidy rooted top stack (inl h) = h.1
tail-IsTidy rooted top stack (inr h) = Ups-IsTidy rooted stack h.2

-- Resolving the elements of a tidy path gives the path back.
resolve_tidy :
    (rooted : Bool) (stack : List Bytes)
    → IsTidy rooted stack
    → resolve rooted [] (reverse stack) ≡ stack
resolve_tidy rooted [] h = unfold resolve in refl
resolve_tidy rooted (top ∷ stack) h =
    rw
      (
        reverse-cons top stack,
        resolve-append rooted (reverse stack) [] top,
        resolve_tidy rooted stack (tail-IsTidy rooted top stack h),
      )
      (push_tidy rooted top stack h)

-- An element that is printed and split off again.
abbrev pub IsPart : Bytes → Type 0
IsPart part = (equal part [] ≡ false) × Lacks slash part

Ups-IsPart : (rooted : Bool) (stack : List Bytes) → IsUps rooted stack → All IsPart stack
unfolding equal
Ups-IsPart rooted [] h = tt
Ups-IsPart rooted (top ∷ stack) h =
    (rw (h.1) (refl, (refl, (refl, tt))), Ups-IsPart rooted stack h.2)

Tidy-IsPart : (rooted : Bool) (stack : List Bytes) → IsTidy rooted stack → All IsPart stack
Tidy-IsPart rooted [] h = tt
Tidy-IsPart rooted (top ∷ stack) (inl h) =
    ((h.0.nonempty, h.0.no_slash), Tidy-IsPart rooted stack h.1)
Tidy-IsPart rooted (top ∷ stack) (inr h) = Ups-IsPart rooted (top ∷ stack) h

reverse-IsPart : (xs : List Bytes) → All IsPart xs → All IsPart (reverse xs)
reverse-IsPart [] h = tt
reverse-IsPart (x ∷ xs) h =
    rw (reverse-cons x xs)
      (All-append IsPart (reverse xs) (x ∷ []) (reverse-IsPart xs h.1) (h.0, tt))

Part-Lacks : (xs : List Bytes) → All IsPart xs → All (Lacks slash) xs
Part-Lacks [] h = tt
Part-Lacks (x ∷ xs) h = (h.0.1, Part-Lacks xs h.1)

pub is_abs-join :
    (part : Bytes) (parts : List Bytes) → IsPart part → is_abs (join slash (part ∷ parts)) ≡ false
unfolding is_abs join equal
is_abs-join [] parts h = cc (h.0)
is_abs-join (c ∷ part) [] h = h.1.0
is_abs-join (c ∷ part) (next ∷ parts) h = h.1.0

is_abs-render :
    (rooted : Bool) (parts : List Bytes) → All IsPart parts → is_abs (render rooted parts) ≡ rooted
unfolding render
is_abs-render true parts h = unfold is_abs in refl
is_abs-render false [] h = unfold is_abs in refl
is_abs-render false (part ∷ parts) h = is_abs-join part parts h.0

-- Resolving a rendered path resolves its elements.
resolve-render :
    (rooted : Bool) (parts : List Bytes)
    → All IsPart parts
    → resolve rooted [] (split slash (render rooted parts)) ≡ resolve rooted [] parts
unfolding render
resolve-render true [] h = unfold split resolve push equal join in refl
resolve-render true (part ∷ parts) h =
    rw
      (
        split-append slash [] (join slash (part ∷ parts)) tt,
        split-join slash part parts (Part-Lacks (part ∷ parts) h),
      )
      (unfold resolve push equal in refl)
resolve-render false [] h = unfold split resolve push equal in refl
resolve-render false (part ∷ parts) h =
    rw (split-join slash part parts (Part-Lacks (part ∷ parts) h))

clean-render :
    (rooted : Bool) (stack : List Bytes)
    → IsTidy rooted stack
    → clean (render rooted (reverse stack)) ≡ render rooted (reverse stack)
unfolding clean
clean-render rooted stack h =
    let parts = reverse-IsPart stack (Tidy-IsPart rooted stack h) in
    rw (
      is_abs-render rooted (reverse stack) parts,
      resolve-render rooted (reverse stack) parts,
      resolve_tidy rooted stack h,
    )

abbrev pub stack_of : Bytes → List Bytes
stack_of path = resolve (is_abs path) [] (split slash path)

pub stack_of-IsTidy : (path : Bytes) → IsTidy (is_abs path) (stack_of path)
stack_of-IsTidy path =
    resolve-IsTidy (is_abs path) (split slash path) [] (split-Lacks slash path) tt

-- Cleaning twice is cleaning once.
pub clean-clean : (path : Bytes) → clean (clean path) ≡ clean path
clean-clean path =
    let e : clean path ≡ render (is_abs path) (reverse (stack_of path)) = unfold clean in refl in
    rw e (clean-render (is_abs path) (stack_of path) (stack_of-IsTidy path))

-- A clean path is absolute exactly when the path is.
pub is_abs-clean : (path : Bytes) → is_abs (clean path) ≡ is_abs path
unfolding clean
is_abs-clean path = is_abs-render (is_abs path) (reverse (stack_of path)) (
    reverse-IsPart (stack_of path)
      (Tidy-IsPart (is_abs path) (stack_of path) (stack_of-IsTidy path)))
