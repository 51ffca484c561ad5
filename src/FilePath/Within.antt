-- ===== src/FilePath/Within.antt =====
-- The lexical test for paths that leave their directory, against a walk over the elements.
use kernlet.Common.{
  ℕ, List, [], ◌∷◌, ◌++◌, reverse, none, some, true, false, ◌||◌, Bytes, equal, All, Lacks, ◌≡◌,
  refl, not, arith, length, Bool-cases, Option-cases, inl, inr,
}
use mathlib.Core.List.{reverse-append, reverse_aux}
use kernlet.Text.Split.{split, join, has_prefix, split-Lacks}
use kernlet.FilePath.{
  slash, dot, dotdot, up, push, resolve, render, clean, is_abs, climbs_out, IsName, walk,
  stays_within,
}

-- Names on the stack stay names, as long as the walk stays inside.
push-IsName :
    (stack : List Bytes) (part : Bytes) (deeper : ℕ)
    → Lacks slash part
    → All IsName stack
    → walk (length stack) part ≡ some deeper
    → All IsName (push false stack part) × (length (push false stack part) ≡ deeper)
unfolding push up
push-IsName [] part deeper clear h e = ground arith
push-IsName (top ∷ stack) part deeper clear h e = ground (arith, h.0.not_dotdot)

resolve_inside :
    (parts stack : List Bytes)
    → All (Lacks slash) parts
    → All IsName stack
    → stays_within (length stack) parts ≡ true
    → All IsName (resolve false stack parts)
unfolding resolve stays_within
resolve_inside [] stack clear h s = h
resolve_inside (part ∷ parts) stack clear h s = elim (Option-cases (walk (length stack) part)) [
  | inl outside ↦ ground arith
  | inr (deeper, e) ↦
      let (kept, depth) = push-IsName stack part deeper clear.0 h e in
      resolve_inside parts (push false stack part) clear.1 kept (rw depth (ground arith))
]

-- A stack whose last element is `..`, below any others.
abbrev Sunk : List Bytes → Type 0
Sunk stack = (above : List Bytes) × (stack ≡ above ++ dotdot ∷ [])

-- Once a relative path has climbed out, its first element remains `..`.
push-Sunk : (above : List Bytes) (part : Bytes) → Sunk (push false (above ++ dotdot ∷ []) part)
unfolding push up equal
push-Sunk [] part = elim (Bool-cases (equal part [] || equal part dot)) [
  | inl skip ↦ ([], rw skip)
  | inr kept ↦ elim (Bool-cases (equal part dotdot)) [
    | inl up ↦ (dotdot ∷ [], rw (kept, up))
    | inr name ↦ (part ∷ [], rw (kept, name))
  ]
]
push-Sunk (top ∷ above) part = elim (Bool-cases (equal part [] || equal part dot)) [
  | inl skip ↦ (top ∷ above, rw skip)
  | inr kept ↦ elim (Bool-cases (equal part dotdot)) [
    | inl up ↦ elim (Bool-cases (equal top dotdot)) [
      | inl climbing ↦ (dotdot ∷ top ∷ above, rw (kept, up, climbing))
      | inr name ↦ (above, rw (kept, up, name))
    ]
    | inr name ↦ (part ∷ top ∷ above, rw (kept, name))
  ]
]

resolve-Sunk : (parts stack : List Bytes) → Sunk stack → Sunk (resolve false stack parts)
unfolding resolve
resolve-Sunk [] stack h = h
resolve-Sunk (part ∷ parts) stack (above, e) =
    resolve-Sunk parts (push false stack part) (rw e (push-Sunk above part))

-- A walk that leaves the root leaves `..` on the empty stack.
push_outside :
    (stack : List Bytes) (part : Bytes)
    → walk (length stack) part ≡ none
    → push false stack part ≡ dotdot ∷ []
unfolding push up
push_outside [] part e = ground arith
push_outside (top ∷ stack) part e = ground arith

resolve_outside :
    (parts stack : List Bytes)
    → All (Lacks slash) parts
    → All IsName stack
    → stays_within (length stack) parts ≡ false
    → Sunk (resolve false stack parts)
unfolding resolve stays_within
resolve_outside [] stack clear h s = ground arith
resolve_outside (part ∷ parts) stack clear h s = elim (Option-cases (walk (length stack) part)) [
  | inl outside ↦ resolve-Sunk parts _ ([], push_outside stack part outside)
  | inr (deeper, e) ↦
      let (kept, depth) = push-IsName stack part deeper clear.0 h e in
      resolve_outside parts (push false stack part) clear.1 kept (rw depth (ground arith))
]

All-reverse_aux :
    (xs ys : List Bytes) → All IsName xs → All IsName ys → All IsName (reverse_aux xs ys)
All-reverse_aux [] ys _ k = k
All-reverse_aux (x ∷ xs) ys (p, h) k = All-reverse_aux xs (x ∷ ys) h (p, k)

-- What begins with the element `..` is refused.
pub climbs_out-dotdot : (parts : List Bytes) → climbs_out (render false (dotdot ∷ parts)) ≡ true
unfolding climbs_out render equal has_prefix join
climbs_out-dotdot [] = refl
climbs_out-dotdot (part ∷ parts) = refl

-- What begins with a name is not.
pub climbs_out-IsName :
    (parts : List Bytes) → All IsName parts → climbs_out (render false parts) ≡ false
unfolding climbs_out render equal has_prefix join
climbs_out-IsName [] h = refl
climbs_out-IsName (part ∷ []) h = last_name part h.0
  where
    last_name : (part : Bytes) → IsName part → climbs_out part ≡ false
    last_name [] n = refl
    last_name (a ∷ []) n = ground arith
    last_name (a ∷ b ∷ []) n = ground (arith, n.not_dotdot)
    last_name (a ∷ b ∷ c ∷ part) n = ground (arith, n.no_slash)
climbs_out-IsName (part ∷ next ∷ parts) h = first_name part (join slash (next ∷ parts)) h.0
  where
    first_name : (part rest : Bytes) → IsName part → climbs_out (part ++ slash ∷ rest) ≡ false
    first_name [] rest n = ground (arith, n.nonempty)
    first_name (a ∷ []) rest n = ground arith
    first_name (a ∷ b ∷ []) rest n = ground (arith, n.not_dotdot)
    first_name (a ∷ b ∷ c ∷ part) rest n = ground (arith, n.no_slash)

abbrev relative_parts : Bytes → List Bytes
relative_parts path = resolve false [] (split slash path)

clean_relative :
    (path : Bytes) → is_abs path ≡ false → clean path ≡ render false (reverse (relative_parts path))
unfolding clean
clean_relative path h = rw h

-- A relative path that stays inside is cleaned to names, and one that does not begins with `..`.
pub clean-IsName :
    (path : Bytes)
    → is_abs path ≡ false
    → stays_within 0 (split slash path) ≡ true
    → (parts : List Bytes) × (clean path ≡ render false parts) × All IsName parts
clean-IsName path h s =
    let kept = resolve_inside (split slash path) [] (split-Lacks slash path) tt s in
    (reverse (relative_parts path), clean_relative path h, All-reverse_aux _ [] kept tt)

pub climbs_out-clean :
    (path : Bytes)
    → is_abs path ≡ false
    → climbs_out (clean path) ≡ not (stays_within 0 (split slash path))
climbs_out-clean path h = elim (Bool-cases (stays_within 0 (split slash path))) [
  | inl inside ↦
      let (parts, e, named) = clean-IsName path h inside in
      rw (e, inside) (climbs_out-IsName parts named)
  | inr outside ↦
      let (above, e) = resolve_outside (split slash path) [] (split-Lacks slash path) tt outside in
      rw (clean_relative path h, e, outside, reverse-append above (dotdot ∷ []))
        (climbs_out-dotdot (reverse above))
]
