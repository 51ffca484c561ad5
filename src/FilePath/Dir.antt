-- ===== src/FilePath/Dir.antt =====
-- filepath.Dir of a path of names, and a path that continues behind it.
use mathlib.Core.List.{reverse_aux, reverse-reverse}
use native.Mathlib.Nat.{add-zero}
use kernlet.Common.{
  ℕ, List, zero, suc, [], ◌∷◌, ◌++◌, append_assoc, reverse, true, false, Bytes, equal, All, Lacks,
  ◌≡◌, refl, sym, ap, ◌∙◌, arith, length, some, not, ◌+◌,
}
use kernlet.Text.Split.{split, join, contains, split-append}
use kernlet.FilePath.{
  slash, dot, push, resolve, render, clean, is_abs, IsName, dir, up_to_last_slash, join_path, walk,
  stays_within, climbs_out,
}
use kernlet.FilePath.Clean.{is_abs-join, clean-clean}
use kernlet.FilePath.Within.{climbs_out-clean}

Lacks-contains : (s : Bytes) → Lacks slash s → contains slash s ≡ false
unfolding contains
Lacks-contains [] h = refl
Lacks-contains (c ∷ s) h = ground (arith, Lacks-contains s h.1)

contains-slash : (p q : Bytes) → contains slash (p ++ slash ∷ q) ≡ true
unfolding contains
contains-slash [] q = refl
contains-slash (c ∷ p) q = ground (arith, contains-slash p q)

up_to_last_slash-Lacks : (q : Bytes) → Lacks slash q → up_to_last_slash q ≡ []
unfolding up_to_last_slash
up_to_last_slash-Lacks [] h = refl
up_to_last_slash-Lacks (c ∷ q) h = ground (arith, Lacks-contains (c ∷ q) h)

up_to_last_slash-append :
    (p q : Bytes) → Lacks slash q → up_to_last_slash (p ++ slash ∷ q) ≡ p ++ slash ∷ []
unfolding up_to_last_slash
up_to_last_slash-append [] q h = ground (arith, contains-slash [] q, up_to_last_slash-Lacks q h)
up_to_last_slash-append (c ∷ p) q h =
    ground (arith, contains-slash (c ∷ p) q, up_to_last_slash-append p q h)

Names-Lacks : (parts : List Bytes) → All IsName parts → All (Lacks slash) parts
Names-Lacks [] h = tt
Names-Lacks (part ∷ parts) h = (h.0.no_slash, Names-Lacks parts h.1)

join-append :
    (part : Bytes) (parts : List Bytes) (last : Bytes)
    → join slash (part ∷ parts ++ last ∷ []) ≡ join slash (part ∷ parts) ++ slash ∷ last
unfolding join
join-append part [] last = refl
join-append part (next ∷ parts) last =
    ap (λ (r : Bytes). part ++ slash ∷ r) (join-append next parts last)
    ∙ sym (append_assoc part (slash ∷ join slash (next ∷ parts)) (slash ∷ last))

-- A path that continues behind a path of names.
split-join_rest :
    (part : Bytes) (parts : List Bytes) (rest : Bytes)
    → All (Lacks slash) (part ∷ parts)
    → split slash (join slash (part ∷ parts) ++ slash ∷ rest) ≡ part ∷ parts ++ split slash rest
unfolding join
split-join_rest part [] rest h = split-append slash part rest h.0
split-join_rest part (next ∷ parts) rest h =
    ap (split slash) (append_assoc part (slash ∷ join slash (next ∷ parts)) (slash ∷ rest))
    ∙ split-append slash part (join slash (next ∷ parts) ++ slash ∷ rest) h.0
    ∙ ap (λ (r : List Bytes). part ∷ r) (split-join_rest next parts rest h.1)

push-name : (stack : List Bytes) (part : Bytes) → IsName part → push false stack part ≡ part ∷ stack
unfolding push
push-name stack part h = ground (arith, h.nonempty, h.not_dot, h.not_dotdot)

push-nothing : (stack : List Bytes) → push false stack [] ≡ stack
unfolding push equal
push-nothing stack = refl

resolve-names :
    (parts rest stack : List Bytes)
    → All IsName parts
    → resolve false stack (parts ++ rest) ≡ resolve false (reverse_aux parts stack) rest
unfolding resolve
resolve-names [] rest stack h = refl
resolve-names (part ∷ parts) rest stack h =
    ap (λ (s : List Bytes). resolve false s (parts ++ rest)) (push-name stack part h.0)
    ∙ resolve-names parts rest (part ∷ stack) h.1

IsName-IsPart : (part : Bytes) → IsName part → (equal part [] ≡ false) × Lacks slash part
IsName-IsPart part h = (h.nonempty, h.no_slash)

is_abs_rest :
    (path rest : Bytes)
    → equal path [] ≡ false
    → is_abs path ≡ false
    → is_abs (path ++ rest) ≡ false
unfolding is_abs equal
is_abs_rest [] rest n h = cc
is_abs_rest (c ∷ path) rest n h = h

is_abs_names :
    (part : Bytes) (parts : List Bytes)
    → All IsName (part ∷ parts)
    → is_abs (join slash (part ∷ parts)) ≡ false
is_abs_names part parts h = is_abs-join part parts (IsName-IsPart part h.0)

join-nonempty :
    (part : Bytes) (parts : List Bytes)
    → equal part [] ≡ false
    → equal (join slash (part ∷ parts)) [] ≡ false
unfolding equal join
join-nonempty [] parts h = cc
join-nonempty (c ∷ part) [] h = refl
join-nonempty (c ∷ part) (next ∷ parts) h = refl

is_abs_behind :
    (part : Bytes) (parts : List Bytes) (rest : Bytes)
    → All IsName (part ∷ parts)
    → is_abs (join slash (part ∷ parts) ++ slash ∷ rest) ≡ false
is_abs_behind part parts rest h =
    is_abs_rest (join slash (part ∷ parts)) (slash ∷ rest) (join-nonempty part parts h.0.nonempty)
      (is_abs_names part parts h)

resolve_trailing :
    (parts : List Bytes) → All IsName parts → resolve false [] (parts ++ [] ∷ []) ≡ reverse parts
resolve_trailing parts h =
    resolve-names parts ([] ∷ []) [] h ∙ unfold resolve in push-nothing (reverse_aux parts [])

clean_trailing :
    (part : Bytes) (parts : List Bytes)
    → All IsName (part ∷ parts)
    → clean (join slash (part ∷ parts) ++ slash ∷ []) ≡ render false (part ∷ parts)
unfolding clean
clean_trailing part parts h =
    let split_nil : split slash [] ≡ [] ∷ [] = unfold split in refl in
    rw (
      is_abs_behind part parts [] h,
      split-join_rest part parts [] (Names-Lacks (part ∷ parts) h),
      split_nil,
      resolve_trailing (part ∷ parts) h,
      reverse-reverse (part ∷ parts),
    )

-- The directory of a path of names is the path without the last one.
pub dir-names :
    (parts : List Bytes) (last : Bytes)
    → All IsName parts
    → IsName last
    → dir (render false (parts ++ last ∷ [])) ≡ render false parts
unfolding dir clean render join
dir-names [] last named h =
    rw (up_to_last_slash-Lacks last h.no_slash)
      (unfold clean split resolve push equal render is_abs in refl)
dir-names (part ∷ parts) last named h =
    rw
      (
        join-append part parts last,
        up_to_last_slash-append (join slash (part ∷ parts)) last h.no_slash,
      )
      (clean_trailing part parts named)

walk-name : (depth : ℕ) (part : Bytes) → IsName part → walk depth part ≡ some (suc depth)
walk-name zero part h = ground (arith, h.nonempty, h.not_dot, h.not_dotdot)
walk-name (suc depth) part h = ground (arith, h.nonempty, h.not_dot, h.not_dotdot)

stays_within-names :
    (parts rest : List Bytes) (depth : ℕ)
    → All IsName parts
    → stays_within depth (parts ++ rest) ≡ stays_within (length parts + depth) rest
unfolding stays_within
stays_within-names [] rest depth h = ap (λ (d : ℕ). stays_within d rest) (omega arith)
stays_within-names (part ∷ parts) rest depth h =
    rw (walk-name depth part h.0, stays_within)
      (stays_within-names parts rest (suc depth) h.1
        ∙ ap (λ (d : ℕ). stays_within d rest) (omega arith))

join_two : (front path : Bytes) → join slash (front ∷ path ∷ []) ≡ front ++ slash ∷ path
unfolding join
join_two front path = refl

join_path-names :
    (part : Bytes) (parts : List Bytes) (path : Bytes)
    → equal part [] ≡ false
    → join_path (render false (part ∷ parts) ∷ path ∷ [])
      ≡ clean (join slash (part ∷ parts) ++ slash ∷ path)
unfolding join_path render
join_path-names part parts path n =
    rw (join-nonempty part parts n) (ap clean (join_two (join slash (part ∷ parts)) path))

-- A relative path, resolved from a directory of `length parts` names below the root, is refused
-- exactly when its walk from there leaves the root.
pub climbs_out-join_path :
    (parts : List Bytes) (path : Bytes)
    → All IsName parts
    → equal path [] ≡ false
    → climbs_out (clean (join_path (render false parts ∷ path ∷ [])))
      ≡ not (stays_within (length parts) (split slash path))
climbs_out-join_path [] path h n =
    let e : join_path (render false [] ∷ path ∷ []) ≡ clean (dot ++ slash ∷ path) =
      unfold join_path render equal join in refl in
    let skip : stays_within 0 (dot ∷ split slash path) ≡ stays_within 0 (split slash path) =
      unfold stays_within equal in refl in
    rw (
      e,
      clean-clean (dot ++ slash ∷ path),
      climbs_out-clean (dot ++ slash ∷ path) (unfold is_abs in refl),
      split-append slash dot path (refl, tt),
      skip,
    )
climbs_out-join_path (part ∷ parts) path h n =
    let front = join slash (part ∷ parts) in
    let e : join_path (render false (part ∷ parts) ∷ path ∷ []) ≡ clean (front ++ slash ∷ path) =
      join_path-names part parts path h.0.nonempty in
    rw (
      e,
      clean-clean (front ++ slash ∷ path),
      climbs_out-clean (front ++ slash ∷ path) (is_abs_behind part parts path h),
      split-join_rest part parts path (Names-Lacks (part ∷ parts) h),
      stays_within-names (part ∷ parts) (split slash path) 0 h,
      add-zero (length (part ∷ parts)),
    )
