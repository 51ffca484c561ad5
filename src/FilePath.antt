-- ===== src/FilePath.antt =====
-- The functions of Go's package `path/filepath` that the program calls, for Unix paths.
pub mod Within
pub mod Clean
pub mod Dir
pub mod Rel
pub mod Beneath
use kernlet.Common.{
  ℕ, zero, suc, List, [], ◌∷◌, ◌++◌, map, reverse, Option, none, some, Bool, true, false, ◌||◌,
  Bytes, codes, ◌==◌, if◌then◌else◌, equal, All, Lacks, Result, ok, err, fault, ◌≡◌, refl,
}
use kernlet.Text.Split.{split, join, has_prefix, contains}

abbrev pub slash : ℕ
slash = b'/'

abbrev pub dot : Bytes
dot = codes "."

abbrev pub dotdot : Bytes
dotdot = codes ".."

-- filepath.IsAbs
unfoldable pub is_abs : Bytes → Bool
is_abs [] = false
is_abs (c ∷ path) = c == slash

-- `..` drops the element before it; there is none at the root, and it stays at the front of a
-- relative path.
up : Bool → List Bytes → List Bytes
up true [] = []
up false [] = dotdot ∷ []
up rooted (top ∷ stack) = if equal top dotdot then dotdot ∷ top ∷ stack else stack

-- One element of the path; the stack has the last element at its head.
push : Bool → List Bytes → Bytes → List Bytes
push rooted stack part =
    if equal part [] || equal part dot
    then stack
    else if equal part dotdot
    then up rooted stack
    else part ∷ stack

pub resolve : Bool → List Bytes → List Bytes → List Bytes
resolve rooted stack [] = stack
resolve rooted stack (part ∷ parts) = resolve rooted (push rooted stack part) parts

unfoldable pub render : Bool → List Bytes → Bytes
render true parts = slash ∷ join slash parts
render false [] = dot
render false (part ∷ parts) = join slash (part ∷ parts)

pub render-nil : render false [] ≡ dot
unfolding render
render-nil = refl

-- filepath.Clean
unfoldable pub clean : Bytes → Bytes
unfolding resolve push up render is_abs
clean path = render (is_abs path) (reverse (resolve (is_abs path) [] (split slash path)))

-- filepath.Join
unfoldable pub join_path : List Bytes → Bytes
join_path [] = []
join_path (elem ∷ elems) =
    let rest = join_path elems in if equal elem [] then rest else clean (join slash (elem ∷ elems))

-- path[:strings.LastIndex(path, "/")+1]
up_to_last_slash : Bytes → Bytes
up_to_last_slash [] = []
up_to_last_slash (c ∷ path) = if contains slash (c ∷ path) then c ∷ up_to_last_slash path else []

-- filepath.Dir
unfoldable pub dir : Bytes → Bytes
unfolding up_to_last_slash
dir path = clean (up_to_last_slash path)

after_last_slash : Bytes → Bytes
after_last_slash [] = []
after_last_slash (c ∷ path) =
    let rest = after_last_slash path in if contains slash (c ∷ path) then rest else c ∷ path

abbrev drop_slash : ℕ → Bytes → Bytes
drop_slash c [] = if c == slash then [] else c ∷ []
drop_slash c (d ∷ rest) = c ∷ d ∷ rest

strip_slashes : Bytes → Bytes
strip_slashes [] = []
strip_slashes (c ∷ path) = drop_slash c (strip_slashes path)

abbrev or_slash : Bytes → Bytes
or_slash [] = codes "/"
or_slash (c ∷ path) = c ∷ path

-- filepath.Base
unfoldable pub base : Bytes → Bytes
unfolding after_last_slash strip_slashes
base [] = dot
base (c ∷ path) = or_slash (after_last_slash (strip_slashes (c ∷ path)))

-- The elements of a clean path, without the root.
pub names : List Bytes → List Bytes
names [] = []
names (part ∷ parts) =
    let rest = names parts in if equal part [] || equal part dot then rest else part ∷ rest

-- What is left of a base and of a target behind the elements that they share.
pub diverge : List Bytes → List Bytes → List Bytes × List Bytes
diverge [] targets = ([], targets)
diverge (b ∷ bases) [] = (b ∷ bases, [])
diverge (b ∷ bases) (t ∷ targets) =
    let rest = diverge bases targets in if equal b t then rest else (b ∷ bases, t ∷ targets)

-- The elements left of the base become `..`; a `..` among them is refused.
pub climb : List Bytes → List Bytes → Result Bytes
climb [] targets = ok (join slash targets)
climb (b ∷ bases) targets =
    if equal b dotdot
    then err (fault "Rel: can't make target relative to base")
    else ok (join slash (map (λ _. dotdot) (b ∷ bases) ++ targets))

abbrev bool_eq : Bool → Bool → Bool
bool_eq true b = b
bool_eq false true = false
bool_eq false false = true

-- filepath.Rel
unfoldable pub rel : Bytes → Bytes → Result Bytes
unfolding names diverge climb clean
rel from to =
    let from' = clean from in
    let to' = clean to in
    if equal from' to'
    then ok dot
    else if bool_eq (is_abs from') (is_abs to')
    then (let (bases, targets) = diverge (names (split slash from')) (names (split slash to')) in
        climb bases targets)
    else err (fault "Rel: can't make target relative to base")

-- The test by which the program refuses a path that leaves its starting directory:
-- path == ".." || strings.HasPrefix(path, "../")
unfoldable pub climbs_out : Bytes → Bool
climbs_out path = equal path dotdot || has_prefix (codes "../") path

-- An element that names something below a directory.
pub record IsName (part : Bytes) : Type 0 where
  pub nonempty : equal part [] ≡ false
  pub not_dot : equal part dot ≡ false
  pub not_dotdot : equal part dotdot ≡ false
  pub no_slash : Lacks slash part

-- The depth after one element of a walk that starts `depth` levels below the root; `none` when the
-- walk leaves the root.
abbrev pub walk : ℕ → Bytes → Option ℕ
walk zero part =
    if equal part [] || equal part dot then some 0 else if equal part dotdot then none else some 1
walk (suc depth) part =
    if equal part [] || equal part dot
    then some (suc depth)
    else if equal part dotdot
    then some depth
    else some (suc (suc depth))

-- Element by element, the walk never leaves the root.
unfoldable pub stays_within : ℕ → List Bytes → Bool
stays_within depth [] = true
stays_within depth (part ∷ parts) = elim (walk depth part) [
  | none ↦ false
  | some deeper ↦ stays_within deeper parts
]
