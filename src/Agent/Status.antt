-- ===== src/Agent/Status.antt =====
-- statusField: one field of /proc/self/status.
use kernlet.Common.{
  List, [], ◌∷◌, ◌++◌, Bytes, Option, none, some, Result, ok, err, fault, equal, equal→eq, eq→equal,
  All, if◌then◌else◌, ◌≡◌, ◌↔◌, refl, ap, ◌∙◌, arith, Option-cases, inl, inr, ok-injective,
}
use kernlet.Text.Split.{split, join}
use kernlet.Text.Fields.{fields}

-- `len(fields) >= 2 && fields[0] == prefix`, and the fields behind the first, joined by commas.
line_value : Bytes → List Bytes → Option Bytes
line_value prefix (first ∷ second ∷ rest) =
    if equal first prefix then some (join b',' (second ∷ rest)) else none
line_value prefix _ = none

abbrev or_else : Option Bytes → Option Bytes → Option Bytes
or_else (some value) other = some value
or_else none other = other

-- The loop over the lines.
find_value : Bytes → List Bytes → Option Bytes
unfolding line_value
find_value prefix [] = none
find_value prefix (line ∷ lines) =
    let rest = find_value prefix lines in or_else (line_value prefix (fields line)) rest

abbrev found : Option Bytes → Result Bytes
found (some value) = ok value
found none = err (fault "kernlet-agent: process status field is missing")

pub status_field : Bytes → Bytes → Result Bytes
unfolding find_value
status_field status name = found (find_value (name ++ b':' ∷ []) (split 10 status))

-- The line has the name, followed by a colon, as its first field, and at least one more field.
pub record Holds (name line value : Bytes) : Type 0 where
  pub second : Bytes
  pub rest : List Bytes
  pub parts : fields line ≡ (name ++ b':' ∷ []) ∷ second ∷ rest
  pub joined : value ≡ join b',' (second ∷ rest)

-- The first of the lines that has the field gives its value.
pub record IsFirst (name value : Bytes) (lines : List Bytes) : Type 0 where
  pub before : List Bytes
  pub line : Bytes
  pub after : List Bytes
  pub whole : lines ≡ before ++ line ∷ after
  pub passed : All (λ l. (v : Bytes) → ¬ Holds name l v) before
  pub holds : Holds name line value

line_value_sound :
    (name line value : Bytes) (parts : List Bytes)
    → fields line ≡ parts
    → line_value (name ++ b':' ∷ []) parts ≡ some value
    → Holds name line value
unfolding line_value
line_value_sound name line value [] e h = cc
line_value_sound name line value (first ∷ []) e h = cc
line_value_sound name line value (first ∷ second ∷ rest) e h = record {
  second = second;
  rest = rest;
  parts = ground (arith, equal→eq first (name ++ b':' ∷ []));
  joined = ground arith;
}

line_value_complete :
    (name line value : Bytes)
    → Holds name line value
    → line_value (name ++ b':' ∷ []) (fields line) ≡ some value
unfolding line_value
line_value_complete name line value h =
    rw h.parts (ground (arith, eq→equal (name ++ b':' ∷ []) (name ++ b':' ∷ []) refl, h.joined))

find_value_sound :
    (name value : Bytes) (lines : List Bytes)
    → find_value (name ++ b':' ∷ []) lines ≡ some value
    → IsFirst name value lines
unfolding find_value
find_value_sound name value [] h = cc
find_value_sound name value (line ∷ lines) h =
    elim (Option-cases (line_value (name ++ b':' ∷ []) (fields line))) [
      | inr (v, here) ↦ record {
        before = [];
        line = line;
        after = lines;
        whole = refl;
        passed = tt;
        holds = line_value_sound name line value (fields line) refl (ground arith);
      }
      | inl missing ↦
          let later = find_value_sound name value lines (ground arith) in
          record {
            before = line ∷ later.before;
            line = later.line;
            after = later.after;
            whole = ap (λ (l : List Bytes). line ∷ l) later.whole;
            passed = ((λ v held. cc (missing, line_value_complete name line v held)), later.passed);
            holds = later.holds;
          }
    ]

find_value_first :
    (name value line : Bytes) (before after : List Bytes)
    → All (λ l. (v : Bytes) → ¬ Holds name l v) before
    → Holds name line value
    → find_value (name ++ b':' ∷ []) (before ++ line ∷ after) ≡ some value
unfolding find_value
find_value_first name value line [] after passed holds =
    rw (line_value_complete name line value holds)
find_value_first name value line (l ∷ before) after passed holds =
    elim (Option-cases (line_value (name ++ b':' ∷ []) (fields l))) [
      | inr (v, here) ↦ absurd (passed.0 v (line_value_sound name l v (fields l) refl here))
      | inl missing ↦ rw missing (find_value_first name value line before after passed.1 holds)
    ]

found_sound : (value : Bytes) (o : Option Bytes) → found o ≡ ok value → o ≡ some value
found_sound value (some v) h = ap some (ok-injective h)
found_sound value none h = cc

-- The value of a field is that of the first line whose first field is the name and a colon and that has
-- more fields, which are joined by commas; with no such line it is missing.
pub status_field_iff :
    (status name value : Bytes)
    → (status_field status name ≡ ok value) ↔ IsFirst name value (split 10 status)
unfolding status_field
status_field_iff status name value = (
  (λ h. find_value_sound name value (split 10 status) (found_sound value _ h)),
  λ h. ap found (
      ap (find_value (name ++ b':' ∷ [])) h.whole
      ∙ find_value_first name value h.line h.before h.after h.passed h.holds),
)
