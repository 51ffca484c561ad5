-- ===== src/Text/Fields.antt =====
-- strings.Fields and strings.TrimSpace of ASCII text, and strings.Join with a space.
use kernlet.Common.{ℕ, List, [], ◌∷◌, Bytes, Bool, true, false, ◌||◌, ◌==◌, if◌then◌else◌, reverse}
use kernlet.Text.Split.{join, extend}

pub is_space : ℕ → Bool
is_space c = c == b' ' || c == 9 || c == 10 || c == 11 || c == 12 || c == 13

-- Whether the text begins with a field.
abbrev starts : Bytes → Bool
starts [] = false
starts (c ∷ s) = if is_space c then false else true

-- strings.Fields
unfoldable pub fields : Bytes → List Bytes
unfolding is_space
fields [] = []
fields (c ∷ s) =
    let rest = fields s in
    if is_space c then rest else if starts s then extend c rest else (c ∷ []) ∷ rest

-- strings.Join(strings.Fields(s), " ")
unfoldable pub normalize : Bytes → Bytes
unfolding fields
normalize s = join b' ' (fields s)

trim_left : Bytes → Bytes
trim_left [] = []
trim_left (c ∷ s) = let rest = trim_left s in if is_space c then rest else c ∷ s

-- strings.TrimSpace
unfoldable pub trim_space : Bytes → Bytes
unfolding trim_left is_space
trim_space s = reverse (trim_left (reverse (trim_left s)))
