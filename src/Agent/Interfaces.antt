-- ===== src/Agent/Interfaces.antt =====
-- networkInterfaceSummary: the interfaces of the process, by name.
use mathlib.Core.List.Perm
use mathlib.Core.Logic.{∥∥₁_elim}
use mathlib.Core.List.{Perm, Permᴰ}
use kernlet.Common.{
  ℕ, ◌%◌, List, [], ◌∷◌, ◌++◌, map, Bytes, codes, Bool, true, false, ◌&&◌, ◌||◌, Result, ok, within,
  ltb, ◌==◌, if◌then◌else◌, ◌≡◌, refl, sym, ap, ◌∙◌, arith, ◌>>=◌, Bool-cases, inl, inr,
  ok-injective,
}
use kernlet.Text.Split.{join}

-- net.Interface: its name, and the bits of its flags.
pub record Interface : Type 0 where
  pub name : Bytes
  pub flags : ℕ

-- `Flags&net.FlagUp != 0`, where net.FlagUp is the lowest bit.
abbrev pub state : Interface → Bytes
state i = if i.flags % 2 == 0 then codes "down" else codes "up"

abbrev pub label : Interface → Bytes
label i = i.name ++ b':' ∷ state i

-- The order of strings: byte by byte.
pub at_most : Bytes → Bytes → Bool
at_most [] t = true
at_most (a ∷ s) [] = false
at_most (a ∷ s) (b ∷ t) = ltb a b || (a == b && at_most s t)

insert_string : Bytes → List Bytes → List Bytes
unfolding at_most
insert_string s [] = s ∷ []
insert_string s (t ∷ list) =
    let rest = insert_string s list in if at_most s t then s ∷ t ∷ list else t ∷ rest

-- sort.Strings, whose result is determined by the order.
sort_strings : List Bytes → List Bytes
unfolding insert_string
sort_strings [] = []
sort_strings (s ∷ list) = insert_string s (sort_strings list)

-- The result of net.Interfaces is the parameter.
unfoldable pub network_interface_summary : Result (List Interface) → Result Bytes
unfolding sort_strings
network_interface_summary interfaces = do
  list ← within "list network interfaces" interfaces
  ok (join b',' (sort_strings (map label list)))

at_most_total : (s t : Bytes) → (at_most s t || at_most t s) ≡ true
unfolding at_most
at_most_total [] t = refl
at_most_total (a ∷ s) [] = refl
at_most_total (a ∷ s) (b ∷ t) = ground (arith, at_most_total s t)

at_most_antisym : (s t : Bytes) → at_most s t ≡ true → at_most t s ≡ true → s ≡ t
unfolding at_most
at_most_antisym [] [] h k = refl
at_most_antisym [] (b ∷ t) h k = ground arith
at_most_antisym (a ∷ s) [] h k = ground arith
at_most_antisym (a ∷ s) (b ∷ t) h k = ground (arith, at_most_antisym s t)

at_most_trans : (s t u : Bytes) → at_most s t ≡ true → at_most t u ≡ true → at_most s u ≡ true
unfolding at_most
at_most_trans [] t u h k = refl
at_most_trans (a ∷ s) [] u h k = ground arith
at_most_trans (a ∷ s) (b ∷ t) [] h k = ground arith
at_most_trans (a ∷ s) (b ∷ t) (c ∷ u) h k = ground (arith, at_most_trans s t u)

insert_comm :
    (s t : Bytes) (list : List Bytes)
    → insert_string s (insert_string t list) ≡ insert_string t (insert_string s list)
unfolding insert_string
insert_comm s t [] = ground (arith, at_most_total s t, at_most_antisym s t)
insert_comm s t (u ∷ list) = ground (
  arith,
  at_most_total s t,
  at_most_antisym s t,
  at_most_trans s t u,
  at_most_trans t s u,
  insert_comm s t list,
)

sort_swaps : {l m : List Bytes} → Permᴰ l m → sort_strings l ≡ sort_strings m
unfolding sort_strings
sort_swaps Permᴰ.nil = refl
sort_swaps (Permᴰ.cons {a} {b} {l₁ = l} {l₂ = m} e p) =
    ap (λ (s : Bytes). insert_string s (sort_strings l)) e ∙ ap (insert_string b) (sort_swaps p)
sort_swaps (Permᴰ.swap {a} {b} {a'} {b'} {l} e f) =
    insert_comm a b (sort_strings l)
    ∙ ap (λ (s : Bytes). insert_string s (insert_string a (sort_strings l))) f
    ∙ ap (λ (s : Bytes). insert_string a' (insert_string s (sort_strings l))) e
sort_swaps (Permᴰ.trans p q) = sort_swaps p ∙ sort_swaps q

sort-Perm : {l m : List Bytes} → Perm l m → sort_strings l ≡ sort_strings m
sort-Perm {l} {m} p = ∥∥₁_elim p (hlevel) sort_swaps

abbrev pub IsAscending : List Bytes → Type 0
IsAscending [] = Unit
IsAscending (s ∷ []) = Unit
IsAscending (s ∷ t ∷ list) = (at_most s t ≡ true) × IsAscending (t ∷ list)

insert_string-IsAscending :
    (s : Bytes) (list : List Bytes) → IsAscending list → IsAscending (insert_string s list)
unfolding insert_string
insert_string-IsAscending s [] h = tt
insert_string-IsAscending s (t ∷ []) h = ground (arith, at_most_total s t)
insert_string-IsAscending s (t ∷ u ∷ list) h =
    ground (arith, at_most_total s t, at_most_total s u, insert_string-IsAscending s (u ∷ list))

sort_strings-IsAscending : (list : List Bytes) → IsAscending (sort_strings list)
unfolding sort_strings
sort_strings-IsAscending [] = tt
sort_strings-IsAscending (s ∷ list) =
    insert_string-IsAscending s (sort_strings list) (sort_strings-IsAscending list)

insert_string-Perm : (s : Bytes) (list : List Bytes) → Perm (insert_string s list) (s ∷ list)
unfolding insert_string
insert_string-Perm s [] = Perm.rfl
insert_string-Perm s (t ∷ list) = elim (Bool-cases (at_most s t)) [
  | inl first ↦ rw (first, insert_string) Perm.rfl
  | inr later ↦
      rw (later, insert_string)
        (Perm.trans (Perm.cons t (insert_string-Perm s list)) (Perm.swap s t list))
]

sort_strings-Perm : (list : List Bytes) → Perm (sort_strings list) list
unfolding sort_strings
sort_strings-Perm [] = Perm.rfl
sort_strings-Perm (s ∷ list) =
    Perm.trans (insert_string-Perm s (sort_strings list)) (Perm.cons s (sort_strings-Perm list))

-- The summary of a list of interfaces: `NAME:STATE` of each of them, in ascending order.
pub record IsSummary (list : List Interface) (summary : Bytes) : Type 0 where
  pub labels : List Bytes
  pub ascending : IsAscending labels
  pub same : Perm labels (map label list)
  pub joined : summary ≡ join b',' labels

-- The summary joins the label of every interface, each as often as it occurs, in ascending order.
pub network_interface_summary-IsSummary :
    (list : List Interface) (summary : Bytes)
    → network_interface_summary (ok list) ≡ ok summary
    → IsSummary list summary
unfolding network_interface_summary
network_interface_summary-IsSummary list summary h = record {
  labels = sort_strings (map label list);
  ascending = sort_strings-IsAscending (map label list);
  same = sort_strings-Perm (map label list);
  joined = sym (ok-injective h);
}

-- The order in which the system lists the interfaces does not show in the summary.
pub network_interface_summary-Perm :
    (l m : List Interface)
    → Perm l m
    → network_interface_summary (ok l) ≡ network_interface_summary (ok m)
unfolding network_interface_summary
network_interface_summary-Perm l m p =
    ap (λ (s : List Bytes). ok (join b',' s)) (sort-Perm (Perm.map label p))
