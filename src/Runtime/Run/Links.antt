-- ===== src/Runtime/Run/Links.antt =====
-- The guest's ends of the virtual links that a trace has made.
use kernlet.Common.{
  ℕ, [], ◌∷◌, ◌++◌, Bytes, Bool, true, false, Option, none, some, equal, equal→eq, Bool-cases, inl,
  inr, ◌==◌, if◌then◌else◌, ◌≡◌, sym, ap, ◌∙◌, arith,
}
use kernlet.Sys.{
  Call, done, failed, gave, counted, tested, Trace, Io, link_add, link_by_name, link_del,
}
use kernlet.Sys.Only.{Only, Makes}
use kernlet.Sys.Moves.{Moves, Chains}

-- The index that the latest lookup of the name has answered, if it was found.
unfoldable pub latest_index : Bytes → Trace → Option ℕ
latest_index name [] = none
latest_index name (counted (link_by_name n) i ∷ t) =
    let rest = latest_index name t in if equal n name then some i else rest
latest_index name (_ ∷ t) = latest_index name t

abbrev pub is_index : ℕ → Option ℕ → Bool
is_index i none = false
is_index i (some j) = i == j

-- The guest's end of this name was made, and since then it was not looked up in vain, and its deletion
-- was not tried.
unfoldable pub is_left : Bytes → Trace → Bool
unfolding latest_index
is_left name [] = false
is_left name (done (link_add guest peer) ∷ t) =
    let rest = is_left name t in if equal guest name then true else rest
is_left name (done (link_del i) ∷ t) =
    let rest = is_left name t in if is_index i (latest_index name t) then false else rest
is_left name (failed (link_del i) ∷ t) =
    let rest = is_left name t in if is_index i (latest_index name t) then false else rest
is_left name (failed (link_by_name n) ∷ t) =
    let rest = is_left name t in if equal n name then false else rest
is_left name (_ ∷ t) = is_left name t

abbrev pub NoLink : Call → Type 0
NoLink (link_add guest peer) = ⊥
NoLink _ = Unit

-- Every link that is left after the later events was left before them.
pub record LeavesNone (t u : Trace) : Type 0 where
  pub at : (name : Bytes) → is_left name u ≡ true → is_left name t ≡ true

done_lem :
    (name : Bytes) (c : Call) (t : Trace)
    → NoLink c
    → is_left name (done c ∷ t) ≡ true
    → is_left name t ≡ true
unfolding is_left
done_lem name (link_add guest peer) t h l = absurd h
done_lem name (link_del i) t h l = ground arith
done_lem name _ t h l = l

failed_lem :
    (name : Bytes) (c : Call) (t : Trace)
    → is_left name (failed c ∷ t) ≡ true
    → is_left name t ≡ true
unfolding is_left
failed_lem name (link_by_name n) t l = ground arith
failed_lem name (link_del i) t l = ground arith
failed_lem name _ t l = l

is_left-Only :
    (name : Bytes) (new t : Trace)
    → Only NoLink new
    → is_left name (new ++ t) ≡ true
    → is_left name t ≡ true
unfolding is_left
is_left-Only name [] t h l = l
is_left-Only name (done c ∷ new) t h l =
    is_left-Only name new t h.1 (done_lem name c (new ++ t) h.0 l)
is_left-Only name (failed c ∷ new) t h l =
    is_left-Only name new t h.1 (failed_lem name c (new ++ t) l)
is_left-Only name (gave c b ∷ new) t h l = is_left-Only name new t h.1 l
is_left-Only name (counted c n ∷ new) t h l = is_left-Only name new t h.1 l
is_left-Only name (tested c b ∷ new) t h l = is_left-Only name new t h.1 l

pub LeavesNone-Chains : Chains LeavesNone
LeavesNone-Chains = record {
  same = λ t. record { at = λ name l. l };
  both = λ h k. record { at = λ name l. h.at name (k.at name l) };
}

-- Whatever the system answers, the code leaves no link behind that it has made.
abbrev pub Unlinks : {A : Type 0} → Io A → Type 0
Unlinks m = Moves LeavesNone m

module _ {A : Type 0} where
  pub no_link : (m : Io A) (t : Trace) → Makes NoLink m → LeavesNone t (m t).1
  no_link m t h =
      let e = h.at t in
      record {
        at = λ name l. is_left-Only name e.new t e.kind (ap (is_left name) (sym e.whole) ∙ l);
      }

  pub Unlinks-NoLink : (m : Io A) → Makes NoLink m → Unlinks m
  Unlinks-NoLink m h = record { at = λ t. no_link m t h }

-- Nothing is left but the one name.
pub record LeavesOne (name : Bytes) (t u : Trace) : Type 0 where
  pub at :
      (other : Bytes) → equal name other ≡ false → is_left other u ≡ true → is_left other t ≡ true

-- The name is gone, and nothing else is left.
pub LeavesOne-gone :
    (name : Bytes) (t u : Trace) → LeavesOne name t u → is_left name u ≡ false → LeavesNone t u
LeavesOne-gone name t u h gone = record {
  at = λ other l. elim (Bool-cases (equal name other)) [
    | inl same ↦
        let e : is_left other u ≡ is_left name u =
          ap (λ (n : Bytes). is_left n u) (sym (equal→eq name other same)) in
        cc (l, e, gone)
    | inr different ↦ h.at other different l
  ];
}
