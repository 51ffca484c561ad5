-- ===== src/Runtime/Link/Environment.antt =====
-- What the workload finds in its environment.
use kernlet.Common.{
  List, [], ◌∷◌, ◌++◌, Bytes, codes, true, false, Option, none, some, equal, equal→eq, eq→equal,
  if◌then◌else◌, ◌≡◌, refl, sym, ◌∙◌, arith, Bool-cases, inl, inr,
}
use kernlet.Text.Split.{has_prefix, contains}
use kernlet.Runtime.Link.{gateway_prefix, keep_others, workload_environment}

-- The rest of the text behind a prefix that it has.
pub behind : Bytes → Bytes → Bytes
behind [] s = s
behind (a ∷ p) [] = []
behind (a ∷ p) (b ∷ s) = behind p s

abbrev pub or_else : Option Bytes → Option Bytes → Option Bytes
or_else none other = other
or_else (some value) other = some value

or_else-none : (first : Option Bytes) → or_else first none ≡ first
or_else-none none = refl
or_else-none (some value) = refl

-- The value of an entry, if it is one of the name.
pub value_of : Bytes → Bytes → Option Bytes
value_of name entry =
    if has_prefix (name ++ b'=' ∷ []) entry then some (behind (name ++ b'=' ∷ []) entry) else none

-- os.Getenv in a process that os/exec has started with this environment: the value of the last entry of
-- the name, which is the only one that os/exec passes on.
pub lookup : Bytes → List Bytes → Option Bytes
lookup name [] = none
lookup name (entry ∷ environment) = or_else (lookup name environment) (value_of name entry)

abbrev pub gateway_name : Bytes
gateway_name = codes "KERNLET_GATEWAY"

-- An entry has one name.
same_name :
    (a b entry : Bytes)
    → contains b'=' a ≡ false
    → contains b'=' b ≡ false
    → has_prefix (a ++ b'=' ∷ []) entry ≡ true
    → has_prefix (b ++ b'=' ∷ []) entry ≡ true
    → a ≡ b
unfolding has_prefix contains
same_name [] [] entry ha hb pa pb = refl
same_name [] (y ∷ b) [] ha hb pa pb = cc
same_name [] (y ∷ b) (c ∷ entry) ha hb pa pb = ground arith
same_name (x ∷ a) [] [] ha hb pa pb = cc
same_name (x ∷ a) [] (c ∷ entry) ha hb pa pb = ground arith
same_name (x ∷ a) (y ∷ b) [] ha hb pa pb = cc
same_name (x ∷ a) (y ∷ b) (c ∷ entry) ha hb pa pb = ground (arith, same_name a b entry)

gateway_name-plain : contains b'=' gateway_name ≡ false
unfolding contains
gateway_name-plain = refl

-- An entry of the gateway is none of another name.
other_name :
    (name entry : Bytes)
    → contains b'=' name ≡ false
    → equal name gateway_name ≡ false
    → has_prefix gateway_prefix entry ≡ true
    → has_prefix (name ++ b'=' ∷ []) entry ≡ false
other_name name entry plain other gateway =
    elim (Bool-cases (has_prefix (name ++ b'=' ∷ []) entry)) [
      | inr no_entry ↦ no_entry
      | inl entry_too ↦
          let e = same_name name gateway_name entry plain gateway_name-plain entry_too gateway in
          cc (other, eq→equal name gateway_name e)
    ]

prefix-append : (p s : Bytes) → (has_prefix p (p ++ s) ≡ true) × (behind p (p ++ s) ≡ s)
unfolding has_prefix behind
prefix-append [] s = (refl, refl)
prefix-append (a ∷ p) s = ground (arith, prefix-append p s)

value_of-gateway :
    (gateway : Bytes) → value_of gateway_name (gateway_prefix ++ gateway) ≡ some gateway
unfolding value_of
value_of-gateway gateway =
    rw ((prefix-append gateway_prefix gateway).0, (prefix-append gateway_prefix gateway).1) refl

lookup-gateway :
    (environment : List Bytes) (gateway : Bytes)
    → lookup gateway_name (keep_others environment ++ (gateway_prefix ++ gateway) ∷ [])
      ≡ some gateway
unfolding lookup keep_others
lookup-gateway [] gateway = value_of-gateway gateway
lookup-gateway (entry ∷ environment) gateway = elim (Bool-cases (has_prefix gateway_prefix entry)) [
  | inl gone ↦ rw gone (lookup-gateway environment gateway)
  | inr kept ↦ rw (kept, lookup-gateway environment gateway) refl
]

-- An entry of the gateway has no value of another name.
value_of-other :
    (name entry : Bytes)
    → contains b'=' name ≡ false
    → equal name gateway_name ≡ false
    → has_prefix gateway_prefix entry ≡ true
    → value_of name entry ≡ none
unfolding value_of
value_of-other name entry plain other gateway = rw (other_name name entry plain other gateway) refl

lookup-other :
    (name : Bytes) (environment : List Bytes) (gateway : Bytes)
    → contains b'=' name ≡ false
    → equal name gateway_name ≡ false
    → lookup name (keep_others environment ++ (gateway_prefix ++ gateway) ∷ [])
      ≡ lookup name environment
unfolding lookup keep_others
lookup-other name [] gateway plain other =
    value_of-other name (gateway_prefix ++ gateway) plain other
      (prefix-append gateway_prefix gateway).0
lookup-other name (entry ∷ environment) gateway plain other =
    elim (Bool-cases (has_prefix gateway_prefix entry)) [
      | inl gone ↦
          rw (gone, value_of-other name entry plain other gone)
            (lookup-other name environment gateway plain other
              ∙ sym (or_else-none (lookup name environment)))
      | inr kept ↦ rw (kept, lookup-other name environment gateway plain other) refl
    ]

-- Whatever the environment of the image holds, the workload finds the gateway of its network under
-- KERNLET_GATEWAY, and under every other name it finds what the image gives.
pub lookup-workload_environment :
    (name : Bytes) (environment : List Bytes) (gateway : Bytes)
    → contains b'=' name ≡ false
    → lookup name (workload_environment environment gateway)
      ≡ (if equal name gateway_name then some gateway else lookup name environment)
unfolding workload_environment
lookup-workload_environment name environment gateway plain =
    elim (Bool-cases (equal name gateway_name)) [
      | inl same ↦ rw (same, equal→eq name gateway_name same) (lookup-gateway environment gateway)
      | inr other ↦ rw other (lookup-other name environment gateway plain other)
    ]
