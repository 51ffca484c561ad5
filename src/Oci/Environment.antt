-- ===== src/Oci/Environment.antt =====
-- validateEnvironment: every entry is NAME=VALUE, with a name, and holds no null byte.
use kernlet.Common.{
  ℕ, List, [], ◌∷◌, ◌++◌, Bytes, none, some, false, ◌||◌, Result, ok, err, fault, equal,
  if◌then◌else◌, ◌≡◌, ◌≢◌, ◌↔◌, refl, arith, Option-cases, inl, inr, All, Lacks, ◌>>◌, >>=-eq-ok,
}
use kernlet.Text.Split.{cut, contains, cut_sound, cut-append}

validate_entry : Bytes → Result (Unit {0})
validate_entry entry = elim (cut b'=' entry) [
  | none ↦ err (fault "invalid image environment entry")
  | some (name, _) ↦
      if equal name []
      then err (fault "invalid image environment entry")
      else if contains 0 name || contains 0 entry
      then err (fault "image environment contains a null byte")
      else ok tt
]

unfoldable pub validate_environment : List Bytes → Result (Unit {0})
unfolding validate_entry
validate_environment [] = ok tt
validate_environment (entry ∷ environment) =
    let rest = validate_environment environment in (validate_entry entry >> rest)

-- A nonempty name without `=`, then `=` and the value; no null byte in the whole.
pub record IsEntry (entry : Bytes) : Type 0 where
  pub name : Bytes
  pub setting : Bytes
  pub spelled : entry ≡ name ++ b'=' ∷ setting
  pub named : name ≢ []
  pub name_clear : Lacks b'=' name
  pub no_null : Lacks 0 entry

contains-false : (b : ℕ) (s : Bytes) → contains b s ≡ false → Lacks b s
unfolding contains
contains-false b [] h = tt
contains-false b (c ∷ s) h = ground (arith, contains-false b s)

Lacks-contains : (b : ℕ) (s : Bytes) → Lacks b s → contains b s ≡ false
unfolding contains
Lacks-contains b [] h = refl
Lacks-contains b (c ∷ s) h = ground (arith, Lacks-contains b s h.1)

Lacks-front : (b : ℕ) (s t : Bytes) → Lacks b (s ++ t) → Lacks b s
Lacks-front b [] t h = tt
Lacks-front b (c ∷ s) t h = (h.0, Lacks-front b s t h.1)

equal-nil : (s : Bytes) → equal s [] ≡ false → s ≢ []
unfolding equal
equal-nil [] h = cc
equal-nil (c ∷ s) h = λ e. cc

nil-equal : (s : Bytes) → s ≢ [] → equal s [] ≡ false
unfolding equal
nil-equal [] h = absurd (h refl)
nil-equal (c ∷ s) h = refl

IsEntry-sound : (entry : Bytes) → validate_entry entry ≡ ok tt → IsEntry entry
unfolding validate_entry
IsEntry-sound entry h = elim (Option-cases (cut b'=' entry)) [
  | inl missing ↦ ground arith
  | inr ((name, setting), found) ↦
      let (spelled, clear) = cut_sound b'=' entry name setting found in
      let tests : (equal name [] ≡ false) × (contains 0 entry ≡ false) = ground arith in
      record {
        name = name;
        setting = setting;
        spelled = spelled;
        named = equal-nil name tests.0;
        name_clear = clear;
        no_null = contains-false 0 entry tests.1;
      }
]

entry_complete : (entry : Bytes) → IsEntry entry → validate_entry entry ≡ ok tt
unfolding validate_entry
entry_complete entry h =
    let no_null = rw h.spelled at h.no_null in
    ground (
      arith,
      cut-append b'=' h.name h.setting h.name_clear,
      nil-equal h.name h.named,
      Lacks-contains 0 entry h.no_null,
      Lacks-contains 0 h.name (Lacks-front 0 h.name (b'=' ∷ h.setting) no_null),
    )

environment_sound :
    (environment : List Bytes) → validate_environment environment ≡ ok tt → All IsEntry environment
unfolding validate_environment
environment_sound [] h = tt
environment_sound (entry ∷ environment) h =
    let (_, valid, rest) =
      >>=-eq-ok (validate_entry entry) (λ _. validate_environment environment) h in
    (IsEntry-sound entry valid, environment_sound environment rest)

environment_complete :
    (environment : List Bytes) → All IsEntry environment → validate_environment environment ≡ ok tt
unfolding validate_environment
environment_complete [] h = refl
environment_complete (entry ∷ environment) h =
    rw (entry_complete entry h.0) (environment_complete environment h.1)

-- An environment is accepted exactly when every entry is a nonempty name without `=`, then `=` and
-- a value, with no null byte in either.
pub validate_environment_iff :
    (environment : List Bytes)
    → (validate_environment environment ≡ ok tt) ↔ All IsEntry environment
validate_environment_iff environment =
    (environment_sound environment, environment_complete environment)
