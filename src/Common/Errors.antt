-- ===== src/Common/Errors.antt =====
-- Go's `(value, error)` results. An error keeps the fixed text of its message: what a verb of the
-- format string puts into the text is left out.
use Prim.Native.Nat.{ℕ}
use mathlib.Core.List.{List}
use Prim.Native.String.{String}
use mathlib.Core.Path.{◌≡◌, refl, ap}
use mathlib.Core.Bool.{Bool, true, false}

-- `errno` is an error of the system, `described` is errors.New of a computed text, `wrap` is
-- fmt.Errorf("context: %w", err), and `join` is errors.Join.
pub data Error : Type 0 where
  errno : ℕ → Error
  fault : String → Error
  described : List ℕ → Error
  wrap : String → Error → Error
  join : Error → Error → Error

pub data Result {ℓ} (A : Type ℓ) : Type ℓ where
  ok : A → Result A
  err : Error → Result A

-- `if test { return fmt.Errorf(message) }`
abbrev pub fail_if : Bool → String → Result (Unit {0})
fail_if true message = err (fault message)
fail_if false message = ok tt

-- `if err != nil { return fmt.Errorf("context: %w", err) }`
abbrev pub within {ℓ} : {A : Type ℓ} → String → Result A → Result A
within context (ok a) = ok a
within context (err e) = err (wrap context e)

infixl 5 ◌>>=◌ ◌>>◌
-- `value, err := m; if err != nil { return err }`
abbrev pub ◌>>=◌ {ℓ κ} :
    {From : Type ℓ} {To : Type κ} → Result From → (From → Result To) → Result To
ok value >>= rest = rest value
err error >>= rest = err error

abbrev pub ◌>>◌ {ℓ} : {To : Type ℓ} → Result (Unit {0}) → Result To → Result To
check >> rest = check >>= λ _. rest

-- A block that succeeds is one whose first part does.
pub >>=-eq-ok {ℓ κ} :
    {From : Type ℓ} {To : Type κ} (m : Result From) (rest : From → Result To) {result : To}
    → (m >>= rest) ≡ ok result
    → (value : From) × (m ≡ ok value) × (rest value ≡ ok result)
>>=-eq-ok (ok value) rest h = (value, refl, h)
>>=-eq-ok (err error) rest h = cc

pub within-eq-ok {ℓ} :
    {A : Type ℓ} (context : String) (r : Result A) (a : A) → within context r ≡ ok a → r ≡ ok a
within-eq-ok context (ok b) a h = h
within-eq-ok context (err e) a h = cc

pub ok-injective {ℓ} : {A : Type ℓ} {a b : A} → ok a ≡ ok b → a ≡ b
ok-injective {a = a} e = ap (λ r. elim r [ ok x ↦ x | err x ↦ a ]) e
