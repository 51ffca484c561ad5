-- ===== src/Sys.antt =====
-- The system that the program runs on. A call's answer is a function of the call and of all events
-- before it, so a statement for every `Os` is one for every behaviour of the kernel and the file system.
mod Calls
pub mod Only
pub mod Returns
pub mod Cases
pub mod Steps
pub mod Has
pub mod Known
pub mod Moves
pub mod Works
pub use Calls.*
use kernlet.Common.{ℕ, String, Bool, List, [], ◌∷◌, Bytes, Error, Result, ok, err, wrap}

-- What happened: a call succeeded, with the value that it returned, or it failed.
pub data Event : Type 0 where
  done failed : Call → Event
  gave : Call → Bytes → Event
  counted : Call → ℕ → Event
  tested : Call → Bool → Event

-- The events so far, the latest first.
abbrev pub Trace : Type 0
Trace = List Event

-- One function for each type of answer.
pub record Os : Type 0 where
  pub act_answer : Trace → Call → Result (Unit {0})
  pub text_answer : Trace → Call → Result Bytes
  pub number_answer : Trace → Call → Result ℕ
  pub flag_answer : Trace → Call → Result Bool
  -- What the child process has written to its output by now.
  pub captured : Trace → Bytes

-- Code that makes system calls. The events come back beside an error too.
abbrev pub Io : Type 0 → Type 0
Io A = Trace → Result A × Trace

module _ {A : Type 0} where
  abbrev answer : (A → Event) → Event → Result A → Trace → Result A × Trace
  answer event failure (ok a) t = (ok a, event a ∷ t)
  answer event failure (err e) t = (err e, failure ∷ t)

module _ (os : Os) where
  -- A call that returns nothing but an error.
  pub act : Call → Io (Unit {0})
  act c t = answer (λ _. done c) (failed c) (os.act_answer t c) t

  pub text : Call → Io Bytes
  text c t = answer (gave c) (failed c) (os.text_answer t c) t

  pub number : Call → Io ℕ
  number c t = answer (counted c) (failed c) (os.number_answer t c) t

  pub flag : Call → Io Bool
  flag c t = answer (tested c) (failed c) (os.flag_answer t c) t

module _ {A : Type 0} where
  pub pure : A → Io A
  pure a t = (ok a, t)

  pub lift : Result A → Io A
  lift r t = (r, t)

  abbrev wrapped : String → Result A × Trace → Result A × Trace
  wrapped text (ok a, t) = (ok a, t)
  wrapped text (err e, t) = (err (wrap text e), t)

  -- `if err != nil { return fmt.Errorf("context: %w", err) }`
  pub within_io : String → Io A → Io A
  within_io text m t = wrapped text (m t)

  -- `_ = f()`: the error is dropped.
  pub ignore : Io A → Io (Unit {0})
  ignore m t = (ok tt, (m t).1)

  -- The error as a value, for code that goes on before it looks at it.
  pub attempt : Io A → Io (Result A)
  attempt m t = (ok (m t).0, (m t).1)

module _ {A B : Type 0} where
  abbrev cleaned : Result A × Trace → Io B → Result A × Trace
  cleaned (ok a, t) m = (ok a, t)
  cleaned (err e, t) m = (err e, (m t).1)

  -- `if err != nil { cleanup(); return err }`: the errors of the cleanup are dropped.
  pub on_error : Io A → Io B → Io A
  on_error m cleanup t = cleaned (m t) cleanup

  -- `defer cleanup()`, where the error of the cleanup is dropped.
  pub deferred : Io A → Io B → Io A
  deferred m cleanup t = ((m t).0, (cleanup (m t).1).1)

  abbrev continue : Result A × Trace → (A → Io B) → Result B × Trace
  continue (ok a, t) f = f a t
  continue (err e, t) f = (err e, t)

  infixl 5 ◌>>=◌ ◌>>◌
  -- Opening this opens the other ways to build code too.
  unfoldable pub ◌>>=◌ : Io A → (A → Io B) → Io B
  unfolding act text number flag pure lift within_io ignore attempt on_error deferred
  ◌>>=◌ m f t = continue (m t) f

  abbrev pub ◌>>◌ : Io A → Io B → Io B
  m >> k = m >>= λ _. k
