-- ===== src/Sys/Works.antt =====
-- Code that succeeds, on a system whose calls succeed.
use mathlib.Core.Path.{subst}
use kernlet.Common.{ℕ, String, Bytes, true, Result, ok, err, ◌∷◌, ◌≡◌, refl}
use kernlet.Sys.{
  Call, done, Trace, Os, Io, act, text, number, flag, pure, within_io, ignore, attempt, on_error,
  deferred, ◌>>=◌, stat, mkdir_temp, read_file, write_file,
}
use kernlet.Sys.Cases.{bind_after, within_after, on_error_cases}

-- What `Good` says of the result and the trace; there is no failure.
abbrev pub Total : {A : Type 0} → (A → Trace → Type 0) → Result A × Trace → Type 0
Total Good (ok a, u) = Good a u
Total Good (err e, u) = ⊥

abbrev pub Any : {A : Type 0} → A → Trace → Type 0
Any a u = Unit

-- The code succeeds, whatever happened before.
pub record Works {A : Type 0} (m : Io A) : Type 0 where
  pub at : (t : Trace) → Total Any (m t)

module _ {A : Type 0} where
  other_trace :
      (Good : A → Type 0) (r : Result A × Trace) (v : Trace)
      → Total (λ a u. Good a) r
      → Total (λ a u. Good a) (r.0, v)
  other_trace Good (ok a, u) v h = h
  other_trace Good (err e, u) v h = h

module _ {A B : Type 0} where
  -- The rest of a block whose first part is known.
  pub Total-bind :
      (Known : A → Trace → Type 0) (Good : B → Trace → Type 0) (m : Io A) (f : A → Io B) (t : Trace)
      → Total Known (m t)
      → ((a : A) (u : Trace) → Known a u → Total Good (f a u))
      → Total Good ((m >>= f) t)
  Total-bind Known Good m f t h rest = bind_after (Total Known) (Total Good) m f t h rest λ e u g. g

  pub Works-bind : (m : Io A) (f : A → Io B) → Works m → ((a : A) → Works (f a)) → Works (m >>= f)
  Works-bind m f h k = record { at = λ t. Total-bind Any Any m f t (h.at t) λ a u _. (k a).at u }

  pub Total-deferred :
      (Good : A → Type 0) (m : Io A) (cleanup : Io B) (t : Trace)
      → Total (λ a u. Good a) (m t)
      → Total (λ a u. Good a) (deferred m cleanup t)
  unfolding ◌>>=◌
  Total-deferred Good m cleanup t h = other_trace Good (m t) (cleanup (m t).1).1 h

  pub Total-on_error :
      (Good : A → Trace → Type 0) (m : Io A) (cleanup : Io B) (t : Trace)
      → Total Good (m t)
      → Total Good (on_error m cleanup t)
  Total-on_error Good m cleanup t h =
      on_error_cases (Total Good) m cleanup t (λ a u e. subst (Total Good) e h)
        λ x u e. absurd (subst (Total Good) e h)

  pub Works-on_error : (m : Io A) (cleanup : Io B) → Works m → Works (on_error m cleanup)
  Works-on_error m cleanup h = record { at = λ t. Total-on_error Any m cleanup t (h.at t) }

module _ {A : Type 0} where
  pub Works-pure : (a : A) → Works (pure a)
  unfolding ◌>>=◌
  Works-pure a = record { at = λ t. tt }

  pub Total-within :
      (Good : A → Trace → Type 0) (context : String) (m : Io A) (t : Trace)
      → Total Good (m t)
      → Total Good (within_io context m t)
  Total-within Good context m t h =
      within_after (Total Good) (Total Good) context m t h (λ a u g. g) λ e u g. g

  pub Works-within_io : (context : String) (m : Io A) → Works m → Works (within_io context m)
  Works-within_io context m h = record { at = λ t. Total-within Any context m t (h.at t) }

  pub Works-ignore : (m : Io A) → Works (ignore m)
  unfolding ◌>>=◌
  Works-ignore m = record { at = λ t. tt }

  -- The result as a value is no error.
  pub Total-attempt :
      (Good : A → Trace → Type 0) (m : Io A) (t : Trace)
      → Total Good (m t)
      → Total (λ r u. Total Good (r, u)) (attempt m t)
  unfolding ◌>>=◌
  Total-attempt Good m t h = h

-- Every call without a value succeeds, every number is delivered, and every path is a directory's.
pub record IsWilling (os : Os) : Type 0 where
  pub acts : (t : Trace) (c : Call) → os.act_answer t c ≡ ok tt
  pub value : Trace → Call → ℕ
  pub numbers : (t : Trace) (c : Call) → os.number_answer t c ≡ ok (value t c)
  pub directories : (t : Trace) (path : Bytes) → os.flag_answer t (stat path) ≡ ok true

-- A new directory has some path, and a file reads as what was just written to it.
pub record HasFiles (os : Os) : Type 0 where
  pub fresh : Trace → Bytes
  pub makes :
      (t : Trace) (parent pattern : Bytes)
      → os.text_answer t (mkdir_temp parent pattern) ≡ ok (fresh t)
  pub reads :
      (t : Trace) (path content : Bytes) (mode : ℕ)
      → os.text_answer (done (write_file path content mode) ∷ t) (read_file path) ≡ ok content

module _ (os : Os) (willing : IsWilling os) where
  pub Total-act : (c : Call) (t : Trace) → Total (λ _ u. u ≡ done c ∷ t) (act os c t)
  unfolding ◌>>=◌
  Total-act c t = rw (willing.acts t c) refl

  pub Works-act : (c : Call) → Works (act os c)
  unfolding ◌>>=◌
  Works-act c = record { at = λ t. rw (willing.acts t c) tt }

  pub Works-number : (c : Call) → Works (number os c)
  unfolding ◌>>=◌
  Works-number c = record { at = λ t. rw (willing.numbers t c) tt }

  pub Total-stat : (path : Bytes) (t : Trace) → Total (λ b u. b ≡ true) (flag os (stat path) t)
  unfolding ◌>>=◌
  Total-stat path t = rw (willing.directories t path) refl

module _ (os : Os) (files : HasFiles os) where
  pub Total-fresh :
      (parent pattern : Bytes) (t : Trace) → Total Any (text os (mkdir_temp parent pattern) t)
  unfolding ◌>>=◌
  Total-fresh parent pattern t = rw (files.makes t parent pattern) tt

  pub Total-read :
      (path content : Bytes) (mode : ℕ) (t : Trace)
      → Total
          (λ b u. b ≡ content)
          (text os (read_file path) (done (write_file path content mode) ∷ t))
  unfolding ◌>>=◌
  Total-read path content mode t = rw (files.reads t path content mode) refl
