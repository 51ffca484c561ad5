-- ===== src/Sys/Cases.antt =====
-- A statement about a run, by how its first part ended.
use kernlet.Common.{ℕ, String, Bytes, Error, Result, ok, err, wrap, ◌∷◌, ◌≡◌, refl}
use kernlet.Sys.{
  Call, Event, done, failed, gave, counted, Trace, Os, Io, act, text, number, pure, within_io,
  on_error, ◌>>=◌, answer, wrapped, cleaned, continue,
}

module _ {A : Type 0} (P : Result A × Trace → Type 0) where
  answer_cases :
      (event : A → Event) (failure : Event) (r : Result A) (t : Trace)
      → ((a : A) → P (ok a, event a ∷ t))
      → ((e : Error) → P (err e, failure ∷ t))
      → P (answer event failure r t)
  answer_cases event failure (ok a) t good bad = good a
  answer_cases event failure (err e) t good bad = bad e

  pub wrapped_cases :
      (context : String) (r : Result A × Trace)
      → ((a : A) (u : Trace) → r ≡ (ok a, u) → P (ok a, u))
      → ((e : Error) (u : Trace) → r ≡ (err e, u) → P (err (wrap context e), u))
      → P (wrapped context r)
  wrapped_cases context (ok a, u) good bad = good a u refl
  wrapped_cases context (err e, u) good bad = bad e u refl

  pub within_cases :
      (context : String) (m : Io A) (t : Trace)
      → ((a : A) (u : Trace) → m t ≡ (ok a, u) → P (ok a, u))
      → ((e : Error) (u : Trace) → m t ≡ (err e, u) → P (err (wrap context e), u))
      → P (within_io context m t)
  unfolding within_io
  within_cases context m t good bad = wrapped_cases context (m t) good bad

module _ (os : Os) (c : Call) (t : Trace) where
  pub act_cases :
      (P : Result (Unit {0}) × Trace → Type 0)
      → P (ok tt, done c ∷ t)
      → ((e : Error) → P (err e, failed c ∷ t))
      → P (act os c t)
  unfolding act
  act_cases P good bad = answer_cases P _ _ (os.act_answer t c) t (λ _. good) bad

  known :
      (P : Result ℕ × Trace → Type 0) (r : Result ℕ)
      → ((n : ℕ) → r ≡ ok n → P (ok n, counted c n ∷ t))
      → ((e : Error) → r ≡ err e → P (err e, failed c ∷ t))
      → P (answer (counted c) (failed c) r t)
  known P (ok n) good bad = good n refl
  known P (err e) good bad = bad e refl

  -- With the answer of the system.
  pub number_known :
      (P : Result ℕ × Trace → Type 0)
      → ((n : ℕ) → os.number_answer t c ≡ ok n → P (ok n, counted c n ∷ t))
      → ((e : Error) → os.number_answer t c ≡ err e → P (err e, failed c ∷ t))
      → P (number os c t)
  unfolding number
  number_known P good bad = known P (os.number_answer t c) good bad

  pub text_cases :
      (P : Result Bytes × Trace → Type 0)
      → ((b : Bytes) → P (ok b, gave c b ∷ t))
      → ((e : Error) → P (err e, failed c ∷ t))
      → P (text os c t)
  unfolding text
  text_cases P good bad = answer_cases P _ _ (os.text_answer t c) t good bad

  pub number_cases :
      (P : Result ℕ × Trace → Type 0)
      → ((n : ℕ) → P (ok n, counted c n ∷ t))
      → ((e : Error) → P (err e, failed c ∷ t))
      → P (number os c t)
  unfolding number
  number_cases P good bad = answer_cases P _ _ (os.number_answer t c) t good bad

module _ {A B : Type 0} where
  continue_cases :
      (P : Result B × Trace → Type 0) (r : Result A × Trace) (f : A → Io B)
      → ((a : A) (u : Trace) → r ≡ (ok a, u) → P (f a u))
      → ((e : Error) (u : Trace) → r ≡ (err e, u) → P (err e, u))
      → P (continue r f)
  continue_cases P (ok a, u) f good bad = good a u refl
  continue_cases P (err e, u) f good bad = bad e u refl

  pub bind_cases :
      (P : Result B × Trace → Type 0) (m : Io A) (f : A → Io B) (t : Trace)
      → ((a : A) (u : Trace) → m t ≡ (ok a, u) → P (f a u))
      → ((e : Error) (u : Trace) → m t ≡ (err e, u) → P (err e, u))
      → P ((m >>= f) t)
  unfolding ◌>>=◌
  bind_cases P m f t good bad = continue_cases P (m t) f good bad

  cleaned_cases :
      (P : Result A × Trace → Type 0) (r : Result A × Trace) (cleanup : Io B)
      → ((a : A) (u : Trace) → r ≡ (ok a, u) → P (ok a, u))
      → ((e : Error) (u : Trace) → r ≡ (err e, u) → P (err e, (cleanup u).1))
      → P (cleaned r cleanup)
  cleaned_cases P (ok a, u) cleanup good bad = good a u refl
  cleaned_cases P (err e, u) cleanup good bad = bad e u refl

  pub on_error_cases :
      (P : Result A × Trace → Type 0) (m : Io A) (cleanup : Io B) (t : Trace)
      → ((a : A) (u : Trace) → m t ≡ (ok a, u) → P (ok a, u))
      → ((e : Error) (u : Trace) → m t ≡ (err e, u) → P (err e, (cleanup u).1))
      → P (on_error m cleanup t)
  unfolding on_error
  on_error_cases P m cleanup t good bad = cleaned_cases P (m t) cleanup good bad

  continue_after :
      (M : Result A × Trace → Type 0) (P : Result B × Trace → Type 0) (r : Result A × Trace)
      (f : A → Io B)
      → M r
      → ((a : A) (u : Trace) → M (ok a, u) → P (f a u))
      → ((e : Error) (u : Trace) → M (err e, u) → P (err e, u))
      → P (continue r f)
  continue_after M P (ok a, u) f h good bad = good a u h
  continue_after M P (err e, u) f h good bad = bad e u h

  -- The rest of the block, with what is known of its first part.
  pub bind_after :
      (M : Result A × Trace → Type 0) (P : Result B × Trace → Type 0) (m : Io A) (f : A → Io B)
      (t : Trace)
      → M (m t)
      → ((a : A) (u : Trace) → M (ok a, u) → P (f a u))
      → ((e : Error) (u : Trace) → M (err e, u) → P (err e, u))
      → P ((m >>= f) t)
  unfolding ◌>>=◌
  bind_after M P m f t h good bad = continue_after M P (m t) f h good bad

module _ {A : Type 0} where
  pub pure_case : (P : Result A × Trace → Type 0) (a : A) (t : Trace) → P (ok a, t) → P (pure a t)
  unfolding pure
  pure_case P a t h = h

  wrapped_after :
      (M P : Result A × Trace → Type 0) (context : String) (r : Result A × Trace)
      → M r
      → ((a : A) (u : Trace) → M (ok a, u) → P (ok a, u))
      → ((e : Error) (u : Trace) → M (err e, u) → P (err (wrap context e), u))
      → P (wrapped context r)
  wrapped_after M P context (ok a, u) h good bad = good a u h
  wrapped_after M P context (err e, u) h good bad = bad e u h

  pub within_after :
      (M P : Result A × Trace → Type 0) (context : String) (m : Io A) (t : Trace)
      → M (m t)
      → ((a : A) (u : Trace) → M (ok a, u) → P (ok a, u))
      → ((e : Error) (u : Trace) → M (err e, u) → P (err (wrap context e), u))
      → P (within_io context m t)
  unfolding within_io
  within_after M P context m t h good bad = wrapped_after M P context (m t) h good bad
