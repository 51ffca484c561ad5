-- ===== src/Sys/Steps.antt =====
-- A statement about a block that begins with one call, by how the call ends.
use kernlet.Common.{ℕ, String, Bytes, Result, ok, err, ◌∷◌, ◌≡◌, refl}
use kernlet.Sys.{
  Call, done, gave, counted, Trace, Os, Io, act, text, number, lift, within_io, ◌>>=◌,
}
use kernlet.Sys.Cases.{act_cases, text_cases, number_cases, bind_after, within_after}
use kernlet.Sys.Returns.{Returns}

-- What `Good` says of the result and the trace of a success; a failure is free.
abbrev pub Succeeds : {A : Type 0} → (A → Trace → Type 0) → Result A × Trace → Type 0
Succeeds Good (ok a, u) = Good a u
Succeeds Good (err e, u) = Unit

module _ {A B : Type 0} (Good : B → Trace → Type 0) where
  pub then_lift :
      (r : Result A) (f : A → Io B) (t : Trace)
      → ((a : A) → r ≡ ok a → Succeeds Good (f a t))
      → Succeeds Good ((lift r >>= f) t)
  unfolding ◌>>=◌
  then_lift (ok a) f t h = h a refl
  then_lift (err e) f t h = tt

  -- The rest of a block whose first part is known.
  pub then_known :
      (Known : A → Trace → Type 0) (m : Io A) (f : A → Io B) (t : Trace)
      → Succeeds Known (m t)
      → ((a : A) (u : Trace) → Known a u → Succeeds Good (f a u))
      → Succeeds Good ((m >>= f) t)
  then_known Known m f t h rest =
      bind_after (Succeeds Known) (Succeeds Good) m f t h rest (λ e u g. tt)

module _ {A : Type 0} where
  pub Succeeds-map :
      (P Q : A → Trace → Type 0) (r : Result A × Trace)
      → Succeeds P r
      → ((a : A) (u : Trace) → P a u → Q a u)
      → Succeeds Q r
  Succeeds-map P Q (ok a, u) h f = f a u h
  Succeeds-map P Q (err e, u) h f = tt

  returned :
      (P : A → Type 0) (r : Result A × Trace)
      → ((a : A) → r.0 ≡ ok a → P a)
      → Succeeds (λ a u. P a) r
  returned P (ok a, u) h = h a refl
  returned P (err e, u) h = tt

  pub Returns-Succeeds :
      (P : A → Type 0) (m : Io A) (t : Trace) → Returns P m → Succeeds (λ a u. P a) (m t)
  Returns-Succeeds P m t h = returned P (m t) (h.at t)

module _ (os : Os) (context : String) (c : Call) (t : Trace) where
  pub last_act :
      (Good : Unit {0} → Trace → Type 0)
      → Good tt (done c ∷ t)
      → Succeeds Good (within_io context (act os c) t)
  last_act Good h =
      within_after (Succeeds Good) (Succeeds Good) context (act os c) t
        (act_cases os c t (Succeeds Good) h λ e. tt) (λ a u g. g) (λ e u g. tt)

  pub last_text :
      (Good : Bytes → Trace → Type 0)
      → ((b : Bytes) → Good b (gave c b ∷ t))
      → Succeeds Good (within_io context (text os c) t)
  last_text Good h =
      within_after (Succeeds Good) (Succeeds Good) context (text os c) t
        (text_cases os c t (Succeeds Good) h λ e. tt) (λ a u g. g) (λ e u g. tt)

  pub last_number :
      (Good : ℕ → Trace → Type 0)
      → ((n : ℕ) → Good n (counted c n ∷ t))
      → Succeeds Good (within_io context (number os c) t)
  last_number Good h =
      within_after (Succeeds Good) (Succeeds Good) context (number os c) t
        (number_cases os c t (Succeeds Good) h λ e. tt) (λ a u g. g) (λ e u g. tt)

  module _ {B : Type 0} (Good : B → Trace → Type 0) where
    pub then_act :
        (f : Unit {0} → Io B)
        → Succeeds Good (f tt (done c ∷ t))
        → Succeeds Good ((within_io context (act os c) >>= f) t)
    then_act f h =
        then_known Good (λ a u. Succeeds Good (f a u)) (within_io context (act os c)) f t
          (last_act _ h) λ a u g. g

    pub then_text :
        (f : Bytes → Io B)
        → ((b : Bytes) → Succeeds Good (f b (gave c b ∷ t)))
        → Succeeds Good ((within_io context (text os c) >>= f) t)
    then_text f h =
        then_known Good (λ a u. Succeeds Good (f a u)) (within_io context (text os c)) f t
          (last_text _ h) λ a u g. g

    pub then_number :
        (f : ℕ → Io B)
        → ((n : ℕ) → Succeeds Good (f n (counted c n ∷ t)))
        → Succeeds Good ((within_io context (number os c) >>= f) t)
    then_number f h =
        then_known Good (λ a u. Succeeds Good (f a u)) (within_io context (number os c)) f t
          (last_number _ h) λ a u g. g
