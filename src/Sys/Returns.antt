-- ===== src/Sys/Returns.antt =====
-- What holds of the value that code returns, if it returns one.
use mathlib.Core.Path.{subst}
use kernlet.Common.{
  String, Bytes, Bool, true, false, Error, Result, ok, err, if◌then◌else◌, ◌≡◌, refl, ok-injective,
}
use kernlet.Sys.{
  Call, Event, gave, failed, Trace, Os, Io, text, pure, lift, within_io, on_error, deferred, ◌>>=◌,
  answer, wrapped, cleaned, continue,
}

pub record Returns {A : Type 0} (P : A → Type 0) (m : Io A) : Type 0 where
  pub at : (t : Trace) (a : A) → (m t).0 ≡ ok a → P a

answered :
    (event : Bytes → Event) (failure : Event) (r : Result Bytes) (t : Trace) (b : Bytes)
    → (answer event failure r t).0 ≡ ok b
    → r ≡ ok b
answered event failure (ok b) t c e = e
answered event failure (err x) t c e = cc

-- What is known of every answer to a call.
pub Returns-text :
    {P : Bytes → Type 0} (os : Os) (c : Call)
    → ((t : Trace) (b : Bytes) → os.text_answer t c ≡ ok b → P b)
    → Returns P (text os c)
unfolding text
Returns-text os c h = record {
  at = λ t b e. h t b (answered (gave c) (failed c) (os.text_answer t c) t b e);
}

module _ {A : Type 0} where
  unwrapped :
      (context : String) (r : Result A × Trace) (a : A) → (wrapped context r).0 ≡ ok a → r.0 ≡ ok a
  unwrapped context (ok b, t) a e = e
  unwrapped context (err b, t) a e = cc

module _ {A B : Type 0} where
  returned_first :
      (r : Result A × Trace) (m : Io B) (Q : A → Type 0) (a : A)
      → ((a : A) → r.0 ≡ ok a → Q a)
      → (cleaned r m).0 ≡ ok a
      → Q a
  returned_first (ok b, t) m Q a q e = q a e
  returned_first (err x, t) m Q a q e = cc

module _ {A : Type 0} {P : A → Type 0} where
  pub Returns-pure : (a : A) → P a → Returns P (pure a)
  unfolding pure
  Returns-pure a p = record { at = λ t b e. subst P (ok-injective e) p }

  pub Returns-lift : (r : Result A) → ((a : A) → r ≡ ok a → P a) → Returns P (lift r)
  unfolding lift
  Returns-lift r p = record { at = λ t a e. p a e }

  pub Returns-within_io :
      (context : String) (m : Io A) → Returns P m → Returns P (within_io context m)
  unfolding within_io
  Returns-within_io context m h = record { at = λ t a e. h.at t a (unwrapped context (m t) a e) }

  pub Returns-if :
      (b : Bool) (m n : Io A)
      → (b ≡ true → Returns P m)
      → (b ≡ false → Returns P n)
      → Returns P (if b then m else n)
  Returns-if true m n hm hn = hm refl
  Returns-if false m n hm hn = hn refl

  pub Returns-fail : (e : Error) → Returns P (lift (err e))
  unfolding lift
  Returns-fail e = record { at = λ t a h. cc }

  pub Returns-weaken :
      {Q : A → Type 0} (m : Io A) → ((a : A) → Q a → P a) → Returns Q m → Returns P m
  Returns-weaken m f h = record { at = λ t a e. f a (h.at t a e) }

module _ {A B : Type 0} {P : B → Type 0} where
  continued :
      (Q : A → Type 0) (r : Result A × Trace) (f : A → Io B) (b : B)
      → ((a : A) → r.0 ≡ ok a → Q a)
      → ((a : A) → Q a → Returns P (f a))
      → (continue r f).0 ≡ ok b
      → P b
  continued Q (ok a, t) f b q k e = (k a (q a refl)).at t b e
  continued Q (err x, t) f b q k e = cc

  -- The first part returns what `Q` says, and the rest may use it.
  pub Returns-bind :
      {Q : A → Type 0} (m : Io A) (f : A → Io B)
      → Returns Q m
      → ((a : A) → Q a → Returns P (f a))
      → Returns P (m >>= f)
  unfolding ◌>>=◌
  Returns-bind {Q = Q} m f h k = record { at = λ t b e. continued Q (m t) f b (h.at t) k e }

  -- Nothing is known of what the first part returns.
  pub Returns-then : (m : Io A) (f : A → Io B) → ((a : A) → Returns P (f a)) → Returns P (m >>= f)
  unfolding ◌>>=◌
  Returns-then m f k = record {
    at = λ t b e. continued (λ _. Unit) (m t) f b (λ _ _. tt) (λ a _. k a) e;
  }

  -- The rest may use that the result is no error.
  pub Returns-bind-lift :
      (r : Result A) (f : A → Io B)
      → ((a : A) → r ≡ ok a → Returns P (f a))
      → Returns P (lift r >>= f)
  unfolding ◌>>=◌ lift
  Returns-bind-lift r f k = record {
    at = λ t b e. continued (λ a. r ≡ ok a) (r, t) f b (λ a q. q) k e;
  }

module _ {A B : Type 0} {P : A → Type 0} where
  pub Returns-on_error : (m : Io A) (cleanup : Io B) → Returns P m → Returns P (on_error m cleanup)
  unfolding on_error
  Returns-on_error m cleanup h = record {
    at = λ t a e. returned_first (m t) cleanup P a (h.at t) e;
  }

  pub Returns-deferred : (m : Io A) (cleanup : Io B) → Returns P m → Returns P (deferred m cleanup)
  unfolding deferred
  Returns-deferred m cleanup h = record { at = h.at }
