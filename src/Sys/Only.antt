-- ===== src/Sys/Only.antt =====
-- Code that makes only calls of a given kind, one rule for each way to build code.
use mathlib.Core.Path.{subst}
use kernlet.Common.{
  String, Bool, true, false, Result, ok, err, All, All-append, [], ◌∷◌, ◌++◌, append_assoc,
  append-nil, sym, ap, ◌∙◌, if◌then◌else◌, ◌≡◌, refl,
}
use kernlet.Sys.{
  Call, Event, done, failed, gave, counted, tested, Trace, Os, Io, act, text, number, flag, pure,
  lift, within_io, ignore, attempt, on_error, deferred, ◌>>=◌, answer, wrapped, cleaned, continue,
}

abbrev pub call_of : Event → Call
call_of (done c) = c
call_of (failed c) = c
call_of (gave c _) = c
call_of (counted c _) = c
call_of (tested c _) = c

-- Every call so far is of the kind `C`.
abbrev pub Only : (Call → Type 0) → Trace → Type 0
Only C = All (λ e. C (call_of e))

-- The later events are the earlier ones with calls of the kind `C` after them.
pub record Extends (C : Call → Type 0) (before after : Trace) : Type 0 where
  pub new : Trace
  pub whole : after ≡ new ++ before
  pub kind : Only C new

-- Whether the code returns or fails, and whatever the system answers, it makes calls of the kind `C` only.
pub record Makes {A : Type 0} (C : Call → Type 0) (m : Io A) : Type 0 where
  pub at : (t : Trace) → Extends C t (m t).1

module _ {C : Call → Type 0} where
  pub Extends-refl : (t : Trace) → Extends C t t
  Extends-refl t = record { new = []; whole = refl; kind = tt }

  pub Extends-trans : {t u v : Trace} → Extends C t u → Extends C u v → Extends C t v
  Extends-trans {t} {u} {v} h k = record {
    new = k.new ++ h.new;
    whole = k.whole ∙ ap (λ (s : Trace). k.new ++ s) h.whole ∙ sym (append_assoc k.new h.new t);
    kind = All-append (λ e. C (call_of e)) k.new h.new k.kind h.kind;
  }

  -- From the start, all calls are of the kind.
  pub Extends-Only : {t : Trace} → Extends C [] t → Only C t
  Extends-Only {t} h =
      let e : t ≡ h.new = h.whole ∙ append-nil h.new in subst (Only C) (sym e) h.kind

module _ {A : Type 0} (C : Call → Type 0) where
  Extends-answer :
      (event : A → Event) (failure : Event) (r : Result A) (t : Trace)
      → ((a : A) → C (call_of (event a)))
      → C (call_of failure)
      → Extends C t (answer event failure r t).1
  Extends-answer event failure (ok a) t each fails = record {
    new = event a ∷ [];
    whole = refl;
    kind = (each a, tt);
  }
  Extends-answer event failure (err e) t each fails = record {
    new = failure ∷ [];
    whole = refl;
    kind = (fails, tt);
  }

  Extends-wrapped :
      (context : String) (t : Trace) (r : Result A × Trace)
      → Extends C t r.1
      → Extends C t (wrapped context r).1
  Extends-wrapped context t (ok a, u) h = h
  Extends-wrapped context t (err e, u) h = h

module _ {C : Call → Type 0} (os : Os) (c : Call) where
  pub Makes-act : C c → Makes C (act os c)
  unfolding act
  Makes-act h = record { at = λ t. Extends-answer C _ _ (os.act_answer t c) t (λ _. h) h }

  pub Makes-text : C c → Makes C (text os c)
  unfolding text
  Makes-text h = record { at = λ t. Extends-answer C _ _ (os.text_answer t c) t (λ _. h) h }

  pub Makes-number : C c → Makes C (number os c)
  unfolding number
  Makes-number h = record { at = λ t. Extends-answer C _ _ (os.number_answer t c) t (λ _. h) h }

  pub Makes-flag : C c → Makes C (flag os c)
  unfolding flag
  Makes-flag h = record { at = λ t. Extends-answer C _ _ (os.flag_answer t c) t (λ _. h) h }

module _ {A : Type 0} {C : Call → Type 0} where
  pub Makes-pure : (a : A) → Makes C (pure a)
  unfolding pure
  Makes-pure a = record { at = Extends-refl }

  pub Makes-lift : (r : Result A) → Makes C (lift r)
  unfolding lift
  Makes-lift r = record { at = Extends-refl }

  pub Makes-within_io : (context : String) (m : Io A) → Makes C m → Makes C (within_io context m)
  unfolding within_io
  Makes-within_io context m k = record { at = λ t. Extends-wrapped C context t (m t) (k.at t) }

  pub Makes-ignore : (m : Io A) → Makes C m → Makes C (ignore m)
  unfolding ignore
  Makes-ignore m k = record { at = k.at }

  pub Makes-attempt : (m : Io A) → Makes C m → Makes C (attempt m)
  unfolding attempt
  Makes-attempt m k = record { at = k.at }

  pub Makes-if :
      (b : Bool) (m n : Io A)
      → (b ≡ true → Makes C m)
      → (b ≡ false → Makes C n)
      → Makes C (if b then m else n)
  Makes-if true m n km kn = km refl
  Makes-if false m n km kn = kn refl

module _ {A B : Type 0} {C : Call → Type 0} where
  Extends-cleaned :
      (t : Trace) (r : Result A × Trace) (m : Io B)
      → Makes C m
      → Extends C t r.1
      → Extends C t (cleaned r m).1
  Extends-cleaned t (ok a, u) m k h = h
  Extends-cleaned t (err e, u) m k h = Extends-trans h (k.at u)

  pub Makes-on_error :
      (m : Io A) (cleanup : Io B) → Makes C m → Makes C cleanup → Makes C (on_error m cleanup)
  unfolding on_error
  Makes-on_error m cleanup k l = record { at = λ t. Extends-cleaned t (m t) cleanup l (k.at t) }

  pub Makes-deferred :
      (m : Io A) (cleanup : Io B) → Makes C m → Makes C cleanup → Makes C (deferred m cleanup)
  unfolding deferred
  Makes-deferred m cleanup k l = record { at = λ t. Extends-trans (k.at t) (l.at (m t).1) }

  Extends-continue :
      (t : Trace) (r : Result A × Trace) (f : A → Io B)
      → ((a : A) → r.0 ≡ ok a → Makes C (f a))
      → Extends C t r.1
      → Extends C t (continue r f).1
  Extends-continue t (ok a, u) f k h = Extends-trans h ((k a refl).at u)
  Extends-continue t (err e, u) f k h = h

  pub Makes-bind :
      (m : Io A) (f : A → Io B) → Makes C m → ((a : A) → Makes C (f a)) → Makes C (m >>= f)
  unfolding ◌>>=◌
  Makes-bind m f k l = record { at = λ t. Extends-continue t (m t) f (λ a _. l a) (k.at t) }

  -- The rest of the block may use that the result is no error.
  pub Makes-bind-lift :
      (r : Result A) (f : A → Io B) → ((a : A) → r ≡ ok a → Makes C (f a)) → Makes C (lift r >>= f)
  unfolding ◌>>=◌ lift
  Makes-bind-lift r f l = record { at = λ t. Extends-continue t (r, t) f l (Extends-refl t) }

pub ruleset makes_rules = (
  Makes-act, Makes-text, Makes-number, Makes-flag, Makes-pure, Makes-lift, Makes-within_io,
  Makes-ignore, Makes-attempt, Makes-if, Makes-on_error, Makes-deferred, Makes-bind,
)

module _ {C D : Call → Type 0} (weaken : (c : Call) → C c → D c) where
  Only-weaken : (t : Trace) → Only C t → Only D t
  Only-weaken [] h = tt
  Only-weaken (e ∷ t) h = (weaken (call_of e) h.0, Only-weaken t h.1)

  pub Makes-weaken : {A : Type 0} (m : Io A) → Makes C m → Makes D m
  Makes-weaken m k = record {
    at = λ t.
        let h = k.at t in record { new = h.new; whole = h.whole; kind = Only-weaken h.new h.kind };
  }
