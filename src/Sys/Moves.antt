-- ===== src/Sys/Moves.antt =====
-- What holds between the events before a block and those after it, however it ends.
use kernlet.Common.{Bool, true, false, if◌then◌else◌, ◌≡◌, refl}
use kernlet.Sys.{Trace, Io, pure, ignore, attempt, deferred, ◌>>=◌}
use kernlet.Sys.Cases.{bind_after}

-- Whatever the system answers, the relation holds between the traces.
pub record Moves {A : Type 0} (R : Trace → Trace → Type 0) (m : Io A) : Type 0 where
  pub at : (t : Trace) → R t (m t).1

-- A relation that holds for no event, and for one part after the other.
pub record Chains (R : Trace → Trace → Type 0) : Type 0 where
  pub same : (t : Trace) → R t t
  pub both : {t u v : Trace} → R t u → R u v → R t v

module _ {R : Trace → Trace → Type 0} (chains : Chains R) where
  pub Moves-pure : {A : Type 0} (a : A) → Moves R (pure a)
  unfolding ◌>>=◌
  Moves-pure a = record { at = chains.same }

  pub Moves-deferred :
      {A B : Type 0} (m : Io A) (cleanup : Io B)
      → Moves R m
      → Moves R cleanup
      → Moves R (deferred m cleanup)
  unfolding ◌>>=◌
  Moves-deferred m cleanup h k = record { at = λ t. chains.both (h.at t) (k.at (m t).1) }

  pub Moves-bind :
      {A B : Type 0} (m : Io A) (f : A → Io B)
      → Moves R m
      → ((a : A) → Moves R (f a))
      → Moves R (m >>= f)
  Moves-bind m f h k = record {
    at = λ t.
        bind_after (λ r. R t r.1) (λ r. R t r.1) m f t (h.at t)
          (λ a u moved. chains.both moved ((k a).at u)) (λ e u moved. moved);
  }

module _ {R : Trace → Trace → Type 0} {A : Type 0} where
  pub Moves-attempt : (m : Io A) → Moves R m → Moves R (attempt m)
  unfolding ◌>>=◌
  Moves-attempt m h = record { at = h.at }

  pub Moves-ignore : (m : Io A) → Moves R m → Moves R (ignore m)
  unfolding ◌>>=◌
  Moves-ignore m h = record { at = h.at }

  pub Moves-if :
      (b : Bool) (m n : Io A)
      → (b ≡ true → Moves R m)
      → (b ≡ false → Moves R n)
      → Moves R (if b then m else n)
  Moves-if true m n km kn = km refl
  Moves-if false m n km kn = kn refl
