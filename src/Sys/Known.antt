-- ===== src/Sys/Known.antt =====
-- What is known of a trace: events that it has, and those that a block has left after a success.
use kernlet.Common.{String, List, [], ◌∷◌, Result, ok, err, ◌⊎◌, inl, inr}
use kernlet.Sys.{Event, Trace, Io, within_io}
use kernlet.Sys.Cases.{within_after}
use kernlet.Sys.Has.{Has, IsPast, Has-IsPast}
use kernlet.Sys.Steps.{Succeeds}

-- One of the events is in the trace.
abbrev pub HasOne : List Event → Trace → Type 0
HasOne [] t = ⊥
HasOne (e ∷ events) t = Has e t ⊎ HasOne events t

abbrev pub HasAll : List (List Event) → Trace → Type 0
HasAll [] t = Unit
HasAll (events ∷ list) t = HasOne events t × HasAll list t

HasOne-IsPast : (events : List Event) (t u : Trace) → IsPast t u → HasOne events t → HasOne events u
HasOne-IsPast [] t u past h = h
HasOne-IsPast (e ∷ events) t u past (inl h) = inl (Has-IsPast e t u past h)
HasOne-IsPast (e ∷ events) t u past (inr h) = inr (HasOne-IsPast events t u past h)

pub HasAll-IsPast :
    (list : List (List Event)) (t u : Trace) → IsPast t u → HasAll list t → HasAll list u
HasAll-IsPast [] t u past h = tt
HasAll-IsPast (events ∷ list) t u past h =
    (HasOne-IsPast events t u past h.0, HasAll-IsPast list t u past h.1)

module _ {A : Type 0} where
  pub and_known :
      (P : A → Trace → Type 0) (Q : Trace → Type 0) (r : Result A × Trace)
      → Succeeds P r
      → Q r.1
      → Succeeds (λ a u. P a u × Q u) r
  and_known P Q (ok a, u) k h = (k, h)
  and_known P Q (err e, u) k h = tt

  pub nothing_known : (r : Result A × Trace) → Succeeds (λ _ _. Unit) r
  nothing_known (ok a, u) = tt
  nothing_known (err e, u) = tt

  pub after_context :
      (P : A → Trace → Type 0) (context : String) (m : Io A) (t : Trace)
      → Succeeds P (m t)
      → Succeeds P (within_io context m t)
  after_context P context m t h =
      within_after (Succeeds P) (Succeeds P) context m t h (λ a u k. k) λ e u k. tt
