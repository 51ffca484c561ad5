-- ===== src/Sys/Has.antt =====
-- The events that a trace has, and the traces that are part of a longer one.
use kernlet.Common.{[], ◌∷◌, ◌++◌, Result, ◌⊎◌, inr, ◌≡◌, refl, sym}
use mathlib.Core.Path.{subst}
use kernlet.Sys.{Call, Event, Trace, Io, ◌>>=◌}
use kernlet.Sys.Only.{Extends, Only, call_of}
use kernlet.Sys.Cases.{bind_after}
use kernlet.Sys.Steps.{Succeeds}

-- The event is one of the trace.
unfoldable pub Has : Event → Trace → Type 0
Has e [] = ⊥
Has e (f ∷ t) = (e ≡ f) ⊎ Has e t

-- The trace is what had happened at some time of the longer one.
pub record IsPast (t u : Trace) : Type 0 where
  pub later : Trace
  pub whole : u ≡ later ++ t

-- What was to hold for each event, of the event and the events before it.
unfoldable pub Each : (Event → Trace → Type 0) → Trace → Type 0
Each P [] = Unit
Each P (e ∷ t) = P e t × Each P t

module _ (P : Event → Trace → Type 0) where
  Each-drop : (later t : Trace) → Each P (later ++ t) → Each P t
  unfolding Each
  Each-drop [] t h = h
  Each-drop (e ∷ later) t h = Each-drop later t h.1

  pub Each-IsPast : (t u : Trace) → IsPast t u → Each P u → Each P t
  Each-IsPast t u past h = Each-drop past.later t (subst (Each P) past.whole h)

  Each-append :
      (C : Call → Type 0) (new t : Trace)
      → ((e : Event) (u : Trace) → C (call_of e) → IsPast t u → P e u)
      → Only C new
      → Each P t
      → Each P (new ++ t)
  unfolding Each
  Each-append C [] t fits h k = k
  Each-append C (e ∷ new) t fits h k =
      (fits e (new ++ t) h.0 (record { later = new; whole = refl }), Each-append C new t fits h.1 k)

  -- Later events of the kind `C`, for each of which it holds after `t`.
  pub Each-Extends :
      (C : Call → Type 0) (t u : Trace)
      → ((e : Event) (v : Trace) → C (call_of e) → IsPast t v → P e v)
      → Extends C t u
      → Each P t
      → Each P u
  Each-Extends C t u fits h k = subst (Each P) (sym h.whole) (Each-append C h.new t fits h.kind k)

  -- One part of a block, and the rest of it after a success.
  pub Each-bind :
      {A B : Type 0} (Good : A → Trace → Type 0) (m : Io A) (f : A → Io B) (t : Trace)
      → Each P (m t).1
      → Succeeds Good (m t)
      → ((a : A) (u : Trace) → Each P u → Good a u → Each P (f a u).1)
      → Each P ((m >>= f) t).1
  Each-bind {A} Good m f t h k rest =
      let Known : Result A × Trace → Type 0 = λ r. Each P r.1 × Succeeds Good r in
      bind_after Known (λ r. Each P r.1) m f t (h, k) (λ a u g. rest a u g.0 g.1) λ e u g. g.0

Has-append : (e : Event) (new t : Trace) → Has e t → Has e (new ++ t)
unfolding Has
Has-append e [] t h = h
Has-append e (f ∷ new) t h = inr (Has-append e new t h)

pub Has-IsPast : (e : Event) (t u : Trace) → IsPast t u → Has e t → Has e u
Has-IsPast e t u past h = subst (Has e) (sym past.whole) (Has-append e past.later t h)

pub Extends-IsPast : {C : Call → Type 0} (t u : Trace) → Extends C t u → IsPast t u
Extends-IsPast t u h = record { later = h.new; whole = h.whole }
