-- ===== src/Runtime/Run/Children.antt =====
-- The child processes that are started, and those that are waited for.
use kernlet.Common.{ℕ, ◌+◌, [], ◌∷◌, ◌++◌, ◌≡◌, refl, ap, ◌∙◌, arith}
use kernlet.Sys.{Call, done, failed, gave, counted, tested, Trace, Io, start_process, wait_process}
use kernlet.Sys.Only.{Only, Makes}
use kernlet.Sys.Moves.{Moves, Chains}

-- A call of Wait, whether it succeeds or not.
unfoldable pub is_wait : Call → ℕ
is_wait wait_process = 1
is_wait _ = 0

unfoldable pub is_start : Call → ℕ
is_start (start_process arguments environment flags cgroup) = 1
is_start _ = 0

-- How many children were started, and how often one was waited for.
unfoldable pub started : Trace → ℕ
started [] = 0
started (counted c pid ∷ t) = is_start c + started t
started (_ ∷ t) = started t

unfoldable pub waits : Trace → ℕ
waits [] = 0
waits (done c ∷ t) = is_wait c + waits t
waits (failed c ∷ t) = is_wait c + waits t
waits (_ ∷ t) = waits t

-- Calls that neither start a child nor wait for one.
abbrev pub Idle : Call → Type 0
Idle wait_process = ⊥
Idle (start_process arguments environment flags cgroup) = ⊥
Idle _ = Unit

Idle-is_wait : (c : Call) → Idle c → is_wait c ≡ 0
unfolding is_wait
Idle-is_wait wait_process h = absurd h
Idle-is_wait _ h = refl

Idle-is_start : (c : Call) → Idle c → is_start c ≡ 0
unfolding is_start
Idle-is_start (start_process arguments environment flags cgroup) h = absurd h
Idle-is_start _ h = refl

-- So many more children were started, and so many more calls of Wait were made.
pub record Counts (starts waited : ℕ) (t u : Trace) : Type 0 where
  pub more_started : started u ≡ starts + started t
  pub more_waits : waits u ≡ waited + waits t

Counts-Only : (new t : Trace) → Only Idle new → Counts 0 0 t (new ++ t)
unfolding started waits
Counts-Only [] t h = record { more_started = ground arith; more_waits = ground arith }
Counts-Only (done c ∷ new) t h =
    let rest = Counts-Only new t h.1 in
    record {
      more_started = ground (arith, Idle-is_wait c h.0, rest.more_started);
      more_waits = ground (arith, Idle-is_wait c h.0, rest.more_waits);
    }
Counts-Only (failed c ∷ new) t h =
    let rest = Counts-Only new t h.1 in
    record {
      more_started = ground (arith, Idle-is_wait c h.0, rest.more_started);
      more_waits = ground (arith, Idle-is_wait c h.0, rest.more_waits);
    }
Counts-Only (gave c b ∷ new) t h =
    let rest = Counts-Only new t h.1 in
    record { more_started = rest.more_started; more_waits = rest.more_waits }
Counts-Only (counted c n ∷ new) t h =
    let rest = Counts-Only new t h.1 in
    record {
      more_started = ground (arith, Idle-is_start c h.0, rest.more_started);
      more_waits = ground (arith, Idle-is_start c h.0, rest.more_waits);
    }
Counts-Only (tested c b ∷ new) t h =
    let rest = Counts-Only new t h.1 in
    record { more_started = rest.more_started; more_waits = rest.more_waits }

pub idle : {A : Type 0} (m : Io A) (t : Trace) → Makes Idle m → Counts 0 0 t (m t).1
idle m t h =
    let e = h.at t in
    let c = Counts-Only e.new t e.kind in
    record {
      more_started = ap started e.whole ∙ c.more_started;
      more_waits = ap waits e.whole ∙ c.more_waits;
    }

pub Counts-trans :
    (a b c d : ℕ) {t u v : Trace} → Counts a b t u → Counts c d u v → Counts (a + c) (b + d) t v
Counts-trans a b c d h k = record {
  more_started = ground (arith, h.more_started, k.more_started);
  more_waits = ground (arith, h.more_waits, k.more_waits);
}

pub Counts-idle :
    (starts waited : ℕ) {t u v : Trace}
    → Counts 0 0 t u
    → Counts starts waited u v
    → Counts starts waited t v
Counts-idle starts waited h k = record {
  more_started = ground (arith, h.more_started, k.more_started);
  more_waits = ground (arith, h.more_waits, k.more_waits);
}

pub Counts-then :
    (starts waited : ℕ) {t u v : Trace}
    → Counts starts waited t u
    → Counts 0 0 u v
    → Counts starts waited t v
Counts-then starts waited h k = record {
  more_started = ground (arith, h.more_started, k.more_started);
  more_waits = ground (arith, h.more_waits, k.more_waits);
}

-- As many calls of Wait were made as children were started.
pub record Reaped (t u : Trace) : Type 0 where
  pub children : ℕ
  pub counts : Counts children children t u

pub Reaped-Chains : Chains Reaped
Reaped-Chains = record {
  same = λ t. record {
    children = 0;
    counts = record { more_started = ground arith; more_waits = ground arith };
  };
  both = λ h k. record {
    children = h.children + k.children;
    counts = Counts-trans h.children h.children k.children k.children h.counts k.counts;
  };
}

-- Whatever the system answers, every child that the code starts is waited for.
abbrev pub Reaps : {A : Type 0} → Io A → Type 0
Reaps m = Moves Reaped m

pub Reaps-Idle : {A : Type 0} (m : Io A) → Makes Idle m → Reaps m
Reaps-Idle m h = record { at = λ t. record { children = 0; counts = idle m t h } }
