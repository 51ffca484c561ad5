-- ===== src/Agent/Serve/Accepted.antt =====
-- The loop that accepts connections.
use kernlet.Common.{
  ℕ, zero, suc, List, [], ◌∷◌, ◌++◌, false, Error, wrap, Result, ok, err, ◌==◌, if◌then◌else◌, ◌≡◌,
  refl, sym, ap, ◌∙◌, append_assoc, append-nil, Bool-cases, inl, inr, arith,
}
use mathlib.Core.Path.{subst}
use kernlet.Sys.Only.{call_of}
use kernlet.Sys.Has.{Each}
use kernlet.Common.{Bool, true, ◌+◌}
use kernlet.Sys.{Call, Event, failed, counted, Trace, Os, Io, number, ◌>>=◌, vsock_accept}
use kernlet.Sys.Cases.{number_known, bind_after, pure_case}
use kernlet.Agent.Serve.{
  is_errno, eintr, Serving, waiting, stopped, accepted, after_accept, accept_loop,
}

-- The descriptors of the connections whose goroutines were started.
abbrev pub handed_over : Serving → List ℕ
handed_over (waiting fds) = fds
handed_over (stopped e fds) = fds

pub connection_of : ℕ → Call → ℕ → List ℕ
connection_of fd (vsock_accept socket) connection = if socket == fd then connection ∷ [] else []
connection_of fd _ connection = []

-- The descriptors that Accept4 has returned for the socket, the earliest first.
pub connections : ℕ → Trace → List ℕ
connections fd [] = []
connections fd (counted c n ∷ t) = connections fd t ++ connection_of fd c n
connections fd (_ ∷ t) = connections fd t

abbrev pub is_accept : ℕ → Call → Bool
is_accept fd (vsock_accept socket) = socket == fd
is_accept fd _ = false

-- How often Accept4 was called on the socket.
pub accepts : ℕ → Trace → ℕ
accepts fd [] = 0
accepts fd (e ∷ t) = let rest = accepts fd t in if is_accept fd (call_of e) then suc rest else rest

module _ (os : Os) where
  -- A call of Accept4 that failed, failed with EINTR.
  abbrev pub IsInterrupted : Event → Trace → Type 0
  IsInterrupted (failed (vsock_accept socket)) t =
      (cause : Error) × (os.number_answer t (vsock_accept socket) ≡ err cause)
      × (is_errno eintr cause ≡ true)
  IsInterrupted _ t = Unit

  -- The last call of Accept4 failed, with this error, which is not EINTR; all that failed before it
  -- failed with EINTR.
  pub record IsBroken (fd : ℕ) (e : Error) (u : Trace) : Type 0 where
    pub cause : Error
    pub before : Trace
    pub last : u ≡ failed (vsock_accept fd) ∷ before
    pub answer : os.number_answer before (vsock_accept fd) ≡ err cause
    pub other : is_errno eintr cause ≡ false
    pub wrapped : e ≡ wrap "accept vsock connection" cause
    pub interrupted : Each IsInterrupted before

  -- The loop has made all its rounds, with one call of Accept4 in each, and no failure but EINTR; or it
  -- is broken by the error that it returns.
  abbrev pub Ended : ℕ → ℕ → Trace → Serving → Trace → Type 0
  Ended fd rounds t (waiting fds) u = (accepts fd u ≡ rounds + accepts fd t) × Each IsInterrupted u
  Ended fd rounds t (stopped e fds) u = IsBroken fd e u

  -- The loop fails in no other way, and each connection was handed over once, in the order of the calls.
  abbrev pub IsServed : ℕ → ℕ → Trace → Result Serving × Trace → Type 0
  IsServed fd rounds t (ok serving, u) =
      (connections fd u ≡ connections fd t ++ handed_over serving) × Ended fd rounds t serving u
  IsServed fd rounds t (err e, u) = ⊥

handed_over-accepted :
    (fd : ℕ) (serving : Serving) → handed_over (accepted fd serving) ≡ fd ∷ handed_over serving
handed_over-accepted fd (waiting fds) = refl
handed_over-accepted fd (stopped e fds) = refl

connection_of_self : (fd n : ℕ) → connection_of fd (vsock_accept fd) n ≡ n ∷ []
unfolding connection_of
connection_of_self fd n = ground arith

is_accept_self : (fd : ℕ) (c : Call) → c ≡ vsock_accept fd → is_accept fd c ≡ true
is_accept_self fd c e = subst (λ (d : Call). is_accept fd d ≡ true) (sym e) (ground arith)

module _ (os : Os) (fd : ℕ) where
  more_accepts :
      (e : Event) (t u : Trace) (rounds : ℕ)
      → call_of e ≡ vsock_accept fd
      → accepts fd u ≡ rounds + accepts fd (e ∷ t)
      → accepts fd u ≡ suc rounds + accepts fd t
  unfolding accepts
  more_accepts e t u rounds same h = h ∙ rw (is_accept_self fd (call_of e) same) (omega arith)

  in_order :
      (n : ℕ) (serving : Serving) (t u : Trace)
      → connections fd u ≡ connections fd (counted (vsock_accept fd) n ∷ t) ++ handed_over serving
      → connections fd u ≡ connections fd t ++ handed_over (accepted n serving)
  unfolding connections
  in_order n serving t u h =
      h
      ∙ ap (λ (l : List ℕ). (connections fd t ++ l) ++ handed_over serving)
          (connection_of_self fd n)
      ∙ append_assoc (connections fd t) (n ∷ []) (handed_over serving)
      ∙ ap (λ (l : List ℕ). connections fd t ++ l) (sym (handed_over-accepted n serving))

  one_more :
      (n rounds : ℕ) (serving : Serving) (t u : Trace) (e : Event)
      → call_of e ≡ vsock_accept fd
      → Ended os fd rounds (e ∷ t) serving u
      → Ended os fd (suc rounds) t (accepted n serving) u
  unfolding accepts
  one_more n rounds (waiting fds) t u e same h = (more_accepts e t u rounds same h.0, h.1)
  one_more n rounds (stopped x fds) t u e same h = h

  after_interrupt :
      (rounds : ℕ) (t : Trace) (r : Result Serving × Trace)
      → IsServed os fd rounds (failed (vsock_accept fd) ∷ t) r
      → IsServed os fd (suc rounds) t r
  unfolding connections
  after_interrupt rounds t (ok (waiting fds), u) h =
      (h.0, (more_accepts (failed (vsock_accept fd)) t u rounds refl h.1.0, h.1.1))
  after_interrupt rounds t (ok (stopped e fds), u) h = h
  after_interrupt rounds t (err x, u) h = h

  -- What is known of the rounds that are left.
  abbrev Served : ℕ → Io Serving → Type 0
  Served rounds rest = (u : Trace) → Each (IsInterrupted os) u → IsServed os fd rounds u (rest u)

  after_failure :
      (e : Error) (rounds : ℕ) (rest : Io Serving) (t : Trace)
      → os.number_answer t (vsock_accept fd) ≡ err e
      → Each (IsInterrupted os) t
      → Served rounds rest
      → IsServed os fd (suc rounds) t (after_accept os (err e) rest (failed (vsock_accept fd) ∷ t))
  unfolding after_accept connections Each
  after_failure e rounds rest t answer k served = elim (Bool-cases (is_errno eintr e)) [
    | inl interrupted ↦ rw interrupted (
        after_interrupt rounds t (rest (failed (vsock_accept fd) ∷ t))
          (served (failed (vsock_accept fd) ∷ t) ((e, answer, interrupted), k)))
    | inr other ↦ rw other (
        pure_case (IsServed os fd (suc rounds) t) (stopped (wrap "accept vsock connection" e) [])
          (failed (vsock_accept fd) ∷ t)
          (
            sym (append-nil (connections fd t)),
            record {
              cause = e;
              before = t;
              last = refl;
              answer = answer;
              other = other;
              wrapped = refl;
              interrupted = k;
            },
          ))
  ]

  -- One round of the loop, with what is known of the others.
  after_accept-IsServed :
      (rounds : ℕ) (rest : Io Serving) (t : Trace)
      → Each (IsInterrupted os) t
      → Served rounds rest
      → let r = number os (vsock_accept fd) t in
        IsServed os fd (suc rounds) t (after_accept os r.0 rest r.1)
  unfolding after_accept Each
  after_accept-IsServed rounds rest t k served =
      number_known os (vsock_accept fd) t
        (λ r. IsServed os fd (suc rounds) t (after_accept os r.0 rest r.1))
        (λ n answer.
          let start = counted (vsock_accept fd) n ∷ t in
          bind_after (IsServed os fd rounds start) (IsServed os fd (suc rounds) t) rest _ start
            (served start (tt, k))
            (λ serving u h. pure_case (IsServed os fd (suc rounds) t) (accepted n serving) u (
              in_order n serving t u h.0,
              one_more n rounds serving t u (counted (vsock_accept fd) n) refl h.1,
            ))
            λ e u h. h)
        λ e answer. after_failure e rounds rest t answer k served

  -- For any number of rounds, and whatever the system answers, when no call of Accept4 before the loop
  -- has failed but with EINTR: the loop has handed every connection that was accepted to a goroutine of
  -- its own, once and in the order of the calls. After all its rounds it has called Accept4 once in each,
  -- and every call that failed, failed with EINTR. It ends before only with an error, which is the one
  -- that its last call of Accept4 gave, and not EINTR, and no call before that failed but with EINTR.
  pub accept_loop-IsServed :
      (rounds : ℕ) (t : Trace)
      → Each (IsInterrupted os) t
      → IsServed os fd rounds t (accept_loop os fd rounds t)
  unfolding accept_loop ◌>>=◌
  accept_loop-IsServed zero t k =
      pure_case (IsServed os fd zero t) (waiting []) t
        (sym (append-nil (connections fd t)), (omega arith, k))
  accept_loop-IsServed (suc rounds) t k =
      after_accept-IsServed rounds (accept_loop os fd rounds) t k
        λ u ku. accept_loop-IsServed rounds u ku
