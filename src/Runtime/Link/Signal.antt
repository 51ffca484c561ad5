-- ===== src/Runtime/Link/Signal.antt =====
-- What the child knows when waitForNetwork succeeds.
use mathlib.Core.Path.{subst}
use kernlet.Common.{ℕ, ◌==◌, Result, ok, err, ◌∷◌, ◌≡◌, refl, sym, inl, inr, Bool-cases, arith}
use kernlet.Sys.{counted, Trace, Os, Io, act, deferred, ◌>>=◌, read_ready, open_ready, close_ready}
use kernlet.Sys.Only.{Makes, makes_rules}
use kernlet.Sys.Has.{Has, Has-IsPast, Extends-IsPast}
use kernlet.Sys.Steps.{Succeeds, then_known, last_act, last_number}
use kernlet.Runtime.Link.{wait_for_network, read_signal, check_signal}

abbrev Signal : {A : Type 0} → A → Trace → Type 0
Signal _ u = Has (counted read_ready 1) u

-- After a success, the byte 1 was read.
abbrev pub IsSignalled : {A : Type 0} → Result A × Trace → Type 0
IsSignalled r = Succeeds Signal r

after_cleanup :
    {A B : Type 0} (r : Result A × Trace) (cleanup : Io B)
    → Makes (λ _. Unit) cleanup
    → IsSignalled r
    → IsSignalled (r.0, (cleanup r.1).1)
after_cleanup (ok a, u) cleanup makes h = Has-IsPast _ u _ (Extends-IsPast u _ (makes.at u)) h
after_cleanup (err e, u) cleanup makes h = tt

module _ (os : Os) where
  check_signal-Has :
      (n : ℕ) (t : Trace) → IsSignalled (check_signal os n (counted read_ready n ∷ t))
  unfolding check_signal ◌>>=◌ Has
  check_signal-Has n t = elim (Bool-cases (n == 1)) [
    | inl one ↦ let e : n ≡ 1 = ground arith in rw (one, e) (inl refl)
    | inr other ↦ rw other tt
  ]

  read_signal-Has : (t : Trace) → IsSignalled (read_signal os t)
  unfolding read_signal
  read_signal-Has t =
      then_known Signal (λ n u. u ≡ counted read_ready n ∷ t) _ _ t
        (last_number os _ read_ready t (λ n u. u ≡ counted read_ready n ∷ t) λ n. refl)
        λ n u e.
          subst (λ (v : Trace). IsSignalled (check_signal os n v)) (sym e) (check_signal-Has n t)

  deferred-Has : (t : Trace) → IsSignalled (deferred (read_signal os) (act os close_ready) t)
  unfolding ◌>>=◌
  deferred-Has t =
      after_cleanup (read_signal os t) (act os close_ready) (search makes_rules depth 4)
        (read_signal-Has t)

  -- The byte 1 was read.
  pub wait_for_network-Has : (t : Trace) → IsSignalled (wait_for_network os t)
  unfolding wait_for_network
  wait_for_network-Has t =
      then_known Signal (λ _ u. Unit) _ _ t (last_act os _ open_ready t (λ _ u. Unit) tt)
        λ _ u _. deferred-Has u
