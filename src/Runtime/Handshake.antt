-- ===== src/Runtime/Handshake.antt =====
-- The two processes of a run together: Run of the agent, and its child.
use kernlet.Common.{List, [], ◌∷◌, Bytes, ℕ, ◌⊎◌, inl, inr, ◌≡◌, refl, sym, ◌++◌, append_assoc, ◌∙◌}
use mathlib.Core.Path.{subst}
use kernlet.Sys.{Event, done, Trace, Os, write_ready}
use kernlet.Sys.Only.{call_of}
use kernlet.Sys.Has.{Has, Each, IsPast, Each-IsPast}
use kernlet.Runtime.Config.{Config}
use kernlet.Runtime.Init.{init_process}
use kernlet.Runtime.Init.Waits.{Waiting, signal, IsTimely, init_process-IsTimely}
use kernlet.Runtime.Run.{run}
use kernlet.Runtime.Run.Reports.{IsMoved, IsReported}
use kernlet.Runtime.Run.Signals.{run-IsReported}

-- The times of a run: what the parent and the child have done so far, of all that they are to do. Each
-- goes on at any time, but the child reads the byte 1 from the pipe only when the parent has written it.
pub data Together (parent child : Trace) : Trace → Trace → Type 0 where
  both_start : Together parent child [] []
  parent_goes :
      (e : Event) (p c : Trace)
      → Together parent child p c
      → IsPast (e ∷ p) parent
      → Together parent child (e ∷ p) c
  child_goes :
      (e : Event) (p c : Trace)
      → Together parent child p c
      → IsPast (e ∷ c) child
      → (e ≡ signal → Has (done write_ready) p)
      → Together parent child p (e ∷ c)

-- At some time, the parent wrote the signal, and just before that it had moved the workload's interface
-- into the namespaces of the child.
unfoldable pub IsConnected : Trace → Type 0
IsConnected [] = ⊥
IsConnected (e ∷ t) = ((e ≡ done write_ready) × IsMoved t) ⊎ IsConnected t

IsConnected-Has : (t : Trace) → Each IsReported t → Has (done write_ready) t → IsConnected t
unfolding Each Has IsConnected
IsConnected-Has [] k h = absurd h
IsConnected-Has (e ∷ t) k (inl same) =
    inl (sym same, subst (λ (f : Event). IsReported f t) (sym same) k.0)
IsConnected-Has (e ∷ t) k (inr h) = inr (IsConnected-Has t k.1 h)

module _ (parent child : Trace) where
  -- What was read was written.
  written : {p c : Trace} → Together parent child p c → Has signal c → Has (done write_ready) p
  unfolding Has
  written both_start h = absurd h
  written (parent_goes e p c t past) h = inr (written t h)
  written (child_goes e p c t past pipe) (inl same) = pipe (sym same)
  written (child_goes e p c t past pipe) (inr h) = written t h

  parent-Each :
      {p c : Trace} → Together parent child p c → Each IsReported parent → Each IsReported p
  unfolding Each
  parent-Each both_start k = tt
  parent-Each (parent_goes e p c t past) k = Each-IsPast IsReported (e ∷ p) parent past k
  parent-Each (child_goes e p c t past pipe) k = parent-Each t k

  child-Each : {p c : Trace} → Together parent child p c → Each IsTimely child → Each IsTimely c
  unfolding Each
  child-Each both_start k = tt
  child-Each (parent_goes e p c t past) k = child-Each t k
  child-Each (child_goes e p c t past pipe) k = Each-IsPast IsTimely (e ∷ c) child past k

-- Each event of the child is one of its checks, or the parent has connected it before.
pub IsSafe : Trace → Trace → Type 0
IsSafe p [] = Unit
IsSafe p (e ∷ c) = (Waiting (call_of e) ⊎ IsConnected p) × IsSafe p c

safe_event :
    (P : Type 0) (e : Event) (c d : Trace)
    → (Has signal d → P)
    → (Has signal c → Has signal d)
    → Waiting (call_of e) ⊎ Has signal c
    → Waiting (call_of e) ⊎ P
safe_event P e c d known more (inl w) = inl w
safe_event P e c d known more (inr h) = inr (known (more h))

IsSafe-Each :
    (p c d : Trace)
    → (Has signal d → IsConnected p)
    → (Has signal c → Has signal d)
    → Each IsTimely c
    → IsSafe p c
unfolding IsSafe Each Has
IsSafe-Each p [] d known more k = tt
IsSafe-Each p (e ∷ c) d known more k = (
  safe_event (IsConnected p) e c d known (λ h. more (inr h)) k.0,
  IsSafe-Each p c d known (λ h. more (inr h)) k.1,
)

earlier_IsPast : (e : Event) (t u : Trace) → IsPast (e ∷ t) u → IsPast t u
earlier_IsPast e t u past = record {
  later = past.later ++ e ∷ [];
  whole = past.whole ∙ sym (append_assoc past.later (e ∷ []) t);
}

-- If the parent writes the signal at all, both can come to their ends.
module _ (parent child : Trace) where
  parent_alone : (p : Trace) → IsPast p parent → Together parent child p []
  parent_alone [] past = both_start
  parent_alone (e ∷ p) past =
      parent_goes e p [] (parent_alone p (earlier_IsPast e p parent past)) past

  then_child :
      (c : Trace) → Has (done write_ready) parent → IsPast c child → Together parent child parent c
  then_child [] h past = parent_alone parent (record { later = []; whole = refl })
  then_child (e ∷ c) h past =
      child_goes e parent c (then_child c h (earlier_IsPast e c child past)) past λ _. h

  pub one_after_the_other : Has (done write_ready) parent → Together parent child parent child
  one_after_the_other h = then_child child h (record { later = []; whole = refl })

-- Whatever the system answers to the two processes, and however their steps interleave, if the byte 1
-- comes out of the pipe only after it was written: whenever the child has made a call other than os.Stat
-- and the calls on its end of the pipe, Run has moved the workload's interface into the namespaces of the
-- child that it started, and has written the signal right after that.
pub run-init_process :
    (os child_os : Os) (order : List (Bytes × Bytes) → List (Bytes × Bytes)) (sequence : ℕ)
    (config : Config) (args : List Bytes) (p c : Trace)
    → Together (run os order sequence config []).1 (init_process child_os args []).1 p c
    → IsSafe p c
run-init_process os child_os order sequence config args p c together =
    IsSafe-Each p c c
      (λ h.
        IsConnected-Has p (parent-Each _ _ together (run-IsReported os order sequence config))
          (written _ _ together h))
      (λ h. h) (child-Each _ _ together (init_process-IsTimely child_os args))
