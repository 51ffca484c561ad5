-- ===== src/AppleVm/Machine/Closed.antt =====
-- What a closed machine answers, and what an open one does.
use mathlib.Core.Path.{subst}
use kernlet.Common.{
  ℕ, List, [], ◌∷◌, Option, none, some, Bool, true, false, ◌||◌, Result, ok, err, ◌≡◌, ◌≢◌, refl,
  sym, ap, ◌∙◌, arith,
}
use kernlet.AppleVm.Native.{Framework, History}
use kernlet.AppleVm.Bridge.{NativeVm}
use kernlet.AppleVm.Machine.{err_closed, start, stop, close, dial_vsock}
use kernlet.AppleVm.Machine.Steps.{
  System, Operation, starting, stopping, closing, dialling, perform, call, Reach, here, next,
}

-- The specification: a machine is open until the first Close, and all that it tells the caller of this
-- is the error ErrClosed.
abbrev pub closes : Operation → Bool
closes closing = true
closes _ = false

abbrev pub Answer : (closed : Bool) → Operation → Result (Option ℕ) → Type 0
Answer closed closing r = r ≡ ok none
Answer true operation r = r ≡ err err_closed
Answer false operation r = r ≢ err err_closed

-- The answers to a sequence of calls are those of the specification.
pub Conforms : Framework → (closed : Bool) → List Operation → System → Type 0
Conforms framework closed [] s = Unit
Conforms framework closed (operation ∷ operations) s =
    Answer closed operation (perform framework operation s).0
    × Conforms framework (closed || closes operation) operations (perform framework operation s).1

abbrev pub is_closed : Option NativeVm → Bool
is_closed none = true
is_closed (some native) = false

perform-Answer :
    (framework : Framework) (operation : Operation) (native : Option NativeVm) (h : History)
    → Answer
        (is_closed native)
        operation
        (perform framework operation (record { vm = record { native = native }; history = h })).0
unfolding perform start stop close dial_vsock
perform-Answer framework starting none h = refl
perform-Answer framework stopping none h = refl
perform-Answer framework closing none h = refl
perform-Answer framework (dialling port) none h = refl
perform-Answer framework closing (some native) h = refl
perform-Answer framework starting (some native) h = λ e. ground arith
perform-Answer framework stopping (some native) h = λ e. ground arith
perform-Answer framework (dialling port) (some native) h = λ e. ground arith

closed_after :
    (framework : Framework) (operation : Operation) (native : Option NativeVm) (h : History)
    → is_closed
        (perform framework operation
          (record { vm = record { native = native }; history = h })).1.vm.native
      ≡ (is_closed native || closes operation)
unfolding perform start stop close dial_vsock
closed_after framework starting none h = refl
closed_after framework stopping none h = refl
closed_after framework closing none h = refl
closed_after framework (dialling port) none h = refl
closed_after framework closing (some native) h = refl
closed_after framework starting (some native) h = refl
closed_after framework stopping (some native) h = refl
closed_after framework (dialling port) (some native) h = refl

-- The methods of a machine answer any sequence of calls as the specification does: Close never fails,
-- and Start, Stop and DialVsock return ErrClosed exactly when a Close came before them.
pub perform-Conforms :
    (framework : Framework) (operations : List Operation) (s : System)
    → Conforms framework (is_closed s.vm.native) operations s
unfolding Conforms
perform-Conforms framework [] s = tt
perform-Conforms framework (operation ∷ operations) s = (
  perform-Answer framework operation s.vm.native s.history,
  subst (λ closed. Conforms framework closed operations (perform framework operation s).1)
      (closed_after framework operation s.vm.native s.history)
      (perform-Conforms framework operations (perform framework operation s).1),
)

closed_quiet :
    (framework : Framework) (operation : Operation) (h : History)
    → (perform framework operation (record { vm = record { native = none }; history = h })).1
      ≡ record { vm = record { native = none }; history = h }
unfolding perform start stop close dial_vsock
closed_quiet framework starting h = refl
closed_quiet framework stopping h = refl
closed_quiet framework closing h = refl
closed_quiet framework (dialling port) h = refl

closed_perform :
    (framework : Framework) (operation : Operation) (s : System)
    → s.vm.native ≡ none
    → (perform framework operation s).1 ≡ s
closed_perform framework operation s closed =
    let e : s ≡ record { vm = record { native = none }; history = s.history } =
      ap (λ (n : Option NativeVm). record { vm = record { native = n }; history = s.history })
        closed in
    ap (λ (r : System). (perform framework operation r).1) e
    ∙ closed_quiet framework operation s.history
    ∙ sym e

close_closes :
    (framework : Framework) (native : Option NativeVm) (h : History)
    → (perform framework closing
        (record { vm = record { native = native }; history = h })).1.vm.native
      ≡ none
unfolding perform close
close_closes framework none h = refl
close_closes framework (some native) h = refl

reached_closed :
    (framework : Framework) {s t : System} → s.vm.native ≡ none → Reach framework s t → t ≡ s
reached_closed framework closed here = refl
reached_closed framework closed (next {t} reached (call operation e)) =
    let same = reached_closed framework closed reached in
    e ∙ closed_perform framework operation t (ap (λ (r : System). r.vm.native) same ∙ closed) ∙ same

-- Close is final: whatever methods are called after it, the machine stays closed, and no C function is
-- called again.
pub close_final :
    (framework : Framework) (s t : System)
    → Reach framework (perform framework closing s).1 t
    → (t.vm.native ≡ none) × (t.history ≡ (perform framework closing s).1.history)
close_final framework s t reached =
    let closed = close_closes framework s.vm.native s.history in
    let same = reached_closed framework closed reached in
    (ap (λ (r : System). r.vm.native) same ∙ closed, ap (λ (r : System). r.history) same)
