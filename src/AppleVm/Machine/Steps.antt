-- ===== src/AppleVm/Machine/Steps.antt =====
-- What programs may do with a machine: any sequence of calls of its methods.
use kernlet.Common.{ℕ, Option, none, some, Result, ok, err, ◌≡◌}
use kernlet.AppleVm.Native.{Framework, History}
use kernlet.AppleVm.Machine.{Vm, start, stop, close, dial_vsock}

pub data Operation : Type 0 where
  starting stopping closing : Operation
  dialling : ℕ → Operation

pub record System : Type 0 where
  pub vm : Vm
  pub history : History

-- The descriptor that DialVsock returns, for the results of all methods.
abbrev pub no_value : Result (Unit {0}) → Result (Option ℕ)
no_value (ok _) = ok none
no_value (err e) = err e

abbrev pub a_value : Result ℕ → Result (Option ℕ)
a_value (ok n) = ok (some n)
a_value (err e) = err e

-- The result of a call, and the machine and the history afterwards.
unfoldable pub perform : Framework → Operation → System → Result (Option ℕ) × System
perform framework starting s =
    let after = start framework s.vm s.history in
    (no_value after.0.0, record { vm = after.0.1; history = after.1 })
perform framework stopping s =
    let after = stop framework s.vm s.history in
    (no_value after.0.0, record { vm = after.0.1; history = after.1 })
perform framework closing s =
    let after = close s.vm s.history in
    (no_value after.0.0, record { vm = after.0.1; history = after.1 })
perform framework (dialling port) s =
    let after = dial_vsock framework port s.vm s.history in
    (a_value after.0.0, record { vm = after.0.1; history = after.1 })

pub data Step (framework : Framework) (s t : System) : Type 0 where
  call : (operation : Operation) → t ≡ (perform framework operation s).1 → Step framework s t

pub data Reach (framework : Framework) (s : System) : System → Type 0 where
  here : Reach framework s s
  next : {t u : System} → Reach framework s t → Step framework t u → Reach framework s u
