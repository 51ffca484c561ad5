-- ===== src/AppleVm/Machine/Lifecycle.antt =====
-- No C function is given a handle that was destroyed.
use kernlet.Common.{
  ℕ, [], ◌∷◌, Option, none, some, Bool, true, false, Result, ok, err, ok-injective, ◌==◌,
  if◌then◌else◌, ◌≡◌, ◌≢◌, refl, sym, ap, ◌∙◌, arith,
}
use kernlet.AppleVm.Native.{
  Framework, Event, History, created, destroyed, started, stopped, dialled,
}
use kernlet.AppleVm.Config.{Config, validate}
use kernlet.AppleVm.Bridge.{
  NativeVm, new_native_vm, native_start, native_stop, native_close, native_dial_vsock,
}
use kernlet.AppleVm.Machine.{Vm, made_vm, create_valid, new, start, stop, close, dial_vsock}
use kernlet.AppleVm.Machine.Steps.{
  System, Operation, starting, stopping, closing, dialling, perform, call, Reach, here, next,
}

-- Whether the handle stands for a machine: its latest creation was not followed by its destruction.
pub is_live : ℕ → History → Bool
is_live x [] = false
is_live x (created y ∷ h) = let rest = is_live x h in if y == x then true else rest
is_live x (destroyed y ∷ h) = let rest = is_live x h in if y == x then false else rest
is_live x (_ ∷ h) = is_live x h

-- Whether the call is given the handle.
abbrev pub uses : ℕ → Event → Bool
uses x (started y) = y == x
uses x (stopped y) = y == x
uses x (dialled y port) = y == x
uses x (destroyed y) = y == x
uses x _ = false

-- Every call that is given the handle found it live.
abbrev pub IsSafe : ℕ → History → Type 0
IsSafe x [] = Unit
IsSafe x (e ∷ h) = (uses x e ≡ true → is_live x h ≡ true) × IsSafe x h

-- An open machine has the handle, which is live; that of a closed one is not.
abbrev pub Matches : ℕ → Option NativeVm → History → Type 0
Matches x (some native) h = (native.handle ≡ x) × (is_live x h ≡ true)
Matches x none h = is_live x h ≡ false

pub record Inv (x : ℕ) (s : System) : Type 0 where
  pub safe : IsSafe x s.history
  pub matches : Matches x s.vm.native s.history

-- The history grew by events that leave the handle as it is.
pub record Keeps (x : ℕ) (h k : History) : Type 0 where
  pub live : is_live x k ≡ is_live x h
  pub safe : IsSafe x h → IsSafe x k

module _ (x : ℕ) (native : NativeVm) (h : History) (is_x : native.handle ≡ x)
    (lives : is_live x h ≡ true) (framework : Framework) where
  native_start-Keeps : Keeps x h (native_start framework native h).1
  unfolding native_start is_live
  native_start-Keeps = ground arith

  native_stop-Keeps : Keeps x h (native_stop framework native h).1
  unfolding native_stop is_live
  native_stop-Keeps = ground arith

  native_dial_vsock-Keeps : (port : ℕ) → Keeps x h (native_dial_vsock framework native port h).1
  unfolding native_dial_vsock is_live
  native_dial_vsock-Keeps port = ground arith

used-Inv :
    (x : ℕ) (native : NativeVm) (h k : History)
    → native.handle ≡ x
    → Inv x (record { vm = record { native = some native }; history = h })
    → Keeps x h k
    → Inv x (record { vm = record { native = some native }; history = k })
used-Inv x native h k is_x inv kept = record {
  safe = kept.safe inv.safe;
  matches = (is_x, kept.live ∙ inv.matches.1);
}

closed-Inv :
    (x : ℕ) (native : NativeVm) (h : History)
    → x ≢ 0
    → Inv x (record { vm = record { native = some native }; history = h })
    → Inv x (record { vm = record { native = none }; history = destroyed native.handle ∷ h })
unfolding is_live
closed-Inv x native h nonzero inv = ground arith

perform-Inv :
    (framework : Framework) (x : ℕ) (operation : Operation) (native : Option NativeVm) (h : History)
    → x ≢ 0
    → Inv x (record { vm = record { native = native }; history = h })
    → Inv x
        (perform framework operation (record { vm = record { native = native }; history = h })).1
unfolding perform start stop close dial_vsock native_close
perform-Inv framework x starting none h nonzero inv = inv
perform-Inv framework x stopping none h nonzero inv = inv
perform-Inv framework x closing none h nonzero inv = inv
perform-Inv framework x (dialling port) none h nonzero inv = inv
perform-Inv framework x starting (some native) h nonzero inv =
    used-Inv x native h _ inv.matches.0 inv
      (native_start-Keeps x native h inv.matches.0 inv.matches.1 framework)
perform-Inv framework x stopping (some native) h nonzero inv =
    used-Inv x native h _ inv.matches.0 inv
      (native_stop-Keeps x native h inv.matches.0 inv.matches.1 framework)
perform-Inv framework x (dialling port) (some native) h nonzero inv =
    used-Inv x native h _ inv.matches.0 inv
      (native_dial_vsock-Keeps x native h inv.matches.0 inv.matches.1 framework port)
perform-Inv framework x closing (some native) h nonzero inv =
    ground (arith, closed-Inv x native h nonzero inv)

Reach-Inv :
    (framework : Framework) (x : ℕ) {s t : System} → x ≢ 0 → Inv x s → Reach framework s t → Inv x t
Reach-Inv framework x nonzero inv here = inv
Reach-Inv framework x nonzero inv (next {t} reached (call operation e)) = rw e (
    perform-Inv framework x operation t.vm.native t.history nonzero
      (Reach-Inv framework x nonzero inv reached))

new_native_vm-Inv :
    (framework : Framework) (config : Config) (native : NativeVm) (h : History)
    → (new_native_vm framework config h).0 ≡ ok native
    → ((x : ℕ) → IsSafe x h)
    → (native.handle ≢ 0)
      × Inv native.handle (record {
        vm = record { native = some native };
        history = (new_native_vm framework config h).1;
      })
unfolding new_native_vm is_live
new_native_vm-Inv framework config native h made safe = ground (arith, safe native.handle)

validate-IsSafe :
    (framework : Framework) (config : Config) (h : History) (x : ℕ)
    → IsSafe x h
    → IsSafe x (validate framework config h).1
unfolding validate
validate-IsSafe framework config h x safe = ground arith

-- The handle of a machine that New returned, and what holds of it at the start.
record IsNew (vm : Vm) (h : History) : Type 0 where
  handle : ℕ
  nonzero : handle ≢ 0
  opened : vm.native ≡ some (record { handle = handle })
  inv : Inv handle (record { vm = vm; history = h })

made_vm_sound :
    (framework : Framework) (made : Result NativeVm) (vm : Vm)
    → made_vm framework made ≡ ok vm
    → (native : NativeVm) × (made ≡ ok native) × (vm ≡ record { native = some native })
unfolding made_vm
made_vm_sound framework (err e) vm h = cc
made_vm_sound framework (ok native) vm h = (native, refl, sym (ok-injective h))

created-IsNew :
    (framework : Framework) (config : Config) (valid : Result (Unit {0})) (vm : Vm) (h : History)
    → (create_valid framework config valid h).0 ≡ ok vm
    → ((x : ℕ) → IsSafe x h)
    → IsNew vm (create_valid framework config valid h).1
unfolding create_valid
created-IsNew framework config (err e) vm h made safe = cc
created-IsNew framework config (ok _) vm h made safe =
    let (native, e, same) = made_vm_sound framework (new_native_vm framework config h).0 vm made in
    let (nonzero, inv) = new_native_vm-Inv framework config native h e safe in
    record {
      handle = native.handle;
      nonzero = nonzero;
      opened = ap (λ (v : Vm). v.native) same;
      inv = rw same inv;
    }

-- A machine that New returned, in a program that used every handle safely before: after any calls of
-- its methods, in any order, every C call that was given its handle found the handle live, and the
-- machine is open with its live handle, or closed and the handle destroyed.
pub new-Inv :
    (framework : Framework) (config : Config) (vm : Vm) (h : History) (t : System)
    → ((x : ℕ) → IsSafe x h)
    → (new framework config h).0 ≡ ok vm
    → Reach framework (record { vm = vm; history = (new framework config h).1 }) t
    → (x : ℕ) × (x ≢ 0) × (vm.native ≡ some (record { handle = x })) × Inv x t
unfolding new
new-Inv framework config vm h t safe made reached =
    let valid = validate framework config h in
    let start =
      created-IsNew framework config valid.0 vm valid.1 made
        (λ x. validate-IsSafe framework config h x (safe x)) in
    (
      start.handle,
      start.nonzero,
      start.opened,
      Reach-Inv framework start.handle start.nonzero start.inv reached,
    )
