-- ===== src/Smoke/Released.antt =====
-- The machine of the program, when it ends.
use kernlet.Common.{
  ℕ, ◌+◌, [], ◌∷◌, some, ◌||◌, Result, ok, err, equal, ◌==◌, if◌then◌else◌, ◌≡◌, ◌≢◌, refl,
  Bool-cases, inl, inr, arith,
}
use kernlet.Agent.{Response}
use kernlet.AppleVm.Native.{Framework, History, created, destroyed}
use kernlet.AppleVm.Config.{Config, validate}
use kernlet.AppleVm.Bridge.{
  NativeVm, native_close, native_start, native_stop, native_dial_vsock, new_native_vm,
}
use kernlet.AppleVm.Machine.{Vm, made_vm, create_valid, new, start, stop, dial_vsock, close}
use kernlet.Smoke.{
  Flags, Guest, Ending, returned, finish, after_response, receive, send, after_send, after_dial,
  after_start, after_new, main, smoke_config,
}

-- How often the handle was created, and destroyed.
pub creations : ℕ → History → ℕ
creations p [] = 0
creations p (created q ∷ h) = (if q == p then 1 else 0) + creations p h
creations p (_ ∷ h) = creations p h

pub destructions : ℕ → History → ℕ
destructions p [] = 0
destructions p (destroyed q ∷ h) = (if q == p then 1 else 0) + destructions p h
destructions p (_ ∷ h) = destructions p h

-- From one history to a later one, so many more creations than destructions of the handle.
pub record Surplus (p n : ℕ) (before after : History) : Type 0 where
  pub surplus :
      creations p after + destructions p before ≡ n + creations p before + destructions p after

-- If the program came to the end of `main`, then it destroyed what it created.
abbrev pub Released : History → Ending × History → Type 0
Released before (returned, u) = (p : ℕ) → Surplus p 0 before u
Released before (_, u) = Unit

-- The machine of the handle is open.
abbrev pub IsOpen : ℕ → History → History → Type 0
IsOpen x before h = (p : ℕ) → Surplus p (if x == p then 1 else 0) before h

module _ (framework : Framework) (guest : Guest) (x : ℕ) (nonzero : x ≢ 0) (before : History) where
  finish-Released :
      (conn : ℕ) (h : History)
      → IsOpen x before h
      → Released before
          (finish framework guest conn (record { native = some (record { handle = x }) }) h)
  unfolding finish stop close native_stop native_close creations destructions
  finish-Released conn h o = λ p. record { surplus = ground (arith, (o p).surplus) }

  after_response-Released :
      (conn : ℕ) (response : Result Response) (h : History)
      → IsOpen x before h
      → Released before (
          after_response framework guest conn
            (record { native = some (record { handle = x }) })
            response
            h)
  unfolding after_response creations destructions
  after_response-Released conn (err e) h o = tt
  after_response-Released conn (ok response) h o = elim (Bool-cases response.success) [
    | inl success ↦ rw success (finish-Released conn _ λ p. record { surplus = (o p).surplus })
    | inr failed ↦ rw failed tt
  ]

  after_send-Released :
      (conn : ℕ) (r : Result (Unit {0})) (h : History)
      → IsOpen x before h
      → Released before
          (after_send framework guest conn (record { native = some (record { handle = x }) }) r h)
  unfolding after_send receive creations destructions
  after_send-Released conn (err e) h o = tt
  after_send-Released conn (ok _) h o =
      after_response-Released conn _ _ λ p. record { surplus = (o p).surplus }

  after_dial-Released :
      (r : Result ℕ) (h : History)
      → IsOpen x before h
      → Released before
          (after_dial framework guest (r, record { native = some (record { handle = x }) }) h)
  unfolding after_dial send creations destructions
  after_dial-Released (err e) h o = tt
  after_dial-Released (ok conn) h o =
      after_send-Released conn _ _ λ p. record { surplus = (o p).surplus }

  dial_vsock-IsOpen :
      (port : ℕ) (h : History)
      → IsOpen x before h
      → IsOpen x before (native_dial_vsock framework (record { handle = x }) port h).1
  unfolding native_dial_vsock creations destructions
  dial_vsock-IsOpen port h o = λ p. record { surplus = ground (arith, (o p).surplus) }

  start-IsOpen :
      (h : History)
      → IsOpen x before h
      → IsOpen x before (native_start framework (record { handle = x }) h).1
  unfolding native_start creations destructions
  start-IsOpen h o = λ p. record { surplus = ground (arith, (o p).surplus) }

  after_start-Released :
      (r : Result (Unit {0})) (h : History)
      → IsOpen x before h
      → Released before
          (after_start framework guest (r, record { native = some (record { handle = x }) }) h)
  unfolding after_start dial_vsock creations destructions
  after_start-Released (err e) h o = tt
  after_start-Released (ok _) h o =
      after_dial-Released _ _ (dial_vsock-IsOpen _ _ λ p. record { surplus = (o p).surplus })

  after_new-Released :
      (h : History)
      → IsOpen x before h
      → Released before
          (after_new framework guest (ok (record { native = some (record { handle = x }) })) h)
  unfolding after_new start creations destructions
  after_new-Released h o =
      after_start-Released _ _ (start-IsOpen _ λ p. record { surplus = (o p).surplus })

module _ (framework : Framework) where
  new_native_vm-handle :
      (config : Config) (native : NativeVm) (h : History)
      → (new_native_vm framework config h).0 ≡ ok native
      → native.handle ≢ 0
  unfolding new_native_vm
  new_native_vm-handle config native h made = ground arith

  new_native_vm-IsOpen :
      (config : Config) (native : NativeVm) (h : History)
      → (new_native_vm framework config h).0 ≡ ok native
      → IsOpen native.handle h (new_native_vm framework config h).1
  unfolding new_native_vm creations destructions
  new_native_vm-IsOpen config native h made = λ p. record { surplus = ground arith }

  validate-Surplus :
      (config : Config) (h : History) (p : ℕ) → Surplus p 0 h (validate framework config h).1
  unfolding validate creations destructions
  validate-Surplus config h p = record { surplus = ground arith }

  Surplus-trans : (p n : ℕ) {t u v : History} → Surplus p 0 t u → Surplus p n u v → Surplus p n t v
  Surplus-trans p n h k = record { surplus = ground (arith, h.surplus, k.surplus) }

  -- What New returns, if it returns a machine.
  abbrev IsMade : History → Result Vm × History → Type 0
  IsMade before (ok vm, u) =
      (x : ℕ) × (x ≢ 0)
      × (vm ≡ record { native = some (record { handle = x }) })
      × IsOpen x before u
  IsMade before (err e, u) = Unit

  made_vm-IsMade :
      (before : History) (made : Result NativeVm) (u : History)
      → ((native : NativeVm)
          → made ≡ ok native
          → (native.handle ≢ 0) × IsOpen native.handle before u)
      → IsMade before (made_vm framework made, u)
  unfolding made_vm
  made_vm-IsMade before (ok native) u h =
      let (nonzero, opened) = h native refl in (native.handle, nonzero, refl, opened)
  made_vm-IsMade before (err e) u h = tt

  create_valid-IsMade :
      (config : Config) (valid : Result (Unit {0})) (before h : History)
      → ((p : ℕ) → Surplus p 0 before h)
      → IsMade before (create_valid framework config valid h)
  unfolding create_valid
  create_valid-IsMade config (ok _) before h same =
      made_vm-IsMade before (new_native_vm framework config h).0
        (new_native_vm framework config h).1
        λ native made. (
          new_native_vm-handle config native h made,
          λ p. Surplus-trans p _ (same p) (new_native_vm-IsOpen config native h made p),
        )
  create_valid-IsMade config (err e) before h same = tt

  new-IsMade : (config : Config) (h : History) → IsMade h (new framework config h)
  unfolding new
  new-IsMade config h =
      let valid = validate framework config h in
      create_valid-IsMade config valid.0 h valid.1 (validate-Surplus config h)

  made-Released :
      (guest : Guest) (before : History) (r : Result Vm × History)
      → IsMade before r
      → Released before (after_new framework guest r.0 r.1)
  unfolding after_new
  made-Released guest before (err e, u) made = tt
  made-Released guest before (ok vm, u) (x, nonzero, same, opened) =
      rw same (after_new-Released framework guest x nonzero before u opened)

  -- Whatever the flags, the C side and the guest do: if the program comes to the end of `main`, then it
  -- has destroyed every machine as often as it has created it.
  pub main-Released :
      (guest : Guest) (flags : Flags) (h : History) → Released h (main framework guest flags h)
  unfolding main
  main-Released guest flags h = elim (Bool-cases (equal flags.kernel [] || equal flags.disk [])) [
    | inl missing ↦ rw missing tt
    | inr given ↦ rw given (
        made-Released guest h (new framework (smoke_config flags) h)
          (new-IsMade (smoke_config flags) h))
  ]
