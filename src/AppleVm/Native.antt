-- ===== src/AppleVm/Native.antt =====
-- The C side of the bridge, which is a parameter: pkg/applevm/applevm_bridge.h declares its functions.
use kernlet.Common.{
  ℕ, List, ◌∷◌, Bytes, Option, none, some, Bool, Error, Result, ◌==◌, if◌then◌else◌,
}

-- applevm_config_t; the strings are pointers.
pub record NativeConfig : Type 0 where
  pub kernel_path : ℕ
  pub initramfs_path : ℕ
  pub root_disk_path : ℕ
  pub kernel_command_line : ℕ
  pub cpu_count : ℕ
  pub memory_size : ℕ

-- What happened on the C side. Strings, errors and handles are known by their pointers.
pub data Event : Type 0 where
  inspected : Bytes → Event
  made_string freed_string : ℕ → Event
  made_error freed_error : ℕ → Event
  create_called : NativeConfig → Event
  created destroyed started stopped : ℕ → Event
  dialled : (handle port : ℕ) → Event
  -- a text on the standard output, an error on the log, and what happens on a connection, known by its descriptor
  printed : Bytes → Event
  reported : Error → Event
  sent received closed_file : ℕ → Event

-- The events so far, the latest first.
abbrev pub History : Type 0
History = List Event

-- `char *` behind `error_out`: nil, or the pointer and the text.
abbrev pub CError : Type 0
CError = Option (ℕ × Bytes)

-- What the C functions answer, given all events so far: malloc in C.CString, applevm_create,
-- applevm_start, applevm_stop and applevm_vsock_connect, with the value of `*error_out`. A handle is
-- nil when it is 0. Besides: os.Stat, and whether os.NewFile takes a descriptor.
pub record Framework : Type 0 where
  pub pointer : History → ℕ
  pub create : History → NativeConfig → ℕ × CError
  pub start : History → ℕ → ℕ × CError
  pub stop : History → ℕ → ℕ × CError
  pub connect : History → ℕ → ℕ → (ℕ × ℕ) × CError
  pub stat : History → Bytes → Result (Unit {0})
  pub is_file : ℕ → Bool

-- Code that calls C.
abbrev pub Foreign : Type 0 → Type 0
Foreign A = History → A × History

infixl 5 ◌>>=◌ ◌>>◌
abbrev pub ◌>>=◌ : {A B : Type 0} → Foreign A → (A → Foreign B) → Foreign B
◌>>=◌ m rest h = rest (m h).0 (m h).1

abbrev pub ◌>>◌ : {A B : Type 0} → Foreign A → Foreign B → Foreign B
m >> rest = m >>= λ _. rest

abbrev pub pure : {A : Type 0} → A → Foreign A
pure a h = (a, h)

abbrev pub note : Event → Foreign (Unit {0})
note e h = (tt, e ∷ h)

abbrev pub with_error : CError → History → History
with_error none h = h
with_error (some (p, text)) h = made_error p ∷ h

abbrev pub with_handle : ℕ → History → History
with_handle handle h = if handle == 0 then h else created handle ∷ h

module _ (framework : Framework) where
  abbrev pub c_string : Bytes → Foreign ℕ
  c_string text h = (framework.pointer h, made_string (framework.pointer h) ∷ h)

  abbrev pub stat : Bytes → Foreign (Result (Unit {0}))
  stat path h = (framework.stat h path, inspected path ∷ h)

  abbrev pub applevm_create : NativeConfig → Foreign (ℕ × CError)
  applevm_create config h = (
    framework.create h config,
    with_error (framework.create h config).1
        (with_handle (framework.create h config).0 (create_called config ∷ h)),
  )

  abbrev pub applevm_start : ℕ → Foreign (ℕ × CError)
  applevm_start handle h =
      (framework.start h handle, with_error (framework.start h handle).1 (started handle ∷ h))

  abbrev pub applevm_stop : ℕ → Foreign (ℕ × CError)
  applevm_stop handle h =
      (framework.stop h handle, with_error (framework.stop h handle).1 (stopped handle ∷ h))

  abbrev pub applevm_vsock_connect : ℕ → ℕ → Foreign ((ℕ × ℕ) × CError)
  applevm_vsock_connect handle port h = (
    framework.connect h handle port,
    with_error (framework.connect h handle port).1 (dialled handle port ∷ h),
  )
