-- ===== src/Oci/Mode.antt =====
-- The mode bits that applyMetadata hands to Chmod.
use Prim.Native.Nat.{bit_or}
use kernlet.Common.{
  ℕ, zero, suc, ◌+◌, ◌*◌, ◌/◌, ◌%◌, ◌^◌, ◌<◌, Bool, true, false, ◌&&◌, ◌==◌, ==_iff, ◌≡◌, refl, ap,
  ◌∙◌, arith,
}

abbrev mode_setuid : ℕ
mode_setuid = 2 ^ 23

abbrev mode_setgid : ℕ
mode_setgid = 2 ^ 22

abbrev mode_sticky : ℕ
mode_sticky = 2 ^ 20

-- `mode |= flag` if the bit of the header is set; `mode&(1<<k) != 0` is `mode / 2^k % 2 == 1`.
add_flag : Bool → ℕ → ℕ → ℕ
add_flag true flag mode = bit_or mode flag
add_flag false flag mode = mode

-- The os.FileMode of a header's mode.
pub file_mode : ℕ → ℕ
unfolding add_flag
file_mode mode =
    let permissions = mode % 512 in
    let with_setuid = add_flag (mode / 2048 % 2 == 1) mode_setuid permissions in
    let with_setgid = add_flag (mode / 1024 % 2 == 1) mode_setgid with_setuid in
    add_flag (mode / 512 % 2 == 1) mode_sticky with_setgid

-- The bits that the package os hands to the system for a file mode.
pub syscall_mode : ℕ → ℕ
syscall_mode mode =
    mode % 512
    + 2048 * (mode / mode_setuid % 2)
    + 1024 * (mode / mode_setgid % 2)
    + 512 * (mode / mode_sticky % 2)

-- The test holds for the first `count` numbers.
holds_first : (ℕ → Bool) → ℕ → Bool
holds_first test zero = true
holds_first test (suc count) = holds_first test count && test count

holds_first_lem :
    (test : ℕ → Bool) (count mode : ℕ)
    → mode < count
    → holds_first test count ≡ true
    → test mode ≡ true
unfolding holds_first
holds_first_lem test zero mode less all = absurd (omega arith)
holds_first_lem test (suc count) mode less all = ground (arith, holds_first_lem test count mode)

mode_table : holds_first (λ x. syscall_mode (file_mode x) == x) 4096 ≡ true
unfolding holds_first syscall_mode file_mode
mode_table = refl

file_mode-mod : (mode : ℕ) → file_mode mode ≡ file_mode (mode % 4096)
unfolding file_mode
file_mode-mod mode =
    let p : mode % 512 ≡ mode % 4096 % 512 = omega arith in
    let u : mode / 2048 % 2 ≡ mode % 4096 / 2048 % 2 = omega arith in
    let g : mode / 1024 % 2 ≡ mode % 4096 / 1024 % 2 = omega arith in
    let s : mode / 512 % 2 ≡ mode % 4096 / 512 % 2 = omega arith in rw (p, u, g, s)

-- For every mode in a header, the system is handed its low twelve bits: the permissions and the
-- setuid, setgid and sticky bits, and nothing else.
pub syscall_mode-file_mode : (mode : ℕ) → syscall_mode (file_mode mode) ≡ mode % 4096
syscall_mode-file_mode mode =
    ap syscall_mode (file_mode-mod mode)
    ∙ (==_iff _ (mode % 4096)).0 (
        holds_first_lem (λ x. syscall_mode (file_mode x) == x) 4096 (mode % 4096) (omega arith)
          mode_table)
