-- ===== src/Oci/Configuration.antt =====
-- The checks that Prepare makes of the image configuration.
use kernlet.Common.{
  ℕ, ◌<◌, ◌≤◌, String, List, [], ◌∷◌, ◌++◌, Bytes, codes, Bool, true, false, not, Result, ok, err,
  fault, fail_if, equal, equal→eq, All, ◌>>=◌, ◌>>◌, >>=-eq-ok, ◌≡◌, ◌≢◌, sym, ap, ◌∙◌, arith,
}
use kernlet.Text.Decimal.{max_u32}
use kernlet.FilePath.{clean, is_abs}
use kernlet.FilePath.Clean.{clean-clean}
use kernlet.Oci.Image.{ImageConfiguration}
use kernlet.Oci.User.{parse_user, parse_user_sound}
use kernlet.Oci.Environment.{validate_environment, IsEntry, validate_environment_iff}

-- `len(list) != 1` is refused, and then the code takes `list[0]`.
pub exactly_one : {A : Type 0} → String → List A → Result A
exactly_one message [] = err (fault message)
exactly_one message (a ∷ []) = ok a
exactly_one message (a ∷ b ∷ list) = err (fault message)

-- `if workingDirectory == "" { workingDirectory = "/" }`
abbrev pub or_root : Bytes → Bytes
or_root [] = codes "/"
or_root (c ∷ path) = c ∷ path

abbrev pub is_empty {ℓ} : {A : Type ℓ} → List A → Bool
is_empty [] = true
is_empty (a ∷ list) = false

-- What Prepare takes from the configuration, besides the environment.
pub record Workload : Type 0 where
  pub diff_id : Bytes
  pub uid : ℕ
  pub gid : ℕ
  pub command : List Bytes
  pub working_dir : Bytes

abbrev pub command_of : ImageConfiguration → List Bytes
command_of image = image.config.entrypoint ++ image.config.cmd

abbrev pub working_dir_of : ImageConfiguration → Bytes
working_dir_of image = clean (or_root image.config.working_dir)

-- The platform and the shape of the root filesystem; the result is the diff ID.
check_platform : Bytes → ImageConfiguration → Result Bytes
unfolding exactly_one
check_platform goarch image = do
  fail_if (not (equal image.os (codes "linux"))) "image OS must be linux"
  fail_if (not (equal image.architecture goarch))
      "image architecture does not match guest architecture"
  fail_if (not (equal image.root_fs.type (codes "layers"))) "unsupported rootfs type"
  exactly_one "OCI V1 requires exactly one diff ID" image.root_fs.diff_ids

-- The identity, the command, the environment and the working directory, in this order.
check_process : ImageConfiguration → Bytes → Result Workload
check_process image diff_id = do
  (uid, gid) ← parse_user image.config.user
  fail_if (is_empty (command_of image)) "image does not define an entrypoint or command"
  validate_environment image.config.env
  fail_if (not (is_abs (working_dir_of image))) "image working directory must be absolute"
  ok (record {
    diff_id = diff_id;
    uid = uid;
    gid = gid;
    command = command_of image;
    working_dir = working_dir_of image;
  })

unfoldable pub check_configuration : Bytes → ImageConfiguration → Result Workload
unfolding check_platform check_process
check_configuration goarch image = do
  diff_id ← check_platform goarch image
  check_process image diff_id

-- A workload that the image asks for and the runtime may run: no root identity, a command, an
-- environment of well-formed entries, and a working directory that is absolute and clean.
pub record IsRunnable (goarch : Bytes) (image : ImageConfiguration) (workload : Workload)
    : Type 0 where
  pub platform : (image.os ≡ codes "linux") × (image.architecture ≡ goarch)
  pub one_layer : image.root_fs.diff_ids ≡ workload.diff_id ∷ []
  pub uid : (0 < workload.uid) × (workload.uid ≤ max_u32)
  pub gid : (0 < workload.gid) × (workload.gid ≤ max_u32)
  pub command :
      (workload.command ≡ image.config.entrypoint ++ image.config.cmd) × (workload.command ≢ [])
  pub environment : All IsEntry image.config.env
  pub absolute : is_abs workload.working_dir ≡ true
  pub clean_dir : clean workload.working_dir ≡ workload.working_dir

exactly_one_sound :
    {A : Type 0} (message : String) (list : List A) (a : A)
    → exactly_one message list ≡ ok a
    → list ≡ a ∷ []
unfolding exactly_one
exactly_one_sound message [] a h = cc
exactly_one_sound message (b ∷ []) a h = cc
exactly_one_sound message (b ∷ c ∷ list) a h = cc

check_platform_sound :
    (goarch : Bytes) (image : ImageConfiguration) (diff_id : Bytes)
    → check_platform goarch image ≡ ok diff_id
    → (image.os ≡ codes "linux")
      × (image.architecture ≡ goarch)
      × (image.root_fs.diff_ids ≡ diff_id ∷ [])
unfolding check_platform
check_platform_sound goarch image diff_id h = ground (
  arith,
  equal→eq image.os (codes "linux"),
  equal→eq image.architecture goarch,
  exactly_one_sound "OCI V1 requires exactly one diff ID" image.root_fs.diff_ids diff_id,
)

not_empty {ℓ} : {A : Type ℓ} (list : List A) → is_empty list ≡ false → list ≢ []
not_empty [] h = cc
not_empty (a ∷ list) h = λ e. cc

check_process_sound :
    (image : ImageConfiguration) (diff_id : Bytes) (workload : Workload)
    → check_process image diff_id ≡ ok workload
    → (parse_user image.config.user ≡ ok (workload.uid, workload.gid))
      × (is_empty (command_of image) ≡ false)
      × (validate_environment image.config.env ≡ ok tt)
      × (is_abs (working_dir_of image) ≡ true)
      × (workload.diff_id ≡ diff_id)
      × (workload.command ≡ command_of image)
      × (workload.working_dir ≡ working_dir_of image)
unfolding check_process
check_process_sound image diff_id workload h = ground arith

-- Every configuration that is accepted is for linux on the guest's architecture, has one diff ID, a
-- nonzero 32-bit UID and GID, a command, which is the entrypoint and then the arguments, only
-- well-formed environment entries, and a working directory that is absolute and clean.
pub check_configuration-IsRunnable :
    (goarch : Bytes) (image : ImageConfiguration) (workload : Workload)
    → check_configuration goarch image ≡ ok workload
    → IsRunnable goarch image workload
unfolding check_configuration
check_configuration-IsRunnable goarch image workload h =
    let (diff_id, platform, process) =
      >>=-eq-ok (check_platform goarch image) (check_process image) h in
    let (linux, arch, one) = check_platform_sound goarch image diff_id platform in
    let (user, commanded, env, absolute, same_id, same_command, same_dir) =
      check_process_sound image diff_id workload process in
    let (_, pu, pg, fu, fg) = parse_user_sound image.config.user workload.uid workload.gid user in
    record {
      platform = (linux, arch);
      one_layer = cc (one, same_id);
      uid = (pu, fu);
      gid = (pg, fg);
      command = (same_command, rw same_command (not_empty (command_of image) commanded));
      environment = (validate_environment_iff image.config.env).0 env;
      absolute = ap is_abs same_dir ∙ absolute;
      clean_dir = ap clean same_dir ∙ clean-clean (or_root image.config.working_dir) ∙ sym same_dir;
    }
