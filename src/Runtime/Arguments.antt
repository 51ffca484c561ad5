-- ===== src/Runtime/Arguments.antt =====
-- The command line between the agent and its child process: what Run passes, and how InitProcess takes
-- it apart.
use kernlet.Common.{
  ℕ, ◌≤◌, List, [], ◌∷◌, Bytes, codes, true, not, Result, ok, err, fault, within, fail_if, ◌>>=◌,
  ◌>>◌, ◌≡◌,
}
use kernlet.Text.Decimal.{format_uint, parse_uint-format_uint, max_u32}
use kernlet.FilePath.{clean, is_abs}
use kernlet.Runtime.Config.{Config, validate_hostname, parse_id}
use kernlet.Runtime.Network.{WorkloadNetwork}

abbrev pub init_command : Bytes
init_command = codes "runtime-init"

-- The arguments of InitProcess by name; the command is `executable` and what follows it.
pub record InitArguments : Type 0 where
  pub hostname : Bytes
  pub rootfs : Bytes
  pub uid : ℕ
  pub gid : ℕ
  pub working_dir : Bytes
  pub peer_interface : Bytes
  pub workload_address : Bytes
  pub gateway_address : Bytes
  pub executable : Bytes
  pub arguments : List Bytes

-- The slice `args` of Run, for a command that is `executable` and its arguments.
unfoldable pub init_arguments : Config → Bytes → List Bytes → WorkloadNetwork → List Bytes
init_arguments config rootfs command network =
    init_command
    ∷ config.hostname
    ∷ rootfs
    ∷ format_uint config.uid
    ∷ format_uint config.gid
    ∷ config.working_dir
    ∷ network.peer_interface
    ∷ network.workload_address
    ∷ network.gateway
    ∷ command

-- The checks that need no system call, behind the two numbers.
name_arguments : InitArguments → Result InitArguments
name_arguments named = do
  fail_if (not (is_abs named.working_dir)) "working directory must be absolute"
  within "invalid hostname" (validate_hostname named.hostname)
  ok named

unfoldable pub parse_arguments : List Bytes → Result InitArguments
unfolding name_arguments
parse_arguments
      (hostname ∷ rootfs ∷ uid_text ∷ gid_text ∷ directory ∷ peer ∷ address ∷ gateway ∷ executable
        ∷ arguments) =
    do
      uid ← parse_id uid_text
      gid ← parse_id gid_text
      name_arguments (record {
        hostname = hostname;
        rootfs = clean rootfs;
        uid = uid;
        gid = gid;
        working_dir = clean directory;
        peer_interface = peer;
        workload_address = address;
        gateway_address = gateway;
        executable = executable;
        arguments = arguments;
      })
parse_arguments _ = err (
    fault
      "runtime init requires hostname, rootfs, UID, GID, working directory, network configuration and command")

-- The list behind its first member, which the agent's `main` compares with `runtime-init`.
abbrev pub tail : List Bytes → List Bytes
tail [] = []
tail (b ∷ list) = list

abbrev pub read_back : Config → Bytes → Bytes → List Bytes → WorkloadNetwork → InitArguments
read_back config rootfs executable arguments network = record {
  hostname = config.hostname;
  rootfs = rootfs;
  uid = config.uid;
  gid = config.gid;
  working_dir = config.working_dir;
  peer_interface = network.peer_interface;
  workload_address = network.workload_address;
  gateway_address = network.gateway;
  executable = executable;
  arguments = arguments;
}

-- What Run passes to its child, InitProcess reads back as it was: for a hostname that passes the check,
-- identities of 32 bits, and a root and an absolute working directory that are clean.
pub parse_arguments-init_arguments :
    (config : Config) (rootfs executable : Bytes) (arguments : List Bytes)
    (network : WorkloadNetwork)
    → validate_hostname config.hostname ≡ ok tt
    → clean rootfs ≡ rootfs
    → clean config.working_dir ≡ config.working_dir
    → is_abs config.working_dir ≡ true
    → config.uid ≤ max_u32
    → config.gid ≤ max_u32
    → parse_arguments (tail (init_arguments config rootfs (executable ∷ arguments) network))
      ≡ ok (read_back config rootfs executable arguments network)
unfolding parse_arguments init_arguments parse_id
parse_arguments-init_arguments config rootfs executable arguments network hostname root directory
      absolute fu fg =
    rw (
      parse_uint-format_uint config.uid fu,
      parse_uint-format_uint config.gid fg,
      root,
      directory,
      absolute,
      hostname,
    )
