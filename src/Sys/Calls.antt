-- ===== src/Sys/Calls.antt =====
-- The system calls and the calls of third-party packages that the program makes.
use kernlet.Common.{ℕ, ℤ, List, Bytes, Error}

pub data Call : Type 0 where
  -- os.ReadFile, os.WriteFile with its content and mode
  read_file : Bytes → Call
  write_file : Bytes → Bytes → ℕ → Call
  -- os.MkdirAll, os.Mkdir with the mode, os.MkdirTemp with the pattern
  mkdir_all mkdir : Bytes → ℕ → Call
  mkdir_temp : Bytes → Bytes → Call
  remove remove_all : Bytes → Call
  -- os.Stat; the answer is `IsDir()`
  stat : Bytes → Call
  -- os.Open; the answer is the descriptor
  open_file : Bytes → Call
  close_file : ℕ → Call
  -- os.OpenRoot and `Close` of a root
  open_root close_root : Bytes → Call
  -- The methods of `os.Root`: names are relative to the root.
  root_mkdir_all : Bytes → ℕ → Call
  root_remove_all : Bytes → Call
  -- `O_WRONLY|O_CREATE|O_EXCL` with the mode; the answer is the descriptor
  root_create : Bytes → ℕ → Call
  -- io.Copy into a file; the answer is the number of bytes written
  copy_to_file : ℕ → Bytes → Call
  root_symlink root_link : (target name : Bytes) → Call
  root_lchown : Bytes → (uid gid : ℤ) → Call
  root_chmod : Bytes → ℕ → Call
  -- netlink: a link is known by its index
  link_add : (name peer : Bytes) → Call
  link_by_name : Bytes → Call
  link_del link_set_up : ℕ → Call
  link_set_name : ℕ → Bytes → Call
  link_set_ns_pid : (link pid : ℕ) → Call
  parse_addr parse_ipv4 : Bytes → Call
  addr_add : ℕ → Bytes → Call
  route_add : (link : ℕ) → Bytes → Call
  -- the pipe for the readiness signal
  make_pipe close_reader close_writer write_ready read_ready open_ready close_ready : Call
  -- exec.Cmd of /proc/self/exe: `Start` with the clone flags, whose answer is the process id, and `Wait`.
  -- The child gets the end of the pipe for reading.
  start_process : (arguments environment : List Bytes) → (flags cgroup : ℕ) → Call
  wait_process : Call
  -- the steps of the child process
  set_hostname : Bytes → Call
  mount : (source target kind : Bytes) → (flags : ℕ) → Call
  pivot_root : (new_root put_old : Bytes) → Call
  change_dir : Bytes → Call
  unmount : Bytes → (flags : ℕ) → Call
  look_path : Bytes → Call
  set_no_new_privs clear_groups clear_capability_sets : Call
  drop_capability : ℕ → Call
  set_gids set_uids : ℕ → Call
  exec : Bytes → (arguments : List Bytes) → Call
  -- the sockets of the agent: vsock by descriptors, and TCP connections by numbers
  vsock_socket : Call
  vsock_bind : (socket port : ℕ) → Call
  vsock_listen : (socket backlog : ℕ) → Call
  vsock_accept : ℕ → Call
  close_socket : ℕ → Call
  -- os.NewFile, which fails when it returns nil
  new_file : ℕ → Call
  listen_tcp accept_tcp : ℕ → Call
  dial_tcp : (address : Bytes) → Call
  set_deadline : ℕ → Call
  -- io.ReadFull of so many bytes, io.WriteString or json.Encoder.Encode, and `Close`
  read_full : (connection size : ℕ) → Call
  write_connection : ℕ → Bytes → Call
  close_connection : ℕ → Call
  -- what the agent prints, and what it asks of its process
  print : Bytes → Call
  -- a line that ends in the text of an error
  report : Error → Call
  hostname working_directory count_groups : Call
  read_link : Bytes → Call
