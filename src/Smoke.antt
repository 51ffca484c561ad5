-- ===== src/Smoke.antt =====
-- cmd/applevm-smoke: a virtual machine is started, asked for one run, and stopped.
pub mod Released
mod Tests
use kernlet.Common.{
  ℕ, ◌*◌, ◌%◌, ◌^◌, List, [], ◌∷◌, ◌++◌, Bytes, codes, Bool, true, false, not, ◌||◌, Error, fault,
  Result, ok, err, equal, if◌then◌else◌,
}
use kernlet.Agent.{Request, Response}
use kernlet.Agent.Serve.{port}
use kernlet.AppleVm.Native.{
  Framework, History, Foreign, ◌>>=◌, ◌>>◌, pure, note, printed, reported, sent, received,
  closed_file,
}
use kernlet.AppleVm.Config.{Config}
use kernlet.AppleVm.Machine.{Vm, new, start, stop, dial_vsock, close}

-- The values of the flags: `cpus` and `memory` are 64-bit numbers.
pub record Flags : Type 0 where
  pub kernel : Bytes
  pub initramfs : Bytes
  pub disk : Bytes
  pub cpus : ℕ
  pub memory_mib : ℕ

-- What json.Encoder.Encode and json.Decoder.Decode return on the connection, given all events so far.
pub record Guest : Type 0 where
  pub encode : History → ℕ → Request → Result (Unit {0})
  pub decode : History → ℕ → Result Response

-- How the program ends: exit status 2 behind the usage, log.Fatal, which exits at once and runs no
-- deferred call, or the end of `main`.
pub data Ending : Type 0 where
  usage returned : Ending
  fatal : Error → Ending

-- The product of the memory size wraps around.
unfoldable pub smoke_config : Flags → Config
smoke_config flags = record {
  kernel_path = flags.kernel;
  initramfs_path = flags.initramfs;
  root_disk_path = flags.disk;
  cpu_count = flags.cpus;
  memory_size = flags.memory_mib * 1024 * 1024 % 2 ^ 64;
  kernel_command_line =
      codes "console=hvc0 root=/dev/vda rootfstype=ext4 rootwait rw init=/sbin/kernlet-agent";
}

abbrev pub smoke_request : Request
smoke_request = record {
  id = 1;
  method = codes "run";
  args = [];
  hostname = codes "kernlet-workload";
  image = codes "/var/lib/kernlet/images/identity";
  memory_max = 64 * 1024 * 1024;
  pids_max = 32;
  cpu_quota = 50_000;
  cpu_period = 100_000;
}

abbrev pub print_line : Bytes → Foreign (Unit {0})
print_line text = note (printed (text ++ b'\n' ∷ []))

-- `if err != nil { log.Printf(...) }`
abbrev pub report : Result (Unit {0}) → Foreign (Unit {0})
report (ok _) = pure tt
report (err e) = note (reported e)

module _ (framework : Framework) (guest : Guest) where
  -- From the interrupt on, with the two deferred calls.
  finish : ℕ → Vm → Foreign Ending
  finish conn vm = do
    print_line []
    print_line (codes "stopping VM...")
    (stopped, vm) ← stop framework vm
    report stopped
    print_line (codes "VM stopped")
    note (closed_file conn)
    close vm
    pure returned

  after_response : ℕ → Vm → Result Response → Foreign Ending
  after_response conn vm (err e) = pure (fatal e)
  after_response conn vm (ok response) =
      if not response.success
      then pure (fatal (fault "guest process failed"))
      else (note (printed (codes "guest process output: " ++ response.message))
          >> print_line (codes "press Ctrl-C to stop")
          >> finish conn vm)

  receive : ℕ → Foreign (Result Response)
  receive conn h = (guest.decode h conn, received conn ∷ h)

  send : ℕ → Request → Foreign (Result (Unit {0}))
  send conn request h = (guest.encode h conn request, sent conn ∷ h)

  after_send : ℕ → Vm → Result (Unit {0}) → Foreign Ending
  after_send conn vm (err e) = pure (fatal e)
  after_send conn vm (ok _) = receive conn >>= after_response conn vm

  after_dial : Result ℕ × Vm → Foreign Ending
  after_dial (err e, vm) = pure (fatal e)
  after_dial (ok conn, vm) =
      print_line (codes "requesting guest process...")
      >> send conn smoke_request
      >>= after_send conn vm

  after_start : Result (Unit {0}) × Vm → Foreign Ending
  after_start (err e, vm) = pure (fatal e)
  after_start (ok _, vm) = do
    print_line (codes "VM started")
    print_line (codes "connecting to kernlet-agent...")
    connection ← dial_vsock framework port vm
    after_dial connection

  after_new : Result Vm → Foreign Ending
  after_new (err e) = pure (fatal e)
  after_new (ok vm) = do
    print_line (codes "starting Linux VM...")
    result ← start framework vm
    after_start result

  pub main : Flags → Foreign Ending
  main flags =
      if equal flags.kernel [] || equal flags.disk []
      then pure usage
      else (new framework (smoke_config flags) >>= after_new)
