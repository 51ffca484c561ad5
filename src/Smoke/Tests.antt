-- ===== src/Smoke/Tests.antt =====
-- A run of the smoke test.
use kernlet.Common.{[], codes, none, true, ok}
use kernlet.AppleVm.Native.{Framework}
use kernlet.Smoke.{Flags, Guest, main}
use kernlet.Smoke.Released.{Released, main-Released}

abbrev willing : Framework
willing = record {
  pointer = λ h. 100;
  create = λ h config. (7, none);
  start = λ h handle. (0, none);
  stop = λ h handle. (0, none);
  connect = λ h handle port. ((0, 5), none);
  stat = λ h path. ok tt;
  is_file = λ fd. true;
}

abbrev pleased : Guest
pleased = record {
  encode = λ h conn request. ok tt;
  decode = λ h conn. ok (record { id = 1; success = true; message = codes "hello"; error = none });
}

abbrev flags : Flags
flags = record {
  kernel = codes "/k";
  initramfs = [];
  disk = codes "/d";
  cpus = 2;
  memory_mib = 512;
}

main-Released_example : Released [] (main willing pleased flags [])
main-Released_example = main-Released willing pleased flags []
