-- ===== src/Runtime/Sample.antt =====
-- Systems and a configuration for the tests of internal/runtime.
use kernlet.Common.{[], ◌∷◌, List, Bytes, codes, true, ok}
use kernlet.Sys.{Os, Call, Trace, done, read_file, write_file}
use kernlet.Runtime.Config.{Config}

-- A system that answers every call; its last capability is 1.
abbrev pub willing_os : Os
willing_os = record {
  act_answer = λ t c. ok tt;
  text_answer = λ t c. ok (codes "1");
  number_answer = λ t c. ok 1;
  flag_answer = λ t c. ok true;
  captured = λ t. [];
}

abbrev pub sample_config : Config
sample_config = record {
  command = codes "sh" ∷ codes "-c" ∷ [];
  environment = [];
  working_dir = codes "/app";
  hostname = codes "box";
  rootfs = codes "/r";
  uid = 1000;
  gid = 100;
  limits = record { memory_max = 1; pids_max = 1; cpu_quota = 1; cpu_period = 1000 };
}

-- A system that keeps the last file that was written.
abbrev pub last_written : Trace → Bytes
last_written (done (write_file path content mode) ∷ t) = content
last_written _ = codes "1"

abbrev pub text_of : Trace → Call → Bytes
text_of t (read_file path) = last_written t
text_of t _ = codes "1"

abbrev pub storing_os : Os
storing_os = record {
  act_answer = λ t c. ok tt;
  text_answer = λ t c. ok (text_of t c);
  number_answer = λ t c. ok 1;
  flag_answer = λ t c. ok true;
  captured = λ t. codes "out";
}

abbrev pub sample_arguments : List Bytes
sample_arguments =
    codes "box"
    ∷ codes "/r"
    ∷ codes "1000"
    ∷ codes "100"
    ∷ codes "/app"
    ∷ codes "kvw0000"
    ∷ codes "10.200.0.2/30"
    ∷ codes "10.200.0.1"
    ∷ codes "sh"
    ∷ codes "-c"
    ∷ []
