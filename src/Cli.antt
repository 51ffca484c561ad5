-- ===== src/Cli.antt =====
-- cmd/kernlet/main.go and internal/platform: the command line of the host, which runs nothing yet.
use kernlet.Common.{
  List, [], ◌∷◌, ◌++◌, Bytes, codes, Option, none, some, not, Error, equal, if◌then◌else◌,
}

-- The system that the program was built for: run_darwin.go or run_linux.go is compiled.
pub data Host : Type 0 where
  macos linux : Host

-- The lines that were printed, and the error.
run_darwin : Bytes → List Bytes × Option Error
run_darwin image =
    (codes "macOS host" ∷ (codes "Will send container to Linux VM: " ++ image) ∷ [], none)

run_linux : Bytes → List Bytes × Option Error
run_linux image = ((codes "Linux runtime requested for: " ++ image) ∷ [], none)

-- platform.Run of the file that was compiled.
platform_run : Host → Bytes → List Bytes × Option Error
platform_run macos image = run_darwin image
platform_run linux image = run_linux image

-- `message` is err.Error().
report_error : (Error → Bytes) → List Bytes × Option Error → List Bytes
report_error message (lines, none) = lines
report_error message (lines, some e) = lines ++ (codes "error: " ++ message e) ∷ []

run_command : (Error → Bytes) → Host → Bytes → Bytes → List Bytes
run_command message host command image =
    if not (equal command (codes "run"))
    then (codes "unknown command: " ++ command) ∷ []
    else report_error message (platform_run host image)

-- The lines that the program prints for its arguments, its own name first.
pub main : (Error → Bytes) → Host → List Bytes → List Bytes
main message host (program ∷ command ∷ image ∷ rest) = run_command message host command image
main message host _ = codes "usage: kernlet run <image>" ∷ []
