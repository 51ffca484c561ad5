-- ===== src/Lib.antt =====
-- A verification library for Kernlet, a container runtime: an agent in a Linux guest prepares an OCI
-- image, runs its program in namespaces of its own, and reports to the host.
--
-- The parts of the program, and the files that model them:
-- - internal/oci/image.go: Prepare reads an image layout, checks it against its digests and unpacks its
--   one layer into a new directory below /run/kernlet/bundles; Bundle.Close removes the directory. The
--   data types are in Oci/Image, selectManifest in Oci/Select, parseUser in Oci/User,
--   validateEnvironment in Oci/Environment, cleanArchivePath and validateSymlink in Oci/ArchivePath,
--   applyMetadata, createArchiveEntry and extractArchive in Oci/Extract with the mode bits in Oci/Mode,
--   readJSON and readBlob in Oci/Blob, unpackLayer in Oci/Layer, the checks of the configuration in
--   Oci/Configuration, Prepare itself in Oci/Prepare and Close in Oci/Bundle.
-- - internal/runtime/run_linux.go: the checks of a configuration are in Runtime/Config, the cgroups in
--   Runtime/Cgroup, Run in Runtime/Run, the command line that it passes to its child in
--   Runtime/Arguments, and the child, InitProcess, in Runtime/Init. The two processes and the pipe between
--   them, with every interleaving of their steps, are in Runtime/Handshake.
-- - internal/runtime/network_linux.go: allocateWorkloadNetwork is in Runtime/Network, and the links of a
--   run in Runtime/Link.
-- - cmd/kernlet-agent/main_linux.go and internal/guestproto: handleRequest, which prepares an image, runs
--   it and closes the bundle, is in Agent; the field OK of a response is `success`, and its error text is
--   an optional error. handleConnection is in Agent/Connection, serveVsock and the servers in Agent/Serve,
--   statusField in Agent/Status, the report on the process in Agent/Identity, main in Agent/Main.
-- - cmd/kernlet-agent/network_linux.go: the check is in Agent/NetworkCheck, the summary in Agent/Interfaces.
-- - pkg/applevm: the checks are in AppleVm/Config, bridge_darwin.go in AppleVm/Bridge over the C functions
--   of AppleVm/Native, which are a parameter, and the VM in AppleVm/Machine.
-- - cmd/applevm-smoke is in Smoke, cmd/kernlet and internal/platform in Cli.
-- - Common, Text and FilePath hold what all of them share: results with errors, byte strings, and the
--   functions of Go's strings, strconv, encoding/hex and path/filepath that the program calls.
--
-- How code becomes a definition. A Go string is the list of its bytes. A function without system calls
-- is a function into Result. A function with system calls is one into Io (Sys.antt): it takes the list
-- of the events so far and returns its result beside the longer list, also when the result is an error.
-- Which answer a call gets is a parameter, `Os`, a function of the call and of all events before it, so
-- that a statement for every Os holds for every behaviour of the file system and the kernel, with all
-- failures. The events are the data type Call (Sys/Calls). `defer`, cleanup after an error and dropped
-- errors are combinators of Sys.antt. Sys/Only, Sys/Returns, Sys/Cases and Sys/Steps have the rules for
-- the calls that a block makes, for what it returns, and for its traces, Sys/Moves those for what a
-- block keeps from its first trace to its last, Sys/Has and Sys/Known those for events that came before
-- others, and Sys/Works those for code that succeeds on a system whose calls succeed. The decoders of
-- JSON, tar and gzip, and SHA-256, are the fields of the parameter Codecs in Oci/Image; a tar archive is
-- what its reader delivers, entry by entry.
--
-- Bounds. Numbers of 32 bits are natural numbers with the wrap-around written out (the counter of
-- networks) or with the bound tested as strconv does (UID and GID). The only fuel is that of the decimal
-- print in Text/Decimal: a number has fewer digits than the fuel that it is given.
--
-- The loops of the servers run for any number of rounds, which is a parameter.
--
-- Not modelled: the Objective-C functions behind pkg/applevm, the parsing of flags, and the scripts. The
-- text that a format verb puts into an error message is left out, and white space is that of ASCII. The
-- call that starts the child has the arguments, the environment as Run gives it, the clone flags and the
-- cgroup; that os/exec keeps the last of two entries of one name, and that it passes the end of the pipe
-- for reading on (ExtraFiles), is part of this call. The call that starts the program has no environment,
-- which is that of the process.
pub mod Common
pub mod Text
pub mod FilePath
pub mod Sys
pub mod Oci
pub mod Runtime
pub mod Agent
pub mod AppleVm
pub mod Smoke
pub mod Cli
