-- ===== src/Lib.antt =====
-- arapuca runs a program in a sandbox: a process or a micro-VM under seccomp, Landlock, namespaces
-- and resource limits. This library models the parts of it that decide what is let through, and
-- proves what they decide.
-- The parts and the files:
-- - src/error.rs is Error: the error type. A message keeps the constant text of its format string.
-- - src/validate.rs is Validate, with FilePath for the paths of the standard library and
--   `normalize_path`, which is also set against rules that cancel components (FilePath/Steps): the
--   checks of task IDs, guest files, working directories and mounts. The process that starts the
--   sandbox calls them before anything else. Each function has the source's name; the file system
--   (`canonicalize`, `is_dir`) is a parameter.
-- - src/vm/protocol.rs is Protocol: frames (Protocol/Frame), nonces (Protocol/Nonce), JSON
--   (Protocol/Json, with numbers and skipped values in Protocol/Json/Values), requests for a
--   command (Protocol/Request) and control messages (Protocol/Control) that the host and the guest
--   agent exchange. A stream is the list of the bytes that are left of it, a `&str` of the parser
--   is the list of its characters.
-- - src/seccomp.rs is Seccomp: the maps of rules (Seccomp/Filters, with the lists of system calls
--   in Seccomp/Lists and libc's numbers for x86_64 in Seccomp/Numbers), their installation in the
--   code's order (Seccomp/Setup), what the filters answer under each profile (Seccomp/Strict,
--   Seccomp/Baseline), how far the strict profile gets when a step fails (Seccomp/Stages), how the
--   profiles compare (Seccomp/Profiles) and the audit summary (Seccomp/Summary). The crate
--   seccompiler and the kernel are a record of operations (Seccomp/Kernel) with the laws that they
--   document: a compiled filter answers as its rules say, `apply_filter` puts a filter on top, and
--   of the installed filters the most restrictive answer counts.
-- - src/bridge.rs is Bridge: the allowlists of the two helper processes, the bridge and the
--   CONNECT proxy, over the same model of seccompiler and kernel: the groups of system calls
--   (Bridge/Groups), the filters (Bridge/Filters), the allowlists as predicates (Bridge/Permits,
--   Bridge/Allowlists) and what the filters answer (Bridge/Verdict).
-- - src/bridge.rs is also Connect: the rules of the CONNECT proxy for hosts (Connect/Hosts) and
--   for resolved addresses, against a list of networks (Connect/Blocks), for IPv4 addresses
--   embedded in IPv6 ones (Connect/Embedded) and for other IPv6 addresses (Connect/Native); the
--   parser of its requests (Connect/Request) and what `handle_connect` does with one
--   (Connect/Handle), where resolving a name and connecting are operations of a record.
-- - src/vm/state.rs is Vm: the configuration of a VM and its JSON (Vm/Config, read back in
--   Vm/Config/RoundTrip), the loops over the fields of an object (Vm/Fields), and the digits of
--   the nonce (Vm/Nonces).
-- - src/dns.rs is Dns: the parser of DNS queries, with the packets that it reads back
--   (Dns/RoundTrip) and what it accepts (Dns/Accepted), the negative answers (Dns/Nxdomain) and
--   the rounds of its loops (Dns/Enough).
-- - src/profile.rs is Profile, and src/env.rs is Env: the environment as a list of settings, the
--   filter of the caller's variables (Env/Filter, and Env/Reserved against a list of names), the
--   variables written for the wrapper process (Env/Wrapper, Env/PathLists), for the bridge
--   (Env/Channels, with its reader in src/bridge.rs), for the audit supervisor (Env/Unotify) and
--   for the CONNECT proxy (Env/ConnectProxy), and the order in which `launch` of
--   src/platform/linux.rs puts them together (Env/Launch). Values and paths are valid Unicode, and
--   the platform is Unix.
-- Prelude holds what the parts share: Boolean tests on the native numbers, list and text functions
-- over them, fallible results, the digits of `&`, `|` and `^`, decimal numbers, signed numbers,
-- white space, and UTF-8.
-- Every loop is structural recursion on the list that it reads, but for eight: the array parser
-- and the reader of a CONNECT header count down the 4096 elements and the 2048 bytes that the code
-- allows, as the code does, and the two loops over the labels of a DNS name count rounds, of which
-- they get one more than there are bytes, and would end in a reason of their own, `out_of_rounds`,
-- if that were too few (Dns/Enough); the loop over the fields of a request gets one round more
-- than there are characters and the skipping of a value two for each character and two more, and a
-- run that needed more would end in a failure of its own, `out_of_rounds`, which the code does not
-- have (Protocol/Request/Enough); the loops over the fields and the volumes of a VM configuration
-- get one round more than there are characters, of which each round reads at least one. Widths: a
-- frame's length is reduced modulo 2 ^ 32 as the code's cast does; the low 32 bits of a system
-- call's arguments are taken as the filters take them.
-- Not modelled: the audit log, the wrapper process and the locks of the VM state, which later work
-- may add; the platforms, the images, the C interface and the command line, which are mostly I/O;
-- and the error text of crates and of the operating system.
pub mod Prelude
pub mod FilePath
pub mod Error
pub mod Validate
pub mod Vm
pub mod Protocol
pub mod Seccomp
pub mod Bridge
pub mod Connect
pub mod Dns
pub mod Profile
pub mod Env
