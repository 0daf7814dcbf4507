-- ===== src/Error.antt =====
-- src/error.rs: the error type. A message keeps the constant text of its format string; the values
-- that are printed into it are left out. `syscall` and `io` keep what names the failure.
use Prim.Native.String.{String}

pub data Error : Type 0 where
  landlock seccomp rlimit netns cgroup micro_vm process validation : String → Error
  syscall : (name : String) → Error
  io : (kind : String) → Error
