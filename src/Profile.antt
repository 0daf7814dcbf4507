-- ===== src/Profile.antt =====
-- src/profile.rs: what a caller asks of the sandbox. A path is the list of its characters, which is
-- what `to_string_lossy` shows of a path that is valid Unicode.
use arapuca.Prelude.{ℕ, Bool, List, Option, Str, codes}

pub data ImageSource : Type 0 where
  path : Str → ImageSource
  distro : (name version : Str) → ImageSource

pub record GuestFile : Type 0 where
  pub path : Str
  pub content : Str
  pub permissions : Option Str

pub record MicroVmConfig : Type 0 where
  pub image : ImageSource
  pub cpus : ℕ
  pub mem_mb : ℕ
  pub write_files : List GuestFile

pub data Isolation : Type 0 where
  process : Isolation
  micro_vm : MicroVmConfig → Isolation

pub data SeccompProfile : Type 0 where
  strict baseline : SeccompProfile

abbrev pub as_str : SeccompProfile → Str
as_str strict = codes "strict"
as_str baseline = codes "baseline"

pub data CgroupPolicy : Type 0 where
  required best_effort : CgroupPolicy

pub record Profile : Type 0 where
  pub isolation : Isolation
  pub read_paths : List Str
  pub write_paths : List Str
  pub max_memory_mb : ℕ
  pub max_cpu_pct : ℕ
  pub max_pids : ℕ
  pub cgroup_policy : CgroupPolicy
  pub cpu_timeout_secs : ℕ
  pub max_file_size_mb : ℕ
  pub max_open_files : ℕ
  pub allow_exec : Bool
  pub use_netns : Bool
  pub use_pidns : Bool
  pub dns_capture : Bool
  pub lpac : Bool
  pub seccomp_profile : SeccompProfile
  pub audit_file_access : Bool
  pub audit_network : Bool
  pub seccomp_debug : Bool
  pub allow_proxy_env : Bool
  pub allow_keychain : Bool
