-- ===== src/Validate.antt =====
-- src/validate.rs: the checks of names, guest files and paths. A `&str` is its UTF-8 bytes, which
-- is also what `to_string_lossy` shows of a path that is valid UTF-8.
pub mod Name
pub mod GuestPath
pub mod Cgroup
pub mod WorkDir
mod Tests
use arapuca.Prelude.{
  ℕ, ◌+◌, ◌*◌, ◌≤◌, Bool, true, false, not, ◌&&◌, ◌||◌, List, [], ◌∷◌, ◌++◌, Option, none, some,
  Result, ok, err, ◌>>=◌, ◌>>◌, reject, ltb, leb, ◌==◌, Bytes, codes, length, all, any, beq, split,
  starts_with, is_ascii_alphanumeric,
}
use arapuca.Error.{Error, validation}
use arapuca.FilePath.{Component, components, normalize_path, slash}

abbrev pub max_task_id_len : ℕ
max_task_id_len = 128

abbrev pub max_guest_file_size : ℕ
max_guest_file_size = 1024 * 1024

abbrev pub guest_path_deny_prefixes : List Bytes
guest_path_deny_prefixes =
    codes "/proc" ∷ codes "/sys" ∷ codes "/dev" ∷ codes "/cidata" ∷ codes "/agent" ∷ []

abbrev pub is_task_id_byte : ℕ → Bool
is_task_id_byte b = is_ascii_alphanumeric b || b == b'-'

unfoldable pub sanitize_task_id : Bytes → Result Error Bytes
sanitize_task_id id = do
  reject (beq id []) (validation "empty task ID")
  reject (ltb max_task_id_len (length id)) (validation "task ID too long")
  reject (not (all is_task_id_byte id)) (validation "task ID contains invalid characters")
  ok id

abbrev pub in_denied_prefix : Bytes → Bytes → Bool
in_denied_prefix ns prefix = beq ns prefix || starts_with (prefix ++ slash) ns

-- The checks that `validate_guest_path` makes of the normalized path.
unfoldable pub check_normalized : Bytes → Result Error (Unit {0})
check_normalized ns = do
  reject (beq ns slash) (validation "guest path must not be '/'")
  reject (any (in_denied_prefix ns) guest_path_deny_prefixes)
      (validation "guest path in denied prefix")
  ok tt

unfoldable pub validate_guest_path : Bytes → Result Error (Unit {0})
validate_guest_path path = do
  reject (not (starts_with slash path)) (validation "guest path must be absolute")
  reject (any (λ c. beq c (codes "..")) (split b'/' path)) (validation "guest path contains '..'")
  check_normalized (normalize_path path)

unfoldable pub validate_guest_file_content : Bytes → Result Error (Unit {0})
validate_guest_file_content content = do
  reject (ltb max_guest_file_size (length content)) (validation "guest file content too large")
  ok tt

abbrev pub is_octal_digit : ℕ → Bool
is_octal_digit b = leb b'0' b && leb b b'7'

abbrev pub leads_with_zero : Bytes → Bool
leads_with_zero [] = false
leads_with_zero (b ∷ _) = b == b'0'

unfoldable pub validate_guest_permissions : Bytes → Result Error (Unit {0})
validate_guest_permissions perms = do
  reject (ltb (length perms) 3 || ltb 4 (length perms))
      (validation "permissions must be 3-4 octal digits")
  reject (not (all is_octal_digit perms)) (validation "permissions must be octal digits")
  reject (length perms == 4 && not (leads_with_zero perms))
      (validation "setuid/setgid/sticky bits not allowed")
  ok tt

-- Equality of components, and `Path::starts_with`, which compares whole components.
abbrev pub component_eq : Component → Component → Bool
component_eq Component.root_dir Component.root_dir = true
component_eq Component.cur_dir Component.cur_dir = true
component_eq Component.parent_dir Component.parent_dir = true
component_eq (Component.normal a) (Component.normal b) = beq a b
component_eq _ _ = false

abbrev pub components_start : List Component → List Component → Bool
components_start [] cs = true
components_start (d ∷ ds) [] = false
components_start (d ∷ ds) (c ∷ cs) = component_eq d c && components_start ds cs

unfoldable pub path_starts_with : Bytes → Bytes → Bool
path_starts_with path base = components_start (components base) (components path)

abbrev pub cgroup_prefix : Bytes
cgroup_prefix = codes "/sys/fs/cgroup"

abbrev pub touches_cgroup : Bytes → Bool
touches_cgroup ns = starts_with cgroup_prefix ns || path_starts_with cgroup_prefix ns

abbrev pub resolved_touches_cgroup : Option Bytes → Bool
resolved_touches_cgroup none = false
resolved_touches_cgroup (some resolved) = touches_cgroup resolved

abbrev pub resolve_or_self : Bytes → Option Bytes → Bytes
resolve_or_self p none = p
resolve_or_self p (some resolved) = resolved

-- `std::fs::canonicalize`, `none` where it fails, and `Path::is_dir` ask the file system.
module _ (canonicalize : Bytes → Option Bytes) where
  unfoldable pub reject_cgroup_paths : List Bytes → Result Error (Unit {0})
  reject_cgroup_paths [] = ok tt
  reject_cgroup_paths (p ∷ paths) = do
    reject (touches_cgroup (normalize_path p))
        (validation "path must not include or be an ancestor of /sys/fs/cgroup")
    reject (resolved_touches_cgroup (canonicalize p))
        (validation "path must not include or be an ancestor of /sys/fs/cgroup")
    reject_cgroup_paths paths

  abbrev pub within_mounts : Bytes → List Bytes → Bool
  within_mounts canonical mounts =
      any (λ p. path_starts_with canonical (resolve_or_self p (canonicalize p))) mounts

module _ (canonicalize : Bytes → Option Bytes) (is_dir : Bytes → Bool) where
  -- The checks of the resolved directory against the mounts.
  abbrev pub resolved_in : List Bytes → Option Bytes → Result Error (Unit {0})
  resolved_in mounts none = err (validation "work_dir cannot be resolved")
  resolved_in mounts (some canonical) = do
    reject (not (is_dir canonical)) (validation "work_dir is not a directory")
    reject (not (within_mounts canonicalize canonical mounts))
        (validation "work_dir must be within a mounted path")
    ok tt

  unfoldable pub validate_work_dir :
      Option Bytes → (read_paths write_paths : List Bytes) → Result Error (Unit {0})
  validate_work_dir none read_paths write_paths = ok tt
  validate_work_dir (some dir) read_paths write_paths = do
    reject (not (starts_with slash dir)) (validation "work_dir must be absolute")
    resolved_in (read_paths ++ write_paths) (canonicalize dir)
