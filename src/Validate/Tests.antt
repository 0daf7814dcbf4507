-- ===== src/Validate/Tests.antt =====
-- Runs of the checks of src/validate.rs, and instances of their theorems.
use arapuca.Prelude.{
  ◌≡◌, ◌↔◌, ◌≤◌, refl, sym, ◌∙◌, ap, List, [], ◌∷◌, ◌++◌, true, Option, some, ok, err, Bytes, codes,
  length, All,
}
use arapuca.FilePath.{components, normalize_path}
use arapuca.FilePath.Normal.{normalize-IsNormal, normalize_path_idempotent}
use arapuca.FilePath.Names.{IsName}
use arapuca.FilePath.Render.{IsNormal}
use arapuca.FilePath.Steps.{Steps, normalize_path-Steps}
use arapuca.Validate.{
  sanitize_task_id, validate_guest_path, check_normalized, validate_guest_permissions,
  reject_cgroup_paths, path_starts_with, validate_work_dir, max_task_id_len,
}
use arapuca.Validate.Name.{
  sanitize_task_id_iff, sanitize_task_id-IsName, validate_guest_permissions_iff,
  validate_guest_permissions_bound, IsTaskIdByte, IsPermissions, octal_from,
}
use arapuca.Validate.GuestPath.{validate_guest_path_iff, IsGuestFile}
use arapuca.Validate.Cgroup.{reject_cgroup_paths_sound, IsCanonical, IsClear}
use arapuca.Validate.WorkDir.{validate_work_dir_iff, IsMounted}

abbrev task : Bytes
task = codes "task-7"

task_accepted : sanitize_task_id task ≡ ok task
unfolding sanitize_task_id
task_accepted = refl

slash_refused :
    sanitize_task_id (codes "../x")
    ≡ err (arapuca.Error.validation "task ID contains invalid characters")
unfolding sanitize_task_id
slash_refused = refl

sanitize_task_id_iff_example :
    (sanitize_task_id task ≡ ok task)
    ↔ ((task ≡ task) × (1 ≤ length task) × (length task ≤ max_task_id_len) × All IsTaskIdByte task)
sanitize_task_id_iff_example = sanitize_task_id_iff task task

sanitize_task_id-IsName_example : IsName task
sanitize_task_id-IsName_example = sanitize_task_id-IsName task task task_accepted

abbrev home_file : Bytes
home_file = codes "/home//agent/./.netrc"

home_file_accepted : validate_guest_path home_file ≡ ok tt
unfolding validate_guest_path check_normalized normalize_path
home_file_accepted = refl

validate_guest_path_iff_example :
    (validate_guest_path home_file ≡ ok tt) ↔ IsGuestFile (components home_file)
validate_guest_path_iff_example = validate_guest_path_iff home_file

validate_guest_permissions_iff_example :
    (validate_guest_permissions (codes "0644") ≡ ok tt) ↔ IsPermissions (codes "0644")
validate_guest_permissions_iff_example = validate_guest_permissions_iff (codes "0644")

validate_guest_permissions_bound_example : octal_from 0 (codes "0755") ≤ 0o777
unfolding validate_guest_permissions
validate_guest_permissions_bound_example = validate_guest_permissions_bound (codes "0755") refl

-- A file system without links, in which every path exists.
abbrev plain : Bytes → Option Bytes
plain p = some (normalize_path p)

plain-IsCanonical : IsCanonical plain
plain-IsCanonical p resolved e =
    let same : normalize_path p ≡ resolved = cc e in
    ap normalize_path (sym same) ∙ normalize_path_idempotent p ∙ same

abbrev two_paths : List Bytes
two_paths = codes "/usr/lib" ∷ codes "/sys/fs/../class" ∷ []

two_paths_accepted : reject_cgroup_paths plain two_paths ≡ ok tt
unfolding reject_cgroup_paths normalize_path path_starts_with
two_paths_accepted = refl

reject_cgroup_paths_sound_example : All (IsClear plain) two_paths
reject_cgroup_paths_sound_example =
    reject_cgroup_paths_sound plain two_paths plain-IsCanonical two_paths_accepted

validate_work_dir_iff_example :
    (validate_work_dir plain (λ p. true) (some (codes "/work/src")) [] (codes "/work" ∷ []) ≡ ok tt)
    ↔ IsMounted plain (λ p. true) (codes "/work/src") ([] ++ codes "/work" ∷ [])
validate_work_dir_iff_example =
    validate_work_dir_iff plain (λ p. true) (codes "/work/src") [] (codes "/work" ∷ [])

normalize-IsNormal_example : IsNormal (arapuca.FilePath.normalize home_file)
normalize-IsNormal_example = normalize-IsNormal home_file

normalize_path-Steps_example :
    Steps (components home_file) (components (normalize_path home_file))
    × IsNormal (components (normalize_path home_file))
normalize_path-Steps_example = normalize_path-Steps home_file

normalized_home : normalize_path (normalize_path home_file) ≡ normalize_path home_file
normalized_home = normalize_path_idempotent home_file
