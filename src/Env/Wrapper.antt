-- ===== src/Env/Wrapper.antt =====
-- The variables of src/env.rs that configure the wrapper process, and the reading of path lists.
-- A path is the list of its characters; the platform is Unix, whose list separator is a colon.
use Prim.Native.Nat.{min}
use arapuca.Prelude.{
  ℕ, ◌-◌, ◌*◌, ◌^◌, List, [], ◌∷◌, ◌++◌, Bool, true, false, not, Option, none, some, Result, ok,
  ◌>>◌, reject, ltb, if◌then◌else◌, Str, codes, beq, any, keep, map, contains, split, join,
}
use arapuca.Prelude.Decimal.{to_string}
use arapuca.Prelude.Trim.{trim}
use arapuca.Error.{Error, validation}
use arapuca.Profile.{Profile, as_str}
use arapuca.Env.{Variable, env_var}

unfoldable pub minimal_env : Str → List Variable
minimal_env tmp_dir =
    (codes "HOME", tmp_dir)
    ∷ (codes "TMPDIR", tmp_dir)
    ∷ (codes "PATH", codes "/usr/local/bin:/usr/bin:/bin:/usr/local/sbin:/usr/sbin:/sbin")
    ∷ (codes "LANG", codes "C.UTF-8")
    ∷ []

abbrev pub path_list_sep : ℕ
path_list_sep = b':'

-- `u64::saturating_mul`.
abbrev pub saturating_mul : ℕ → ℕ → ℕ
saturating_mul a b = min (a * b) (2 ^ 64 - 1)

-- An `env.push` under a test.
unfoldable pub pushed_if : Bool → Str → Str → List Variable
pushed_if true key value = (key, value) ∷ []
pushed_if false key value = []

abbrev pub is_empty : List Str → Bool
is_empty [] = true
is_empty (p ∷ ps) = false

-- The limits, and the system call policy.
unfoldable pub limits_env : Profile → List Variable
limits_env profile =
    pushed_if (ltb 0 profile.max_file_size_mb) (codes "ARAPUCA_RLIMIT_FSIZE")
      (to_string (saturating_mul profile.max_file_size_mb (1024 * 1024)))
    ++ (pushed_if (ltb 0 profile.max_open_files) (codes "ARAPUCA_RLIMIT_NOFILE")
          (to_string profile.max_open_files)
        ++ (pushed_if (ltb 0 profile.cpu_timeout_secs) (codes "ARAPUCA_RLIMIT_CPU")
              (to_string profile.cpu_timeout_secs)
            ++ ((codes "ARAPUCA_SECCOMP_PROFILE", as_str profile.seccomp_profile)
                ∷ (codes "ARAPUCA_ALLOW_EXEC", if profile.allow_exec then codes "1" else codes "0")
                ∷ pushed_if profile.seccomp_debug (codes "ARAPUCA_SECCOMP_DEBUG") (codes "1"))))

-- The variables that are pushed once the paths are checked.
unfoldable pub wrapper_vars : Profile → List Variable
wrapper_vars profile =
    (codes "ARAPUCA_WRAPPER", codes "1")
    ∷ (pushed_if (not (is_empty profile.read_paths)) (codes "ARAPUCA_READ_PATHS")
          (join path_list_sep profile.read_paths)
        ++ (pushed_if (not (is_empty profile.write_paths)) (codes "ARAPUCA_WRITE_PATHS")
              (join path_list_sep profile.write_paths)
            ++ limits_env profile))

unfoldable pub wrapper_env : Profile → Result Error (List Variable)
wrapper_env profile = do
  reject (any (contains path_list_sep) (profile.read_paths ++ profile.write_paths))
      (validation "sandbox path must not contain the list separator")
  ok (wrapper_vars profile)

unfoldable pub parse_paths : Str → List Str
parse_paths [] = []
parse_paths (c ∷ s) = keep (λ p. not (beq p [])) (map trim (split path_list_sep (c ∷ s)))

unfoldable pub list_in : Option Str → List Str
list_in none = []
list_in (some s) = parse_paths s

-- `env_paths_os` of src/selfexec.rs and `env_paths` of src/bin/arapuca.rs, on valid Unicode.
unfoldable pub env_paths : Str → List Variable → List Str
env_paths name env = list_in (env_var name env)
