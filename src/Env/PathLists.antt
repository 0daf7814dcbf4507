-- ===== src/Env/PathLists.antt =====
-- The path lists that `wrapper_env` of src/env.rs writes, as `parse_paths` reads them.
use arapuca.Prelude.{
  ℕ, ◌≡◌, ◌≢◌, refl, ap, ◌∙◌, List, [], ◌∷◌, ◌++◌, Bool, true, false, not, Option, none, some, ok,
  Str, codes, beq, beq_ne, any, keep, map, contains, split, join, Lacks, All, reject-eq-ok,
  split-join, arith,
}
use arapuca.Prelude.Trim.{trim}
use arapuca.Profile.{Profile}
use arapuca.Env.{
  Variable, or_else, or_else-none, set_here, env_var, env_var-skip, env_var-none, env_var-pass,
  IsOther, set_other,
}
use arapuca.Env.Wrapper.{
  path_list_sep, pushed_if, is_empty, limits_env, wrapper_vars, wrapper_env, parse_paths, list_in,
  env_paths,
}

-- A path that is not empty and has no white space at its ends.
abbrev pub IsPlain : Str → Type 0
IsPlain p = (p ≢ []) × (trim p ≡ p)

contains_not : (c : ℕ) (s : Str) → contains c s ≡ false → Lacks c s
contains_not c [] h = tt
contains_not c (x ∷ s) h = (ground arith, contains_not c s (ground arith))

none_contains : (c : ℕ) (ps : List Str) → any (contains c) ps ≡ false → All (Lacks c) ps
none_contains c [] h = tt
none_contains c (p ∷ ps) h = (contains_not c p (ground arith), none_contains c ps (ground arith))

-- The text of a list: none for the empty list.
unfoldable pub listed : List Str → Option Str
listed [] = none
listed (p ∷ ps) = some (join path_list_sep (p ∷ ps))

join-ne-nil : (p : Str) (ps : List Str) → p ≢ [] → join path_list_sep (p ∷ ps) ≢ []
join-ne-nil [] ps h = absurd (h refl)
join-ne-nil (c ∷ p) [] h = cc
join-ne-nil (c ∷ p) (q ∷ ps) h = cc

parse_paths-split :
    (s : Str)
    → s ≢ []
    → parse_paths s ≡ keep (λ p. not (beq p [])) (map trim (split path_list_sep s))
unfolding parse_paths
parse_paths-split [] h = absurd (h refl)
parse_paths-split (c ∷ s) h = refl

keep_plain : (ps : List Str) → All IsPlain ps → keep (λ p. not (beq p [])) (map trim ps) ≡ ps
keep_plain [] h = refl
keep_plain (p ∷ ps) ((filled, plain), h) =
    rw (plain, beq_ne p [] filled) (ap (◌∷◌ p) (keep_plain ps h))

pub parse_paths-join :
    (p : Str) (ps : List Str)
    → All IsPlain (p ∷ ps)
    → All (Lacks path_list_sep) (p ∷ ps)
    → parse_paths (join path_list_sep (p ∷ ps)) ≡ p ∷ ps
parse_paths-join p ps plain lacks =
    parse_paths-split (join path_list_sep (p ∷ ps)) (join-ne-nil p ps plain.0.0)
    ∙ ap (λ t. keep (λ p. not (beq p [])) (map trim t)) (split-join path_list_sep p ps lacks)
    ∙ keep_plain (p ∷ ps) plain

-- What a reader of a listed value gets.
pub env_paths-listed :
    (name : Str) (env : List Variable) (ps : List Str)
    → env_var name env ≡ listed ps
    → All IsPlain ps
    → All (Lacks path_list_sep) ps
    → env_paths name env ≡ ps
unfolding env_paths list_in listed
env_paths-listed name env [] e plain lacks = rw e refl
env_paths-listed name env (p ∷ ps) e plain lacks = rw e (parse_paths-join p ps plain lacks)

-- One name and one pushed variable.
pushed_other :
    (name key value : Str) (b : Bool)
    → beq key name ≡ false
    → env_var name (pushed_if b key value) ≡ none
unfolding pushed_if env_var or_else set_here
pushed_other name key value true h = rw h refl
pushed_other name key value false h = refl

pushed_listed :
    (name : Str) (ps : List Str)
    → beq name name ≡ true
    → env_var name (pushed_if (not (is_empty ps)) name (join path_list_sep ps)) ≡ listed ps
unfolding pushed_if env_var or_else set_here listed
pushed_listed name [] h = refl
pushed_listed name (p ∷ ps) h = rw h refl

abbrev pub read_name : Str
read_name = codes "ARAPUCA_READ_PATHS"

abbrev pub write_name : Str
write_name = codes "ARAPUCA_WRITE_PATHS"

abbrev limit_names : List Str
limit_names =
    codes "ARAPUCA_RLIMIT_FSIZE"
    ∷ codes "ARAPUCA_RLIMIT_NOFILE"
    ∷ codes "ARAPUCA_RLIMIT_CPU"
    ∷ codes "ARAPUCA_SECCOMP_PROFILE"
    ∷ codes "ARAPUCA_ALLOW_EXEC"
    ∷ codes "ARAPUCA_SECCOMP_DEBUG"
    ∷ []

other_first :
    (name : Str) (v : Variable) (vars : List Variable)
    → beq v.0 name ≡ false
    → env_var name (v ∷ vars) ≡ env_var name vars
unfolding env_var set_here
other_first name v vars h = rw h (or_else-none (env_var name vars))

-- A name that is none of the limits' is not set by them.
limits_env-other :
    (name : Str) (profile : Profile)
    → All (IsOther name) limit_names
    → env_var name (limits_env profile) ≡ none
unfolding limits_env
limits_env-other name profile (file_size, (files, (cpu, (policy, (exec, (debug, _)))))) =
    env_var-none name _ _ (pushed_other name _ _ _ file_size) (
      env_var-none name _ _ (pushed_other name _ _ _ files) (
        env_var-none name _ _ (pushed_other name _ _ _ cpu)
          (set_other name _ _ policy (set_other name _ _ exec (pushed_other name _ _ _ debug)))))

wrapper_vars-read :
    (profile : Profile) → env_var read_name (wrapper_vars profile) ≡ listed profile.read_paths
unfolding wrapper_vars
wrapper_vars-read profile =
    other_first read_name _ _ refl
    ∙ env_var-skip read_name _ _ (
        env_var-none read_name _ _ (pushed_other read_name _ _ _ refl)
          (limits_env-other read_name profile (refl, (refl, (refl, (refl, (refl, (refl, tt))))))))
    ∙ pushed_listed read_name profile.read_paths refl

wrapper_vars-write :
    (profile : Profile) → env_var write_name (wrapper_vars profile) ≡ listed profile.write_paths
unfolding wrapper_vars
wrapper_vars-write profile =
    other_first write_name _ _ refl
    ∙ env_var-pass write_name _ _ (pushed_other write_name _ _ _ refl)
    ∙ env_var-skip write_name _ _
        (limits_env-other write_name profile (refl, (refl, (refl, (refl, (refl, (refl, tt)))))))
    ∙ pushed_listed write_name profile.write_paths refl

abbrev pub wrapper_names : List Str
wrapper_names = codes "ARAPUCA_WRAPPER" ∷ read_name ∷ write_name ∷ limit_names

wrapper_vars-other :
    (name : Str) (profile : Profile)
    → All (IsOther name) wrapper_names
    → env_var name (wrapper_vars profile) ≡ none
unfolding wrapper_vars
wrapper_vars-other name profile (mark, (read, (write, limits))) = set_other name _ _ mark (
    env_var-none name _ _ (pushed_other name _ _ _ read) (
      env_var-none name _ _ (pushed_other name _ _ _ write) (limits_env-other name profile limits)))

-- The paths that pass the check of `wrapper_env` are those that the wrapper reads from its variables.
pub wrapper_env-env_var :
    (profile : Profile) (env : List Variable)
    → wrapper_env profile ≡ ok env
    → All (Lacks path_list_sep) (profile.read_paths ++ profile.write_paths)
      × (env_var read_name env ≡ listed profile.read_paths)
      × (env_var write_name env ≡ listed profile.write_paths)
      × ((name : Str) → All (IsOther name) wrapper_names → env_var name env ≡ none)
unfolding wrapper_env
wrapper_env-env_var profile env h =
    let (free, e) =
      reject-eq-ok (any (contains path_list_sep) (profile.read_paths ++ profile.write_paths)) _
        (ok (wrapper_vars profile)) h in
    let same : wrapper_vars profile ≡ env = cc in
    (
      none_contains path_list_sep _ free,
      rw (← same) (wrapper_vars-read profile),
      rw (← same) (wrapper_vars-write profile),
      λ name others. rw (← same) (wrapper_vars-other name profile others),
    )
