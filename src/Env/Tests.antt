-- ===== src/Env/Tests.antt =====
-- Runs of the functions of src/env.rs, and instances of their theorems.
use arapuca.Prelude.{
  ◌≡◌, ◌↔◌, refl, List, [], ◌∷◌, ◌++◌, true, false, not, some, ok, Str, codes, keep, map, arith,
}
use arapuca.Prelude.Cut.{split_once}
use arapuca.Prelude.Decimal.{to_string, print_digits, parse_unsigned, fitting, read_digits}
use arapuca.Prelude.Trim.{trim, trim_start, is_whitespace, IsSolid}
use arapuca.Profile.{Profile, process, strict, required}
use arapuca.Connect.{AllowedHost}
use arapuca.Env.{Variable, env_var}
use arapuca.Env.Filter.{filter_caller_env, sort_out, drop_reason, drop_tests, runtime_injection}
use arapuca.Env.Reserved.{is_reserved, IsReserved, filter_caller_env-IsReserved}
use arapuca.Env.Wrapper.{
  wrapper_env, wrapper_vars, limits_env, pushed_if, minimal_env, env_paths, parse_paths,
}
use arapuca.Env.PathLists.{read_name, write_name}
use arapuca.Env.Channels.{bridge_env, bridge_of, bridge_name, parse_bridge_env, parse_bridge_value}
use arapuca.Env.Unotify.{
  parse_unotify_config, unotify_env, supervision, value_of, parse_unotify_config-unotify_env,
}
use arapuca.Env.ConnectProxy.{
  connect_proxy_env, parse_connect_proxy_env, parse_connect_proxy_env-connect_proxy_env,
}
use arapuca.Env.Launch.{
  child_env, wrapper_part, with_tmp_dir, proxy_part, to_list, child_env-env_paths,
}

abbrev caller : List Variable
caller =
    (codes "LANG", codes "de")
    ∷ (codes "ARAPUCA_READ_PATHS", codes "/")
    ∷ (codes "GIT_SSH", codes "x")
    ∷ (codes "EDITOR2", codes "vi")
    ∷ []

filtered :
    (filter_caller_env caller).passed
    ≡ (codes "LANG", codes "de") ∷ (codes "EDITOR2", codes "vi") ∷ []
unfolding filter_caller_env sort_out drop_reason drop_tests
filtered = refl

git_is_dropped : drop_reason (codes "GIT_SSH") ≡ some runtime_injection
unfolding drop_reason drop_tests
git_is_dropped = refl

filter_caller_env-IsReserved_example :
    ((filter_caller_env caller).passed ≡ keep (λ v. not (is_reserved v.0)) caller)
    × (map (λ d. d.key) (filter_caller_env caller).dropped
        ≡ map (λ v. v.0) (keep (λ v. is_reserved v.0) caller))
    × ((key : Str) → (is_reserved key ≡ true) ↔ IsReserved key)
filter_caller_env-IsReserved_example = filter_caller_env-IsReserved caller

abbrev sandbox : Profile
sandbox = record {
  isolation = process;
  read_paths = codes "/usr" ∷ codes "/etc/ssl" ∷ [];
  write_paths = [];
  max_memory_mb = 0;
  max_cpu_pct = 0;
  max_pids = 0;
  cgroup_policy = required;
  cpu_timeout_secs = 30;
  max_file_size_mb = 1;
  max_open_files = 0;
  allow_exec = true;
  use_netns = true;
  use_pidns = false;
  dns_capture = true;
  lpac = false;
  seccomp_profile = strict;
  audit_file_access = false;
  audit_network = true;
  seccomp_debug = false;
  allow_proxy_env = false;
  allow_keychain = false;
}

limits :
    limits_env sandbox
    ≡ (codes "ARAPUCA_RLIMIT_FSIZE", codes "1048576")
      ∷ (codes "ARAPUCA_RLIMIT_CPU", codes "30")
      ∷ (codes "ARAPUCA_SECCOMP_PROFILE", codes "strict")
      ∷ (codes "ARAPUCA_ALLOW_EXEC", codes "1")
      ∷ []
unfolding limits_env pushed_if to_string print_digits
limits = refl

padded : parse_paths (codes " /a : /b ::") ≡ codes "/a" ∷ codes "/b" ∷ []
unfolding parse_paths trim trim_start is_whitespace
padded = refl

trimmed_usr : trim (codes "/usr") ≡ codes "/usr"
unfolding trim trim_start is_whitespace
trimmed_usr = refl

trimmed_ssl : trim (codes "/etc/ssl") ≡ codes "/etc/ssl"
unfolding trim trim_start is_whitespace
trimmed_ssl = refl

trimmed_tmp : trim (codes "/tmp/t") ≡ codes "/tmp/t"
unfolding trim trim_start is_whitespace
trimmed_tmp = refl

abbrev launched_env : List Variable
launched_env =
    minimal_env (codes "/tmp/t")
    ++ (wrapper_vars (with_tmp_dir (codes "/tmp/t") sandbox)
        ++ (proxy_part (some (codes "/run/s"))
            ++ ((bridge_name, codes "18080:/run/s") ∷ (filter_caller_env caller).passed)))

launched :
    child_env true true (codes "/tmp/t") sandbox (some (codes "/run/s")) caller ≡ ok launched_env
unfolding child_env wrapper_part wrapper_env bridge_env with_tmp_dir to_list to_string print_digits
launched = refl

child_env-env_paths_example :
    (env_paths read_name launched_env ≡ codes "/usr" ∷ codes "/etc/ssl" ∷ codes "/tmp/t" ∷ [])
    × (env_paths write_name launched_env ≡ codes "/tmp/t" ∷ [])
    × (parse_bridge_env (env_var bridge_name launched_env)
        ≡ ok (bridge_of true (some (codes "/run/s"))))
child_env-env_paths_example =
    child_env-env_paths true (codes "/tmp/t") sandbox (some (codes "/run/s")) caller launched_env
      ((cc, trimmed_usr), ((cc, trimmed_ssl), ((cc, trimmed_tmp), tt))) ((cc, trimmed_tmp), tt) (cc)
      launched

colons_are_read :
    parse_bridge_env (some (codes "18080:/run/user:1000/s"))
    ≡ ok (some (18080, codes "/run/user:1000/s"))
unfolding parse_bridge_env parse_bridge_value split_once parse_unsigned fitting read_digits
colons_are_read = refl

parse_unotify_config-unotify_env_example :
    parse_unotify_config (value_of (unotify_env sandbox)) ≡ some (supervision false true true true)
parse_unotify_config-unotify_env_example = parse_unotify_config-unotify_env sandbox

abbrev rule : AllowedHost
rule = record { host = codes ".a"; port = 443 }

dot-IsSolid : IsSolid b'.'
unfolding IsSolid is_whitespace
dot-IsSolid = refl

a-IsSolid : IsSolid b'a'
unfolding IsSolid is_whitespace
a-IsSolid = refl

parse_connect_proxy_env-connect_proxy_env_example :
    (value : Str) × (connect_proxy_env (rule ∷ [])
      ≡ ok (some (codes "ARAPUCA_CONNECT_PROXY", value)))
    × (parse_connect_proxy_env (some value) ≡ ok (some (rule ∷ [])))
parse_connect_proxy_env-connect_proxy_env_example =
    parse_connect_proxy_env-connect_proxy_env rule []
      ((((cc, cc, dot-IsSolid), ((cc, cc, a-IsSolid), tt)), omega arith, omega arith), tt)
