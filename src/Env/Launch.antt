-- ===== src/Env/Launch.antt =====
-- How `launch` of src/platform/linux.rs puts the child's environment together, and what the wrapper
-- process reads back from it.
use arapuca.Prelude.{
  ◌≡◌, refl, ap, ◌∙◌, List, [], ◌∷◌, ◌++◌, Bool, true, false, Option, none, some, Result, ok, ◌>>=◌,
  >>=-eq-ok, Str, All, All-parts, Lacks, beq, codes,
}
use arapuca.Error.{Error}
use arapuca.Profile.{Profile}
use arapuca.Env.{
  Variable, env_var, or_else, set_here, env_var-skip, env_var-pass, env_var-none, env_var-nil,
  IsOther, set_other,
}
use arapuca.Env.Filter.{filter_caller_env}
use arapuca.Env.Reserved.{is_reserved, covers, env_var-passed}
use arapuca.Env.Wrapper.{path_list_sep, minimal_env, wrapper_env, env_paths}
use arapuca.Env.PathLists.{IsPlain, read_name, write_name, env_paths-listed, wrapper_env-env_var}
use arapuca.Env.Channels.{
  bridge_env, bridge_of, bridge_text, bridge_name, named, IsNamed, parse_bridge_env, bridge_env-ok,
  parse_bridge_env-bridge_text,
}

-- The profile that the wrapper gets: the temporary directory is readable and writable.
unfoldable pub with_tmp_dir : Str → Profile → Profile
with_tmp_dir tmp profile = record profile {
  write_paths = profile.write_paths ++ tmp ∷ [];
  read_paths = profile.read_paths ++ tmp ∷ [];
}

unfoldable pub wrapper_part : Bool → Str → Profile → Result Error (List Variable)
wrapper_part true tmp profile = wrapper_env (with_tmp_dir tmp profile)
wrapper_part false tmp profile = ok []

unfoldable pub proxy_part : Option Str → List Variable
proxy_part none = []
proxy_part (some proxy) = (codes "AGENT_NETWORK_PROXY", proxy) ∷ []

unfoldable pub to_list : Option Variable → List Variable
to_list none = []
to_list (some v) = v ∷ []

-- The variables of the child: `env_vars` as it stands at `command.env_clear()`.
unfoldable pub child_env :
    (use_wrapper use_netns : Bool) (tmp : Str) (profile : Profile) (proxy_socket : Option Str)
    (caller_env : List Variable)
    → Result Error (List Variable)
child_env use_wrapper use_netns tmp profile proxy_socket caller_env = do
  wrapper ← wrapper_part use_wrapper tmp profile
  bridge ← bridge_env use_netns proxy_socket
  ok (
      minimal_env tmp
      ++ (wrapper
          ++ (proxy_part proxy_socket
              ++ (to_list bridge ++ (filter_caller_env caller_env).passed))))

-- The parts of the environment that a launch with a wrapper builds.
abbrev assembled :
    Str → List Variable → Option Str → Option Variable → List Variable → List Variable
assembled tmp wrapper proxy_socket bridge caller_env =
    minimal_env tmp
    ++ (wrapper
        ++ (proxy_part proxy_socket ++ (to_list bridge ++ (filter_caller_env caller_env).passed)))

named_other :
    (name key : Str) (value : Option Str)
    → beq key name ≡ false
    → env_var name (to_list (named key value)) ≡ none
unfolding env_var or_else set_here to_list
named_other name key none h = refl
named_other name key (some value) h = rw h refl

named_same :
    (name : Str) (value : Option Str)
    → beq name name ≡ true
    → env_var name (to_list (named name value)) ≡ value
unfolding env_var or_else set_here to_list
named_same name none h = refl
named_same name (some value) h = rw h refl

proxy_part-other :
    (name : Str) (proxy_socket : Option Str)
    → beq (codes "AGENT_NETWORK_PROXY") name ≡ false
    → env_var name (proxy_part proxy_socket) ≡ none
unfolding env_var or_else set_here proxy_part
proxy_part-other name none h = refl
proxy_part-other name (some value) h = rw h refl

minimal_env-other :
    (name tmp : Str)
    → All (IsOther name) (codes "HOME" ∷ codes "TMPDIR" ∷ codes "PATH" ∷ codes "LANG" ∷ [])
    → env_var name (minimal_env tmp) ≡ none
unfolding minimal_env
minimal_env-other name tmp (home, (tmpdir, (path, (lang, _)))) = set_other name _ _ home (
    set_other name _ _ tmpdir
      (set_other name _ _ path (set_other name _ _ lang (env_var-nil name))))

read_name-is_reserved : is_reserved read_name ≡ true
unfolding is_reserved covers
read_name-is_reserved = refl

write_name-is_reserved : is_reserved write_name ≡ true
unfolding is_reserved covers
write_name-is_reserved = refl

bridge_name-is_reserved : is_reserved bridge_name ≡ true
unfolding is_reserved covers
bridge_name-is_reserved = refl

-- A reserved name that only the wrapper's part sets has the value that it has there.
assembled-wrapper :
    (name tmp : Str) (wrapper : List Variable) (proxy_socket : Option Str) (bridge : Option Str)
    (caller_env : List Variable)
    → is_reserved name ≡ true
    → beq bridge_name name ≡ false
    → beq (codes "AGENT_NETWORK_PROXY") name ≡ false
    → env_var name (minimal_env tmp) ≡ none
    → env_var name (assembled tmp wrapper proxy_socket (named bridge_name bridge) caller_env)
      ≡ env_var name wrapper
assembled-wrapper name tmp wrapper proxy_socket bridge caller_env reserved other agent minimal =
    env_var-pass name _ _ minimal
    ∙ env_var-skip name wrapper _ (
        env_var-none name _ _ (proxy_part-other name proxy_socket agent) (
          env_var-none name _ _ (named_other name bridge_name bridge other)
            (env_var-passed name caller_env reserved)))

-- The part of the bridge is not hidden by the caller's variables either.
assembled-bridge :
    (tmp : Str) (wrapper : List Variable) (proxy_socket bridge : Option Str)
    (caller_env : List Variable)
    → env_var bridge_name wrapper ≡ none
    → env_var bridge_name (assembled tmp wrapper proxy_socket (named bridge_name bridge) caller_env)
      ≡ bridge
assembled-bridge tmp wrapper proxy_socket bridge caller_env absent =
    env_var-pass bridge_name (minimal_env tmp) _
      (minimal_env-other bridge_name tmp (refl, (refl, (refl, (refl, tt)))))
    ∙ env_var-pass bridge_name wrapper _ absent
    ∙ env_var-pass bridge_name _ _ (proxy_part-other bridge_name proxy_socket refl)
    ∙ env_var-skip bridge_name _ _ (env_var-passed bridge_name caller_env bridge_name-is_reserved)
    ∙ named_same bridge_name bridge refl

-- What a launch that is not refused has put together.
child_env-assembled :
    (use_netns : Bool) (tmp : Str) (profile : Profile) (proxy_socket : Option Str)
    (caller_env env : List Variable)
    → child_env true use_netns tmp profile proxy_socket caller_env ≡ ok env
    → (wrapper : List Variable) × (wrapper_env (with_tmp_dir tmp profile) ≡ ok wrapper)
      × (assembled tmp wrapper proxy_socket
            (named bridge_name (bridge_text (bridge_of use_netns proxy_socket)))
            caller_env
          ≡ env)
unfolding child_env wrapper_part
child_env-assembled use_netns tmp profile proxy_socket caller_env env h =
    let (wrapper, e, rest) = >>=-eq-ok (wrapper_env (with_tmp_dir tmp profile)) _ h in
    let (bridge, e', rest') = >>=-eq-ok (bridge_env use_netns proxy_socket) _ rest in
    (wrapper, e, rw (← bridge_env-ok use_netns proxy_socket bridge e') cc rest')

-- Whatever variables the caller passes, the wrapper process of a launch reads back exactly the
-- profile's path lists, the temporary directory added to both, and the bridge that was asked for,
-- if the paths and the temporary directory are neither empty nor begin or end with white space, and
-- a proxy socket's path is not empty.
pub child_env-env_paths :
    (use_netns : Bool) (tmp : Str) (profile : Profile) (proxy_socket : Option Str)
    (caller_env env : List Variable)
    → All IsPlain (profile.read_paths ++ tmp ∷ [])
    → All IsPlain (profile.write_paths ++ tmp ∷ [])
    → IsNamed proxy_socket
    → child_env true use_netns tmp profile proxy_socket caller_env ≡ ok env
    → (env_paths read_name env ≡ profile.read_paths ++ tmp ∷ [])
      × (env_paths write_name env ≡ profile.write_paths ++ tmp ∷ [])
      × (parse_bridge_env (env_var bridge_name env) ≡ ok (bridge_of use_netns proxy_socket))
unfolding with_tmp_dir
child_env-env_paths use_netns tmp profile proxy_socket caller_env env plain plain' filled h =
    let (wrapper, e, whole) =
      child_env-assembled use_netns tmp profile proxy_socket caller_env env h in
    let (lacks, read, write, absent) = wrapper_env-env_var (with_tmp_dir tmp profile) wrapper e in
    let (lacks_read, lacks_write) =
      All-parts (Lacks path_list_sep) (profile.read_paths ++ tmp ∷ [])
        (profile.write_paths ++ tmp ∷ []) lacks in
    let mark = bridge_text (bridge_of use_netns proxy_socket) in
    rw (← whole) (
      env_paths-listed read_name _ _
          (assembled-wrapper read_name tmp wrapper proxy_socket mark caller_env
              read_name-is_reserved refl refl
              (minimal_env-other read_name tmp (refl, (refl, (refl, (refl, tt)))))
            ∙ read)
          plain lacks_read,
      env_paths-listed write_name _ _
          (assembled-wrapper write_name tmp wrapper proxy_socket mark caller_env
              write_name-is_reserved refl refl
              (minimal_env-other write_name tmp (refl, (refl, (refl, (refl, tt)))))
            ∙ write)
          plain' lacks_write,
      ap parse_bridge_env (
            assembled-bridge tmp wrapper proxy_socket mark caller_env (
              absent bridge_name
                (refl, (refl, (refl, (refl, (refl, (refl, (refl, (refl, (refl, tt)))))))))))
          ∙ parse_bridge_env-bridge_text use_netns proxy_socket filled,
    )
