-- ===== src/Env/Filter.antt =====
-- `drop_reason` and `filter_caller_env` of src/env.rs.
use arapuca.Prelude.{
  List, [], ◌∷◌, Bool, ◌||◌, Option, none, some, if◌then◌else◌, Str, codes, beq, any, starts_with,
}
use arapuca.Env.{Variable}

pub data DropReason : Type 0 where
  arapuca_prefix launcher_reserved ld_prefix dyld_prefix dotnet_prefix : DropReason
  interpreter_injection shell_injection windows_shim_injection runtime_injection : DropReason

pub record DroppedEnvVar : Type 0 where
  pub key : Str
  pub reason : DropReason

abbrev pub is_one_of : List Str → Str → Bool
is_one_of names key = any (beq key) names

abbrev pub interpreter_names : List Str
interpreter_names =
    codes "BASH_ENV"
    ∷ codes "ENV"
    ∷ codes "PYTHONPATH"
    ∷ codes "PYTHONSTARTUP"
    ∷ codes "NODE_OPTIONS"
    ∷ codes "PERL5OPT"
    ∷ codes "PERL5LIB"
    ∷ codes "ZDOTDIR"
    ∷ codes "IFS"
    ∷ codes "PROMPT_COMMAND"
    ∷ []

abbrev pub shell_names : List Str
shell_names = codes "COMSPEC" ∷ codes "PSModulePath" ∷ codes "PATHEXT" ∷ []

abbrev pub libc_names : List Str
libc_names = codes "GCONV_PATH" ∷ codes "HOSTALIASES" ∷ codes "LOCPATH" ∷ codes "GETCONF_DIR" ∷ []

abbrev pub tool_names : List Str
tool_names =
    codes "RUBYOPT"
    ∷ codes "RUBYLIB"
    ∷ codes "JAVA_TOOL_OPTIONS"
    ∷ codes "_JAVA_OPTIONS"
    ∷ codes "CLASSPATH"
    ∷ codes "PYTHONHOME"
    ∷ codes "GOFLAGS"
    ∷ codes "GIT_CONFIG_GLOBAL"
    ∷ codes "GIT_CONFIG_SYSTEM"
    ∷ codes "GIT_SSH_COMMAND"
    ∷ codes "GIT_SSH"
    ∷ codes "GIT_EXEC_PATH"
    ∷ codes "GIT_TEMPLATE_DIR"
    ∷ codes "GIT_EXTERNAL_DIFF"
    ∷ codes "GIT_ASKPASS"
    ∷ codes "GIT_EDITOR"
    ∷ codes "GIT_SEQUENCE_EDITOR"
    ∷ codes "OPENSSL_CONF"
    ∷ codes "EDITOR"
    ∷ codes "VISUAL"
    ∷ codes "PAGER"
    ∷ codes "CARGO_HOME"
    ∷ []

abbrev pub proxy_names : List Str
proxy_names =
    codes "http_proxy"
    ∷ codes "HTTP_PROXY"
    ∷ codes "https_proxy"
    ∷ codes "HTTPS_PROXY"
    ∷ codes "ALL_PROXY"
    ∷ codes "all_proxy"
    ∷ codes "NO_PROXY"
    ∷ codes "no_proxy"
    ∷ codes "ftp_proxy"
    ∷ codes "FTP_PROXY"
    ∷ codes "SOCKS_PROXY"
    ∷ codes "socks_proxy"
    ∷ codes "CGI_HTTP_PROXY"
    ∷ codes "CURL_CA_BUNDLE"
    ∷ codes "SSL_CERT_FILE"
    ∷ codes "SSL_CERT_DIR"
    ∷ codes "REQUESTS_CA_BUNDLE"
    ∷ []

-- The first test that holds names the reason.
abbrev pub first_of : List (Bool × DropReason) → Option DropReason
first_of [] = none
first_of ((test, reason) ∷ tests) = if test then some reason else first_of tests

-- The tests of `drop_reason`, in their order.
unfoldable pub drop_tests : Str → List (Bool × DropReason)
drop_tests key =
    (starts_with (codes "ARAPUCA_") key, arapuca_prefix)
    ∷ (beq key (codes "AGENT_NETWORK_PROXY"), launcher_reserved)
    ∷ (starts_with (codes "LD_") key, ld_prefix)
    ∷ (starts_with (codes "DYLD_") key, dyld_prefix)
    ∷ (
      starts_with (codes "COR_") key
          || starts_with (codes "CORECLR_") key
          || starts_with (codes "DOTNET_") key
          || starts_with (codes "COMPLUS_") key,
      dotnet_prefix,
    )
    ∷ (beq key (codes "__COMPAT_LAYER"), windows_shim_injection)
    ∷ (is_one_of interpreter_names key, interpreter_injection)
    ∷ (is_one_of shell_names key, shell_injection)
    ∷ (is_one_of libc_names key, runtime_injection)
    ∷ (is_one_of tool_names key, runtime_injection)
    ∷ (is_one_of proxy_names key, runtime_injection)
    ∷ []

unfoldable pub drop_reason : Str → Option DropReason
drop_reason key = first_of (drop_tests key)

pub record FilterResult : Type 0 where
  pub passed : List Variable
  pub dropped : List DroppedEnvVar

-- One variable in front of the result for those behind it.
unfoldable pub sort_out : Variable → Option DropReason → FilterResult → FilterResult
sort_out v (some why) rest = record rest {
  dropped = record { key = v.0; reason = why } ∷ rest.dropped;
}
sort_out v none rest = record rest { passed = v ∷ rest.passed }

unfoldable pub filter_caller_env : List Variable → FilterResult
filter_caller_env [] = record { passed = []; dropped = [] }
filter_caller_env (v ∷ env) = sort_out v (drop_reason v.0) (filter_caller_env env)
