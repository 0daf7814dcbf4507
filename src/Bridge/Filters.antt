-- ===== src/Bridge/Filters.antt =====
-- The filters of the bridge and of the CONNECT proxy: an allowlist, and a filter that answers ENOSYS
-- to `clone3`. A call outside the list kills the process, or traps it when debugging.
use arapuca.Prelude.{ℕ, List, [], ◌∷◌, Bool, if◌then◌else◌}
use arapuca.Seccomp.Kernel.{
  Action, allow, trap, kill_process, errno, Rule, Rules, Filter, filter, condition, dword, qword,
  eq, masked_eq, insert, Seccompiler,
}
use arapuca.Seccomp.Setup.{Setup, ◌>>=◌, ◌>>◌, pure, compiling, installing}
use arapuca.Seccomp.Filters.{one, insert_all}
use arapuca.Seccomp.Numbers.{
  sys_socket, sys_prctl, sys_ioctl, sys_clone, sys_clone3, af_inet, af_inet6, enosys,
}
use arapuca.Bridge.Numbers.{sys_mprotect}
use arapuca.Bridge.Groups.{
  io_calls, poll_calls, thread_calls, memory_calls, signal_calls, exit_calls, file_calls,
  runtime_calls, dns_calls, proxy_runtime_calls,
}

abbrev pub clone_thread_flags : ℕ
clone_thread_flags = 0x1_0f00

abbrev pub clone_ns_mask : ℕ
clone_ns_mask = 0x7e02_0080

abbrev pub af_unix : ℕ
af_unix = 1

abbrev pub prot_exec : ℕ
prot_exec = 4

abbrev pub pr_set_vma : ℕ
pr_set_vma = 0x5356_4d41

abbrev pub pr_set_name : ℕ
pr_set_name = 15

abbrev pub fionread : ℕ
fionread = 0x541b

abbrev pub fionbio : ℕ
fionbio = 0x5421

-- Threads only, and no namespaces.
unfoldable pub thread_rules : List Rule
thread_rules =
    (condition 0 qword (masked_eq clone_thread_flags) clone_thread_flags
      ∷ condition 0 qword (masked_eq clone_ns_mask) 0
      ∷ [])
    ∷ []

unfoldable pub mprotect_rules : List Rule
mprotect_rules = one 2 dword (masked_eq prot_exec) 0 ∷ []

unfoldable pub socket_unix_rules : List Rule
socket_unix_rules = one 0 dword eq af_unix ∷ []

unfoldable pub naming_rules : List Rule
naming_rules = one 0 dword eq pr_set_vma ∷ one 0 dword eq pr_set_name ∷ []

unfoldable pub bridge_rules : Rules
bridge_rules =
    let allowed = insert_all io_calls [] in
    let allowed = insert_all poll_calls allowed in
    let allowed = insert_all thread_calls allowed in
    let allowed = insert sys_clone thread_rules allowed in
    let allowed = insert sys_clone3 [] allowed in
    let allowed = insert_all memory_calls allowed in
    let allowed = insert sys_mprotect mprotect_rules allowed in
    let allowed = insert_all signal_calls allowed in
    let allowed = insert_all exit_calls allowed in
    let allowed = insert sys_socket socket_unix_rules allowed in
    let allowed = insert_all file_calls allowed in
    let allowed = insert_all runtime_calls allowed in insert sys_prctl naming_rules allowed

unfoldable pub ioctl_read_rules : List Rule
ioctl_read_rules = one 1 dword eq fionread ∷ one 1 dword eq fionbio ∷ []

unfoldable pub proxy_socket_rules : List Rule
proxy_socket_rules = one 0 dword eq af_unix ∷ one 0 dword eq af_inet ∷ one 0 dword eq af_inet6 ∷ []

unfoldable pub proxy_rules : Rules
proxy_rules =
    let allowed = insert_all io_calls [] in
    let allowed = insert_all poll_calls allowed in
    let allowed = insert_all dns_calls allowed in
    let allowed = insert sys_ioctl ioctl_read_rules allowed in
    let allowed = insert_all file_calls allowed in
    let allowed = insert_all thread_calls allowed in
    let allowed = insert sys_clone thread_rules allowed in
    let allowed = insert sys_clone3 [] allowed in
    let allowed = insert_all memory_calls allowed in
    let allowed = insert sys_mprotect mprotect_rules allowed in
    let allowed = insert_all signal_calls allowed in
    let allowed = insert_all exit_calls allowed in
    let allowed = insert sys_socket proxy_socket_rules allowed in
    let allowed = insert_all proxy_runtime_calls allowed in insert sys_prctl naming_rules allowed

unfoldable pub mismatch : (debug : Bool) → Action
mismatch debug = if debug then trap else kill_process

unfoldable pub clone3_filter : Filter
clone3_filter = filter (insert sys_clone3 [] []) allow (errno enosys)

unfoldable pub bridge_filter : (debug : Bool) → Filter
bridge_filter debug = filter bridge_rules (mismatch debug) allow

unfoldable pub proxy_filter : (debug : Bool) → Filter
proxy_filter debug = filter proxy_rules (mismatch debug) allow

-- The handler that `debug` installs for the trap is left out.
module _ (S : Seccompiler) where
  open S use {Program}

  -- The filter for `clone3` and the allowlist.
  unfoldable pub build_bridge_filters : (debug : Bool) → Setup Program (Program × Program)
  build_bridge_filters debug = do
    clone3_prog ← compiling S clone3_filter
    main_prog ← compiling S (bridge_filter debug)
    pure (clone3_prog, main_prog)

  unfoldable pub apply_bridge_seccomp : (debug : Bool) → Setup Program (Unit {0})
  apply_bridge_seccomp debug = do
    (clone3_prog, main_prog) ← build_bridge_filters debug
    installing S clone3_prog
    installing S main_prog

  unfoldable pub build_connect_proxy_filters : (debug : Bool) → Setup Program (Program × Program)
  build_connect_proxy_filters debug = do
    clone3_prog ← compiling S clone3_filter
    main_prog ← compiling S (proxy_filter debug)
    pure (clone3_prog, main_prog)

  unfoldable pub apply_connect_proxy_seccomp : (debug : Bool) → Setup Program (Unit {0})
  apply_connect_proxy_seccomp debug = do
    (clone3_prog, main_prog) ← build_connect_proxy_filters debug
    installing S clone3_prog
    installing S main_prog
