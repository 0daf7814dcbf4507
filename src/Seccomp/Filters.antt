-- ===== src/Seccomp/Filters.antt =====
-- The filters that src/seccomp.rs builds and installs for each profile. The process is the list of
-- the filters that it runs under, the last installed in front. An error keeps the crate's message
-- and not the text that the code puts before it.
pub use arapuca.Profile.{SeccompProfile, strict, baseline}
use arapuca.Prelude.{ℕ, List, [], ◌∷◌, map}
use arapuca.Seccomp.Kernel.{
  allow, kill_process, errno, CmpOp, CmpArgLen, dword, qword, eq, ne, masked_eq, condition, Rule,
  Rules, Filter, filter, insert, Seccompiler,
}
use arapuca.Seccomp.Setup.{Setup, ◌>>=◌, ◌>>◌, pure, compiling, installing}
use arapuca.Seccomp.Lists.{tier1_kill_syscalls, tier2_eperm_syscalls, baseline_kill_syscalls}
use arapuca.Seccomp.Numbers.{
  sys_socket, sys_prctl, sys_execveat, sys_ioctl, sys_kill, sys_tkill, sys_clone, sys_clone3,
  sys_io_uring_setup, sys_io_uring_enter, sys_io_uring_register, sys_perf_event_open, af_inet,
  af_inet6, pr_set_pdeathsig, pr_set_dumpable, at_empty_path, tiocsti, tioclinux, eperm, enosys,
}

-- A rule of one condition.
abbrev pub one : ℕ → CmpArgLen → CmpOp → ℕ → Rule
one i len op v = condition i len op v ∷ []

-- `for nr in list { rules.insert(nr, vec![]) }`.
unfoldable pub insert_all : List ℕ → Rules → Rules
insert_all [] m = m
insert_all (nr ∷ list) m = insert_all list (insert nr [] m)

unfoldable pub socket_rules : List Rule
socket_rules = one 0 dword eq af_inet ∷ one 0 dword eq af_inet6 ∷ []

unfoldable pub prctl_rules : List Rule
prctl_rules =
    one 0 dword eq pr_set_pdeathsig
    ∷ (condition 0 dword eq pr_set_dumpable ∷ condition 1 dword ne 0 ∷ [])
    ∷ []

unfoldable pub execveat_rules : List Rule
execveat_rules = one 4 dword (masked_eq at_empty_path) at_empty_path ∷ []

unfoldable pub ioctl_rules : List Rule
ioctl_rules = one 1 dword eq tiocsti ∷ one 1 dword eq tioclinux ∷ []

unfoldable pub kill_rules : List Rule
kill_rules = one 0 dword eq 0 ∷ one 0 dword (masked_eq 0x8000_0000) 0x8000_0000 ∷ []

-- CLONE_NEWNS, NEWCGROUP, NEWUTS, NEWIPC, NEWUSER, NEWPID, NEWNET and NEWTIME.
unfoldable pub clone_ns_flags : List ℕ
clone_ns_flags =
    0x0002_0000 ∷ 0x0200_0000 ∷ 0x0400_0000 ∷ 0x0800_0000 ∷ 0x1000_0000 ∷ 0x2000_0000 ∷ 0x4000_0000
    ∷ 0x0000_0080 ∷ []

unfoldable pub clone_rules : List Rule
clone_rules = map (λ flag. one 0 qword (masked_eq flag) flag) clone_ns_flags

unfoldable pub strict_kill_filter : Filter
strict_kill_filter = filter (insert_all tier1_kill_syscalls []) allow kill_process

unfoldable pub strict_eperm_rules : Rules
strict_eperm_rules =
    let rules = insert_all tier2_eperm_syscalls [] in
    let rules = insert sys_socket socket_rules rules in
    let rules = insert sys_prctl prctl_rules rules in
    let rules = insert sys_execveat execveat_rules rules in
    let rules = insert sys_ioctl ioctl_rules rules in
    let rules = insert sys_kill kill_rules rules in
    let rules = insert sys_tkill [] rules in insert sys_clone clone_rules rules

unfoldable pub strict_eperm_filter : Filter
strict_eperm_filter = filter strict_eperm_rules allow (errno eperm)

unfoldable pub enosys_rules : Rules
enosys_rules =
    let rules = insert sys_clone3 [] [] in
    let rules = insert sys_io_uring_setup [] rules in
    let rules = insert sys_io_uring_enter [] rules in insert sys_io_uring_register [] rules

unfoldable pub enosys_filter : Filter
enosys_filter = filter enosys_rules allow (errno enosys)

unfoldable pub baseline_kill_filter : Filter
baseline_kill_filter = filter (insert_all baseline_kill_syscalls []) allow kill_process

unfoldable pub baseline_clone_filter : Filter
baseline_clone_filter = filter (insert sys_clone clone_rules []) allow (errno eperm)

unfoldable pub baseline_eperm_rules : Rules
baseline_eperm_rules =
    let rules = insert sys_prctl prctl_rules [] in
    let rules = insert sys_execveat execveat_rules rules in
    let rules = insert sys_ioctl ioctl_rules rules in
    let rules = insert sys_kill kill_rules rules in
    let rules = insert sys_tkill [] rules in insert sys_perf_event_open [] rules

unfoldable pub baseline_eperm_filter : Filter
baseline_eperm_filter = filter baseline_eperm_rules allow (errno eperm)

module _ (S : Seccompiler) where
  open S use {Program}

  unfoldable pub build_filter : Setup Program Program
  build_filter = do
    kill_prog ← compiling S strict_kill_filter
    enosys_prog ← compiling S enosys_filter
    eperm_prog ← compiling S strict_eperm_filter
    installing S enosys_prog
    installing S eperm_prog
    pure kill_prog

  unfoldable pub build_baseline_filter : Setup Program Program
  build_baseline_filter = do
    main_prog ← compiling S baseline_kill_filter
    clone_prog ← compiling S baseline_clone_filter
    enosys_prog ← compiling S enosys_filter
    installing S enosys_prog
    installing S clone_prog
    eperm_prog ← compiling S baseline_eperm_filter
    installing S eperm_prog
    pure main_prog

  unfoldable pub apply : SeccompProfile → Setup Program (Unit {0})
  apply strict = do prog ← build_filter; installing S prog
  apply baseline = do prog ← build_baseline_filter; installing S prog
