-- ===== src/Bridge/Groups.antt =====
-- The groups of system calls that src/bridge.rs allows its helper processes.
use arapuca.Prelude.{ℕ, List, [], ◌∷◌}
use arapuca.Bridge.Numbers.{
  sys_accept4, sys_connect, sys_read, sys_write, sys_writev, sys_recvfrom, sys_sendto, sys_close,
  sys_shutdown, sys_ppoll, sys_epoll_pwait, sys_epoll_ctl, sys_epoll_create1, sys_poll,
  sys_epoll_wait, sys_futex, sys_set_robust_list, sys_sched_yield, sys_sched_getaffinity,
  sys_gettid, sys_getpid, sys_tgkill, sys_mmap, sys_munmap, sys_brk, sys_mremap, sys_madvise,
  sys_rt_sigaction, sys_rt_sigprocmask, sys_rt_sigreturn, sys_sigaltstack, sys_exit, sys_exit_group,
  sys_openat, sys_newfstatat, sys_fstat, sys_lseek, sys_pread64, sys_getrandom, sys_clock_gettime,
  sys_clock_nanosleep, sys_nanosleep, sys_setsockopt, sys_getsockopt, sys_fcntl, sys_prlimit64,
  sys_rseq, sys_sendmmsg, sys_recvmmsg, sys_recvmsg, sys_bind, sys_getsockname, sys_getpeername,
  sys_getuid, sys_getgid, sys_geteuid, sys_getegid, sys_uname,
}

unfoldable pub io_calls : List ℕ
io_calls =
    sys_accept4 ∷ sys_connect ∷ sys_read ∷ sys_write ∷ sys_writev ∷ sys_recvfrom ∷ sys_sendto
    ∷ sys_close ∷ sys_shutdown ∷ sys_ppoll ∷ sys_epoll_pwait ∷ sys_epoll_ctl ∷ sys_epoll_create1
    ∷ []

unfoldable pub poll_calls : List ℕ
poll_calls = sys_poll ∷ sys_epoll_wait ∷ []

unfoldable pub thread_calls : List ℕ
thread_calls =
    sys_futex ∷ sys_set_robust_list ∷ sys_sched_yield ∷ sys_sched_getaffinity ∷ sys_gettid
    ∷ sys_getpid ∷ sys_tgkill ∷ []

unfoldable pub memory_calls : List ℕ
memory_calls = sys_mmap ∷ sys_munmap ∷ sys_brk ∷ sys_mremap ∷ sys_madvise ∷ []

unfoldable pub signal_calls : List ℕ
signal_calls = sys_rt_sigaction ∷ sys_rt_sigprocmask ∷ sys_rt_sigreturn ∷ sys_sigaltstack ∷ []

unfoldable pub exit_calls : List ℕ
exit_calls = sys_exit ∷ sys_exit_group ∷ []

unfoldable pub file_calls : List ℕ
file_calls = sys_openat ∷ sys_newfstatat ∷ sys_fstat ∷ sys_lseek ∷ sys_pread64 ∷ []

unfoldable pub runtime_calls : List ℕ
runtime_calls =
    sys_getrandom ∷ sys_clock_gettime ∷ sys_clock_nanosleep ∷ sys_nanosleep ∷ sys_setsockopt
    ∷ sys_getsockopt ∷ sys_fcntl ∷ sys_prlimit64 ∷ sys_rseq ∷ []

unfoldable pub dns_calls : List ℕ
dns_calls =
    sys_sendmmsg ∷ sys_recvmmsg ∷ sys_recvmsg ∷ sys_bind ∷ sys_getsockname ∷ sys_getpeername ∷ []

unfoldable pub proxy_runtime_calls : List ℕ
proxy_runtime_calls =
    sys_getrandom ∷ sys_clock_gettime ∷ sys_clock_nanosleep ∷ sys_nanosleep ∷ sys_setsockopt
    ∷ sys_getsockopt ∷ sys_fcntl ∷ sys_prlimit64 ∷ sys_rseq ∷ sys_getuid ∷ sys_getgid ∷ sys_geteuid
    ∷ sys_getegid ∷ sys_uname ∷ []
