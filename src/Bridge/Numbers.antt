-- ===== src/Bridge/Numbers.antt =====
-- The numbers on x86_64 of the system calls that src/bridge.rs allows its helper processes.
use arapuca.Prelude.{ℕ}

abbrev pub sys_accept4 : ℕ
sys_accept4 = 288

abbrev pub sys_connect : ℕ
sys_connect = 42

abbrev pub sys_read : ℕ
sys_read = 0

abbrev pub sys_write : ℕ
sys_write = 1

abbrev pub sys_writev : ℕ
sys_writev = 20

abbrev pub sys_recvfrom : ℕ
sys_recvfrom = 45

abbrev pub sys_sendto : ℕ
sys_sendto = 44

abbrev pub sys_close : ℕ
sys_close = 3

abbrev pub sys_shutdown : ℕ
sys_shutdown = 48

abbrev pub sys_ppoll : ℕ
sys_ppoll = 271

abbrev pub sys_epoll_pwait : ℕ
sys_epoll_pwait = 281

abbrev pub sys_epoll_ctl : ℕ
sys_epoll_ctl = 233

abbrev pub sys_epoll_create1 : ℕ
sys_epoll_create1 = 291

abbrev pub sys_poll : ℕ
sys_poll = 7

abbrev pub sys_epoll_wait : ℕ
sys_epoll_wait = 232

abbrev pub sys_futex : ℕ
sys_futex = 202

abbrev pub sys_set_robust_list : ℕ
sys_set_robust_list = 273

abbrev pub sys_sched_yield : ℕ
sys_sched_yield = 24

abbrev pub sys_sched_getaffinity : ℕ
sys_sched_getaffinity = 204

abbrev pub sys_gettid : ℕ
sys_gettid = 186

abbrev pub sys_getpid : ℕ
sys_getpid = 39

abbrev pub sys_tgkill : ℕ
sys_tgkill = 234

abbrev pub sys_mmap : ℕ
sys_mmap = 9

abbrev pub sys_munmap : ℕ
sys_munmap = 11

abbrev pub sys_brk : ℕ
sys_brk = 12

abbrev pub sys_mremap : ℕ
sys_mremap = 25

abbrev pub sys_madvise : ℕ
sys_madvise = 28

abbrev pub sys_rt_sigaction : ℕ
sys_rt_sigaction = 13

abbrev pub sys_rt_sigprocmask : ℕ
sys_rt_sigprocmask = 14

abbrev pub sys_rt_sigreturn : ℕ
sys_rt_sigreturn = 15

abbrev pub sys_sigaltstack : ℕ
sys_sigaltstack = 131

abbrev pub sys_exit : ℕ
sys_exit = 60

abbrev pub sys_exit_group : ℕ
sys_exit_group = 231

abbrev pub sys_openat : ℕ
sys_openat = 257

abbrev pub sys_newfstatat : ℕ
sys_newfstatat = 262

abbrev pub sys_fstat : ℕ
sys_fstat = 5

abbrev pub sys_lseek : ℕ
sys_lseek = 8

abbrev pub sys_pread64 : ℕ
sys_pread64 = 17

abbrev pub sys_getrandom : ℕ
sys_getrandom = 318

abbrev pub sys_clock_gettime : ℕ
sys_clock_gettime = 228

abbrev pub sys_clock_nanosleep : ℕ
sys_clock_nanosleep = 230

abbrev pub sys_nanosleep : ℕ
sys_nanosleep = 35

abbrev pub sys_setsockopt : ℕ
sys_setsockopt = 54

abbrev pub sys_getsockopt : ℕ
sys_getsockopt = 55

abbrev pub sys_fcntl : ℕ
sys_fcntl = 72

abbrev pub sys_prlimit64 : ℕ
sys_prlimit64 = 302

abbrev pub sys_rseq : ℕ
sys_rseq = 334

abbrev pub sys_sendmmsg : ℕ
sys_sendmmsg = 307

abbrev pub sys_recvmmsg : ℕ
sys_recvmmsg = 299

abbrev pub sys_recvmsg : ℕ
sys_recvmsg = 47

abbrev pub sys_bind : ℕ
sys_bind = 49

abbrev pub sys_getsockname : ℕ
sys_getsockname = 51

abbrev pub sys_getpeername : ℕ
sys_getpeername = 52

abbrev pub sys_getuid : ℕ
sys_getuid = 102

abbrev pub sys_getgid : ℕ
sys_getgid = 104

abbrev pub sys_geteuid : ℕ
sys_geteuid = 107

abbrev pub sys_getegid : ℕ
sys_getegid = 108

abbrev pub sys_uname : ℕ
sys_uname = 63

abbrev pub sys_mprotect : ℕ
sys_mprotect = 10
