-- ===== src/Seccomp/Numbers.antt =====
-- The numbers of libc on x86_64 that src/seccomp.rs uses: those of the system calls, with the three
-- that the code declares itself, and those of their arguments.
use arapuca.Prelude.{ℕ}

abbrev pub sys_ptrace : ℕ
sys_ptrace = 101

abbrev pub sys_mount : ℕ
sys_mount = 165

abbrev pub sys_umount2 : ℕ
sys_umount2 = 166

abbrev pub sys_reboot : ℕ
sys_reboot = 169

abbrev pub sys_kexec_load : ℕ
sys_kexec_load = 246

abbrev pub sys_kexec_file_load : ℕ
sys_kexec_file_load = 320

abbrev pub sys_pivot_root : ℕ
sys_pivot_root = 155

abbrev pub sys_chroot : ℕ
sys_chroot = 161

abbrev pub sys_init_module : ℕ
sys_init_module = 175

abbrev pub sys_finit_module : ℕ
sys_finit_module = 313

abbrev pub sys_delete_module : ℕ
sys_delete_module = 176

abbrev pub sys_unshare : ℕ
sys_unshare = 272

abbrev pub sys_setns : ℕ
sys_setns = 308

abbrev pub sys_personality : ℕ
sys_personality = 135

abbrev pub sys_memfd_create : ℕ
sys_memfd_create = 319

abbrev pub sys_process_vm_readv : ℕ
sys_process_vm_readv = 310

abbrev pub sys_process_vm_writev : ℕ
sys_process_vm_writev = 311

abbrev pub sys_userfaultfd : ℕ
sys_userfaultfd = 323

abbrev pub sys_kcmp : ℕ
sys_kcmp = 312

abbrev pub sys_bpf : ℕ
sys_bpf = 321

abbrev pub sys_mount_setattr : ℕ
sys_mount_setattr = 442

abbrev pub sys_move_mount : ℕ
sys_move_mount = 429

abbrev pub sys_open_tree : ℕ
sys_open_tree = 428

abbrev pub sys_fsopen : ℕ
sys_fsopen = 430

abbrev pub sys_fsconfig : ℕ
sys_fsconfig = 431

abbrev pub sys_fsmount : ℕ
sys_fsmount = 432

abbrev pub sys_fspick : ℕ
sys_fspick = 433

abbrev pub sys_pidfd_getfd : ℕ
sys_pidfd_getfd = 438

abbrev pub sys_pidfd_send_signal : ℕ
sys_pidfd_send_signal = 424

abbrev pub sys_process_madvise : ℕ
sys_process_madvise = 440

abbrev pub sys_memfd_secret : ℕ
sys_memfd_secret = 447

abbrev pub sys_landlock_create_ruleset : ℕ
sys_landlock_create_ruleset = 444

abbrev pub sys_landlock_add_rule : ℕ
sys_landlock_add_rule = 445

abbrev pub sys_landlock_restrict_self : ℕ
sys_landlock_restrict_self = 446

abbrev pub sys_quotactl : ℕ
sys_quotactl = 179

abbrev pub sys_quotactl_fd : ℕ
sys_quotactl_fd = 443

abbrev pub sys_swapon : ℕ
sys_swapon = 167

abbrev pub sys_swapoff : ℕ
sys_swapoff = 168

abbrev pub sys_acct : ℕ
sys_acct = 163

abbrev pub sys_add_key : ℕ
sys_add_key = 248

abbrev pub sys_request_key : ℕ
sys_request_key = 249

abbrev pub sys_keyctl : ℕ
sys_keyctl = 250

abbrev pub sys_lsm_get_self_attr : ℕ
sys_lsm_get_self_attr = 459

abbrev pub sys_lsm_set_self_attr : ℕ
sys_lsm_set_self_attr = 460

abbrev pub sys_lsm_list_modules : ℕ
sys_lsm_list_modules = 461

abbrev pub sys_socket : ℕ
sys_socket = 41

abbrev pub sys_prctl : ℕ
sys_prctl = 157

abbrev pub sys_execveat : ℕ
sys_execveat = 322

abbrev pub sys_ioctl : ℕ
sys_ioctl = 16

abbrev pub sys_kill : ℕ
sys_kill = 62

abbrev pub sys_tkill : ℕ
sys_tkill = 200

abbrev pub sys_clone : ℕ
sys_clone = 56

abbrev pub sys_clone3 : ℕ
sys_clone3 = 435

abbrev pub sys_io_uring_setup : ℕ
sys_io_uring_setup = 425

abbrev pub sys_io_uring_enter : ℕ
sys_io_uring_enter = 426

abbrev pub sys_io_uring_register : ℕ
sys_io_uring_register = 427

abbrev pub sys_symlinkat : ℕ
sys_symlinkat = 266

abbrev pub sys_linkat : ℕ
sys_linkat = 265

abbrev pub sys_perf_event_open : ℕ
sys_perf_event_open = 298

abbrev pub sys_symlink : ℕ
sys_symlink = 88

abbrev pub sys_link : ℕ
sys_link = 86

abbrev pub af_inet : ℕ
af_inet = 2

abbrev pub af_inet6 : ℕ
af_inet6 = 10

abbrev pub pr_set_pdeathsig : ℕ
pr_set_pdeathsig = 1

abbrev pub pr_set_dumpable : ℕ
pr_set_dumpable = 4

abbrev pub at_empty_path : ℕ
at_empty_path = 0x1000

abbrev pub tiocsti : ℕ
tiocsti = 0x5412

abbrev pub tioclinux : ℕ
tioclinux = 0x541c

abbrev pub eperm : ℕ
eperm = 1

abbrev pub enosys : ℕ
enosys = 38
