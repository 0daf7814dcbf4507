-- ===== src/Seccomp/Lists.antt =====
-- The code's lists of system calls, on x86_64.
use arapuca.Prelude.{ℕ, List, [], ◌∷◌}
use arapuca.Seccomp.Numbers.{
  sys_ptrace, sys_mount, sys_umount2, sys_reboot, sys_kexec_load, sys_kexec_file_load,
  sys_pivot_root, sys_chroot, sys_init_module, sys_finit_module, sys_delete_module, sys_unshare,
  sys_setns, sys_personality, sys_memfd_create, sys_process_vm_readv, sys_process_vm_writev,
  sys_userfaultfd, sys_kcmp, sys_bpf, sys_mount_setattr, sys_move_mount, sys_open_tree, sys_fsopen,
  sys_fsconfig, sys_fsmount, sys_fspick, sys_pidfd_getfd, sys_pidfd_send_signal,
  sys_process_madvise, sys_memfd_secret, sys_landlock_create_ruleset, sys_landlock_add_rule,
  sys_landlock_restrict_self, sys_quotactl, sys_quotactl_fd, sys_swapon, sys_swapoff, sys_acct,
  sys_add_key, sys_request_key, sys_keyctl, sys_lsm_get_self_attr, sys_lsm_set_self_attr,
  sys_lsm_list_modules, sys_symlinkat, sys_linkat, sys_perf_event_open, sys_symlink, sys_link,
}

-- Killed under the strict profile.
unfoldable pub tier1_kill_syscalls : List ℕ
tier1_kill_syscalls =
    sys_ptrace ∷ sys_mount ∷ sys_umount2 ∷ sys_reboot ∷ sys_kexec_load ∷ sys_kexec_file_load
    ∷ sys_pivot_root ∷ sys_chroot ∷ sys_init_module ∷ sys_finit_module ∷ sys_delete_module
    ∷ sys_unshare ∷ sys_setns ∷ sys_personality ∷ sys_memfd_create ∷ sys_process_vm_readv
    ∷ sys_process_vm_writev ∷ sys_userfaultfd ∷ sys_kcmp ∷ sys_bpf ∷ sys_mount_setattr
    ∷ sys_move_mount ∷ sys_open_tree ∷ sys_fsopen ∷ sys_fsconfig ∷ sys_fsmount ∷ sys_fspick
    ∷ sys_pidfd_getfd ∷ sys_pidfd_send_signal ∷ sys_process_madvise ∷ sys_memfd_secret
    ∷ sys_landlock_create_ruleset ∷ sys_landlock_add_rule ∷ sys_landlock_restrict_self
    ∷ sys_quotactl ∷ sys_quotactl_fd ∷ sys_swapon ∷ sys_swapoff ∷ sys_acct ∷ sys_add_key
    ∷ sys_request_key ∷ sys_keyctl ∷ sys_lsm_get_self_attr ∷ sys_lsm_set_self_attr
    ∷ sys_lsm_list_modules ∷ []

-- Refused under the strict profile, whatever the arguments.
unfoldable pub tier2_eperm_syscalls : List ℕ
tier2_eperm_syscalls =
    sys_symlinkat ∷ sys_linkat ∷ sys_perf_event_open ∷ sys_symlink ∷ sys_link ∷ []

-- Killed under the baseline profile.
unfoldable pub baseline_kill_syscalls : List ℕ
baseline_kill_syscalls =
    sys_ptrace ∷ sys_mount ∷ sys_umount2 ∷ sys_pivot_root ∷ sys_chroot ∷ sys_mount_setattr
    ∷ sys_move_mount ∷ sys_open_tree ∷ sys_fsopen ∷ sys_fsconfig ∷ sys_fsmount ∷ sys_fspick
    ∷ sys_unshare ∷ sys_setns ∷ sys_personality ∷ sys_init_module ∷ sys_finit_module
    ∷ sys_delete_module ∷ sys_kexec_load ∷ sys_kexec_file_load ∷ sys_reboot ∷ sys_bpf
    ∷ sys_process_vm_readv ∷ sys_process_vm_writev ∷ sys_landlock_create_ruleset
    ∷ sys_landlock_add_rule ∷ sys_landlock_restrict_self ∷ sys_userfaultfd ∷ sys_lsm_set_self_attr
    ∷ sys_memfd_create ∷ sys_pidfd_getfd ∷ sys_pidfd_send_signal ∷ sys_kcmp ∷ sys_process_madvise
    ∷ sys_memfd_secret ∷ sys_quotactl ∷ sys_quotactl_fd ∷ sys_swapon ∷ sys_swapoff ∷ sys_acct
    ∷ sys_add_key ∷ sys_request_key ∷ sys_keyctl ∷ sys_lsm_get_self_attr ∷ sys_lsm_list_modules ∷ []
