-- ===== src/Seccomp/Summary.antt =====
-- The summary of a profile in src/seccomp.rs that the audit log gets.
use arapuca.Prelude.{ℕ, suc, ◌+◌, ◌≡◌, refl, [], ◌∷◌, Bool, true, false, length}
use arapuca.Seccomp.Kernel.{Rules, insert}
use arapuca.Seccomp.Filters.{
  SeccompProfile, strict, baseline, insert_all, socket_rules, prctl_rules, execveat_rules,
  ioctl_rules, kill_rules, clone_rules, clone_ns_flags, strict_kill_filter, strict_eperm_rules,
  baseline_kill_filter, baseline_eperm_rules,
}
use arapuca.Seccomp.Lists.{tier1_kill_syscalls, tier2_eperm_syscalls, baseline_kill_syscalls}

pub record SeccompSummary : Type 0 where
  pub tier1_kill_count : ℕ
  pub tier2_eperm_count : ℕ
  pub socket_filter : Bool
  pub prctl_filter : Bool
  pub clone_ns_filter : Bool
  pub clone3_enosys : Bool
  pub io_uring_enosys : Bool
  pub execveat_filter : Bool
  pub kill_filter : Bool

unfoldable pub summary : SeccompProfile → SeccompSummary
summary strict = record {
  tier1_kill_count = length tier1_kill_syscalls;
  tier2_eperm_count = length tier2_eperm_syscalls;
  socket_filter = true;
  prctl_filter = true;
  clone_ns_filter = true;
  clone3_enosys = true;
  io_uring_enosys = true;
  execveat_filter = true;
  kill_filter = true;
}
summary baseline = record {
  tier1_kill_count = length baseline_kill_syscalls;
  tier2_eperm_count = 2;
  socket_filter = false;
  prctl_filter = true;
  clone_ns_filter = true;
  clone3_enosys = true;
  io_uring_enosys = true;
  execveat_filter = true;
  kill_filter = true;
}

-- The system calls that a map denies whatever their arguments.
unfoldable pub unconditional : Rules → ℕ
unconditional [] = 0
unconditional ((nr, []) ∷ m) = suc (unconditional m)
unconditional ((nr, r ∷ rs) ∷ m) = unconditional m

-- The killing filter and the filter of the refusals of a profile.
unfoldable pub kills_of : SeccompProfile → Rules
kills_of strict = strict_kill_filter.rules
kills_of baseline = baseline_kill_filter.rules

unfoldable pub refusals_of : SeccompProfile → Rules
refusals_of strict = strict_eperm_rules
refusals_of baseline = baseline_eperm_rules

-- What the summary's count of the refusals leaves out.
unfoldable pub uncounted : SeccompProfile → ℕ
uncounted strict = 1
uncounted baseline = 0

-- For each profile the summary counts the system calls that the profile kills, and those that it
-- refuses whatever their arguments, of which the strict profile's summary leaves out one, `tkill`.
pub summary_counts :
    (p : SeccompProfile)
    → ((summary p).tier1_kill_count ≡ unconditional (kills_of p))
      × ((summary p).tier2_eperm_count + uncounted p ≡ unconditional (refusals_of p))
unfolding summary unconditional kills_of refusals_of uncounted strict_kill_filter strict_eperm_rules
    baseline_kill_filter baseline_eperm_rules tier1_kill_syscalls tier2_eperm_syscalls
    baseline_kill_syscalls insert insert_all socket_rules prctl_rules execveat_rules ioctl_rules
    kill_rules clone_rules clone_ns_flags
summary_counts strict = (refl, refl)
summary_counts baseline = (refl, refl)
