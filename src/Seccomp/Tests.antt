-- ===== src/Seccomp/Tests.antt =====
-- Runs of the filters of src/seccomp.rs, and instances of their theorems, with a kernel in memory.
use arapuca.Prelude.{◌≡◌, ◌≤◌, ℕ, refl, List, [], zero, suc, ◌+◌}
use arapuca.Seccomp.Kernel.{allow, kill_process, errno, Call, Filter, precedence, stricter}
use arapuca.Seccomp.Memory.{stacked, memory_kernel}
use arapuca.Seccomp.Setup.{compiling, installing}
use arapuca.Seccomp.Filters.{strict, baseline, apply, build_filter, build_baseline_filter}
use arapuca.Prelude.Bits.{bit}
use arapuca.Seccomp.Chains.{is_among}
use arapuca.Seccomp.Lists.{baseline_kill_syscalls, tier1_kill_syscalls, tier2_eperm_syscalls}
use arapuca.Seccomp.Strict.{strict_refuses, asks_fallback, strict_policy}
use arapuca.Seccomp.Baseline.{baseline_policy, verdict_baseline}
use arapuca.Seccomp.Profiles.{baseline_below_strict, same_kills}
use arapuca.Seccomp.Summary.{
  summary, unconditional, kills_of, refusals_of, uncounted, summary_counts,
}

-- The process under each profile, and some system calls.
abbrev under_strict : List Filter
under_strict = (apply memory_kernel strict []).1

abbrev under_baseline : List Filter
under_baseline = (apply memory_kernel baseline []).1

abbrev first_arg : ℕ → ℕ → ℕ
first_arg x zero = x
first_arg x (suc i) = 0

abbrev call_with : ℕ → ℕ → Call
call_with n x = record { nr = n; arg = first_arg x }

-- clone(CLONE_NEWUSER | SIGCHLD), clone(SIGCHLD), socket(AF_INET), kill(-1), mount.
abbrev clone_user : Call
clone_user = call_with 56 0x1000_0011

abbrev clone_plain : Call
clone_plain = call_with 56 17

abbrev socket_inet : Call
socket_inet = call_with 41 2

abbrev kill_all : Call
kill_all = call_with 62 0xffff_ffff

abbrev mount_call : Call
mount_call = call_with 165 0

namespaces_refused : strict_policy clone_user ≡ errno 1
unfolding strict_policy is_among strict_refuses tier1_kill_syscalls tier2_eperm_syscalls bit
namespaces_refused = refl

plain_clone_allowed : strict_policy clone_plain ≡ allow
unfolding strict_policy is_among strict_refuses asks_fallback tier1_kill_syscalls
    tier2_eperm_syscalls bit
plain_clone_allowed = refl

mount_killed : strict_policy mount_call ≡ kill_process
unfolding strict_policy is_among tier1_kill_syscalls
mount_killed = refl

verdict_baseline_example :
    stacked under_baseline kill_all ≡ stricter (baseline_policy kill_all) allow
unfolding apply build_baseline_filter compiling installing
verdict_baseline_example = verdict_baseline memory_kernel [] under_baseline kill_all refl

baseline_below_strict_example :
    precedence (stacked under_baseline socket_inet) ≤ precedence (stacked under_strict socket_inet)
unfolding apply build_filter build_baseline_filter compiling installing
baseline_below_strict_example =
    baseline_below_strict memory_kernel [] under_baseline under_strict refl refl socket_inet

strict_counts :
    ((summary strict).tier1_kill_count ≡ unconditional (kills_of strict))
    × ((summary strict).tier2_eperm_count + uncounted strict ≡ unconditional (refusals_of strict))
strict_counts = summary_counts strict

-- memfd_create
same_kills_example : is_among 319 baseline_kill_syscalls ≡ is_among 319 tier1_kill_syscalls
same_kills_example = same_kills 319
