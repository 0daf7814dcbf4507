-- ===== src/Seccomp/Profiles.antt =====
-- The two profiles of src/seccomp.rs side by side.
use arapuca.Prelude.{
  ℕ, ◌≤◌, ◌≡◌, refl, sym, Bool, true, false, ◌&&◌, ◌||◌, ◌==◌, all, if◌then◌else◌, arith, List, ok,
  ltb, Bool-cases, inl, inr,
}
use arapuca.Seccomp.Kernel.{
  Action, allow, kill_process, errno, Call, precedence, stricter, Seccompiler,
}
use arapuca.Seccomp.Filters.{strict, baseline, apply}
use arapuca.Seccomp.Lists.{tier1_kill_syscalls, tier2_eperm_syscalls, baseline_kill_syscalls}
use arapuca.Seccomp.Numbers.{
  sys_socket, sys_prctl, sys_execveat, sys_ioctl, sys_kill, sys_tkill, sys_clone,
  sys_perf_event_open, eperm, enosys,
}
use arapuca.Seccomp.Chains.{is_among, is_among_within}
use arapuca.Seccomp.Policy.{
  is_internet, sets_protected, has_empty_path, injects_input, signals_group, makes_namespace,
}
use arapuca.Seccomp.Strict.{asks_fallback, strict_refuses, strict_policy, verdict_strict}
use arapuca.Seccomp.Baseline.{makes_namespaces, baseline_refuses, baseline_policy, verdict_baseline}

same_truth : (a b : Bool) → (a ≡ true → b ≡ true) → (b ≡ true → a ≡ true) → a ≡ b
same_truth true b f g = sym (f refl)
same_truth false true f g = g refl
same_truth false false f g = refl

baseline_in_tier1 : all (λ x. is_among x tier1_kill_syscalls) baseline_kill_syscalls ≡ true
unfolding is_among tier1_kill_syscalls baseline_kill_syscalls
baseline_in_tier1 = refl

tier1_in_baseline : all (λ x. is_among x baseline_kill_syscalls) tier1_kill_syscalls ≡ true
unfolding is_among tier1_kill_syscalls baseline_kill_syscalls
tier1_in_baseline = refl

-- A system call is in the baseline profile's list of those that kill the process exactly if it is in
-- the strict profile's.
pub same_kills : (n : ℕ) → is_among n baseline_kill_syscalls ≡ is_among n tier1_kill_syscalls
same_kills n =
    same_truth (is_among n baseline_kill_syscalls) (is_among n tier1_kill_syscalls)
      (is_among_within baseline_kill_syscalls tier1_kill_syscalls n baseline_in_tier1)
      (is_among_within tier1_kill_syscalls baseline_kill_syscalls n tier1_in_baseline)

more_reasons :
    (listed socket prctl exec ioctl kill tkill perf clone : Bool)
    → (perf ≡ true → listed ≡ true)
    → ((((((prctl || exec) || ioctl) || kill) || tkill) || perf) || clone) ≡ true
    → (((((((listed || socket) || prctl) || exec) || ioctl) || kill) || tkill) || clone) ≡ true
more_reasons listed socket prctl exec ioctl kill tkill perf clone f h = ground arith

perf_is_listed :
    (n : ℕ) → (n == sys_perf_event_open) ≡ true → is_among n tier2_eperm_syscalls ≡ true
unfolding is_among tier2_eperm_syscalls
perf_is_listed n h = ground arith

baseline_refuses-strict :
    (c : Call) → (baseline_refuses c || makes_namespaces c) ≡ true → strict_refuses c ≡ true
unfolding baseline_refuses makes_namespaces strict_refuses
baseline_refuses-strict c h =
    more_reasons (is_among c.nr tier2_eperm_syscalls) (c.nr == sys_socket && is_internet c)
      (c.nr == sys_prctl && sets_protected c) (c.nr == sys_execveat && has_empty_path c)
      (c.nr == sys_ioctl && injects_input c) (c.nr == sys_kill && signals_group c)
      (c.nr == sys_tkill) (c.nr == sys_perf_event_open) (c.nr == sys_clone && makes_namespace c)
      (perf_is_listed c.nr) h

below :
    (k rb rs a : Bool)
    → (rb ≡ true → rs ≡ true)
    → precedence
        (if k then kill_process else if rb then errno eperm else if a then errno enosys else allow)
      ≤ precedence (
          if k then kill_process else if rs then errno eperm else if a then errno enosys else allow)
unfolding precedence
below true rb rs a f = omega arith
below false true rs a f = rw (f refl) (omega arith)
below false false true true f = omega arith
below false false true false f = omega arith
below false false false a f = omega arith

policies_ordered : (c : Call) → precedence (baseline_policy c) ≤ precedence (strict_policy c)
unfolding baseline_policy strict_policy
policies_ordered c = rw (same_kills c.nr) (
    below (is_among c.nr tier1_kill_syscalls) (baseline_refuses c || makes_namespaces c)
      (strict_refuses c) (asks_fallback c) (baseline_refuses-strict c))

stricter_monotone :
    (a b v : Action)
    → precedence a ≤ precedence b
    → precedence (stricter a v) ≤ precedence (stricter b v)
unfolding stricter
stricter_monotone a b v h = elim (Bool-cases (ltb (precedence a) (precedence v))) [
  | inl p ↦ elim (Bool-cases (ltb (precedence b) (precedence v))) [
    | inl q ↦ rw (p, q) (omega arith)
    | inr q ↦ rw (p, q) (ground arith)
  ]
  | inr p ↦ let q : ltb (precedence b) (precedence v) ≡ false = ground arith in rw (p, q) h
]

-- Of two runs that apply the profiles to the same process and succeed, the one with the strict
-- profile leaves no system call less restricted than the one with the baseline profile.
pub baseline_below_strict :
    (S : Seccompiler) (ps qs rs : List S.Program)
    → apply S baseline ps ≡ (ok tt, qs)
    → apply S strict ps ≡ (ok tt, rs)
    → (c : Call) → precedence (S.verdict qs c) ≤ precedence (S.verdict rs c)
baseline_below_strict S ps qs rs hb hs c =
    rw (verdict_baseline S ps qs c hb, verdict_strict S ps rs c hs)
      (stricter_monotone (baseline_policy c) (strict_policy c) (S.verdict ps c)
        (policies_ordered c))
