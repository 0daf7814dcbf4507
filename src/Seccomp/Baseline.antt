-- ===== src/Seccomp/Baseline.antt =====
-- The baseline profile of src/seccomp.rs: what its filters answer.
use mathlib.Core.Path.{subst}
use arapuca.Prelude.{
  ◌≡◌, refl, sym, ap, ◌∙◌, List, [], ◌∷◌, Bool, true, false, ◌&&◌, ◌||◌, ◌==◌, ok, if◌then◌else◌,
}
use arapuca.Seccomp.Kernel.{
  Action, allow, kill_process, errno, Call, matched, insert, get, stricter, Seccompiler,
}
use arapuca.Seccomp.Setup.{compiling, installing, bound-ok, compiling-ok, installing-ok, pure-ok}
use arapuca.Seccomp.Filters.{
  prctl_rules, execveat_rules, ioctl_rules, kill_rules, clone_rules, insert_all,
  baseline_kill_filter, baseline_eperm_rules, baseline_eperm_filter, baseline_clone_filter,
  enosys_rules, enosys_filter, build_baseline_filter, apply, baseline,
}
use arapuca.Seccomp.Lists.{baseline_kill_syscalls}
use arapuca.Seccomp.Numbers.{
  sys_prctl, sys_execveat, sys_ioctl, sys_kill, sys_tkill, sys_clone, sys_perf_event_open, eperm,
  enosys,
}
use arapuca.Seccomp.Chains.{is_among, matched-insert, matched-insert_bare, matched-listed}
use arapuca.Seccomp.Installed.{stricter-allow, stricter-errno, verdict-compiled}
use arapuca.Seccomp.Policy.{
  sets_protected, has_empty_path, injects_input, signals_group, makes_namespace, hit-prctl_rules,
  hit-execveat_rules, hit-ioctl_rules, hit-kill_rules, hit-clone_rules,
}
use arapuca.Seccomp.Strict.{asks_fallback, matched-enosys_rules, three_layers}

unfoldable pub makes_namespaces : Call → Bool
makes_namespaces c = c.nr == sys_clone && makes_namespace c

-- The calls that get EPERM, but for `clone`.
unfoldable pub baseline_refuses : Call → Bool
baseline_refuses c =
    (c.nr == sys_prctl && sets_protected c)
    || (c.nr == sys_execveat && has_empty_path c)
    || (c.nr == sys_ioctl && injects_input c)
    || (c.nr == sys_kill && signals_group c)
    || c.nr == sys_tkill
    || c.nr == sys_perf_event_open

unfoldable pub baseline_policy : Call → Action
baseline_policy c =
    if is_among c.nr baseline_kill_syscalls
    then kill_process
    else if baseline_refuses c || makes_namespaces c
    then errno eperm
    else if asks_fallback c
    then errno enosys
    else allow

matched-baseline_eperm_rules : (c : Call) → matched c baseline_eperm_rules ≡ baseline_refuses c
unfolding baseline_eperm_rules baseline_refuses get insert matched
matched-baseline_eperm_rules c =
    let r1 = insert sys_prctl prctl_rules [] in
    let r2 = insert sys_execveat execveat_rules r1 in
    let r3 = insert sys_ioctl ioctl_rules r2 in
    let r4 = insert sys_kill kill_rules r3 in
    let r5 = insert sys_tkill [] r4 in
    let m1 = matched-insert c sys_prctl prctl_rules [] false _ refl refl (hit-prctl_rules c) in
    let m2 = matched-insert c sys_execveat execveat_rules r1 _ _ refl m1 (hit-execveat_rules c) in
    let m3 = matched-insert c sys_ioctl ioctl_rules r2 _ _ refl m2 (hit-ioctl_rules c) in
    let m4 = matched-insert c sys_kill kill_rules r3 _ _ refl m3 (hit-kill_rules c) in
    let m5 = matched-insert_bare c sys_tkill r4 _ m4 in
    matched-insert_bare c sys_perf_event_open r5 _ m5

matched-clone : (c : Call) → matched c (insert sys_clone clone_rules []) ≡ makes_namespaces c
unfolding makes_namespaces get matched
matched-clone c = matched-insert c sys_clone clone_rules [] false _ refl refl (hit-clone_rules c)

matched-baseline_kill :
    (c : Call)
    → matched c (insert_all baseline_kill_syscalls []) ≡ is_among c.nr baseline_kill_syscalls
matched-baseline_kill c = matched-listed c baseline_kill_syscalls

both_refuse :
    (a b : Bool) (v : Action)
    → stricter (if a then errno eperm else allow) (stricter (if b then errno eperm else allow) v)
      ≡ stricter (if a || b then errno eperm else allow) v
both_refuse true true v = stricter-errno eperm eperm v
both_refuse true false v = ap (stricter (errno eperm)) (stricter-allow v)
both_refuse false b v = stricter-allow _

module _ (S : Seccompiler) where
  open S use {Program, compile, verdict}

  -- The four filters of the baseline profile.
  build_baseline_filter-installs :
      (ps qs : List Program) (prog : Program)
      → build_baseline_filter S ps ≡ (ok prog, qs)
      → (enosys_prog clone_prog eperm_prog : Program) × (compile baseline_kill_filter ≡ ok prog)
        × (compile baseline_eperm_filter ≡ ok eperm_prog)
        × (compile baseline_clone_filter ≡ ok clone_prog)
        × (compile enosys_filter ≡ ok enosys_prog)
        × (qs ≡ eperm_prog ∷ clone_prog ∷ enosys_prog ∷ ps)
  unfolding build_baseline_filter
  build_baseline_filter-installs ps qs prog h =
      let (k, p1, k1, h1) = bound-ok (compiling S baseline_kill_filter) _ ps qs prog h in
      let (d, p2, d1, h2) = bound-ok (compiling S baseline_clone_filter) _ p1 qs prog h1 in
      let (e, p3, e1, h3) = bound-ok (compiling S enosys_filter) _ p2 qs prog h2 in
      let (t, p4, t1, h4) = bound-ok (installing S e) _ p3 qs prog h3 in
      let (u, p5, u1, h5) = bound-ok (installing S d) _ p4 qs prog h4 in
      let (r, p6, r1, h6) = bound-ok (compiling S baseline_eperm_filter) _ p5 qs prog h5 in
      let (w, p7, w1, h7) = bound-ok (installing S r) _ p6 qs prog h6 in
      let (ck, q1) = compiling-ok S baseline_kill_filter k ps p1 k1 in
      let (cd, q2) = compiling-ok S baseline_clone_filter d p1 p2 d1 in
      let (ce, q3) = compiling-ok S enosys_filter e p2 p3 e1 in
      let (cr, q6) = compiling-ok S baseline_eperm_filter r p5 p6 r1 in
      let q4 = installing-ok S e p3 p4 t t1 in
      let q5 = installing-ok S d p4 p5 u u1 in
      let q7 = installing-ok S r p6 p7 w w1 in
      let (done, left) = pure-ok k prog p7 qs h7 in
      let below = q5 ∙ ap (λ t. d ∷ t) (q4 ∙ ap (λ t. e ∷ t) (sym (q1 ∙ q2 ∙ q3))) in
      (
        e,
        d,
        r,
        subst (λ x. compile baseline_kill_filter ≡ ok x) done ck,
        cr,
        cd,
        ce,
        sym left ∙ q7 ∙ ap (λ t. r ∷ t) (sym q6 ∙ below),
      )

  -- A process that the baseline profile was applied to gets, for each system call, the stricter of
  -- the policy's answer and of what it got before: the policy kills the process for the calls of
  -- the list, refuses with EPERM the protected process settings, the execution of a file without a
  -- path, the injection of terminal input, the signals to groups, `tkill`, `perf_event_open` and
  -- the new namespaces, answers ENOSYS to `clone3` and io_uring, and allows everything else.
  pub verdict_baseline :
      (ps qs : List Program) (c : Call)
      → apply S baseline ps ≡ (ok tt, qs)
      → verdict qs c ≡ stricter (baseline_policy c) (verdict ps c)
  unfolding apply baseline_policy baseline_kill_filter baseline_eperm_filter baseline_clone_filter
      enosys_filter
  verdict_baseline ps qs c h =
      let (k, p1, k1, h1) = bound-ok (build_baseline_filter S) (installing S) ps qs tt h in
      let q = installing-ok S k p1 qs tt h1 in
      let (e, d, r, ck, cr, cd, ce, below) = build_baseline_filter-installs ps p1 k k1 in
      let asks =
        verdict-compiled S enosys_rules (errno enosys) e ps c _ ce (matched-enosys_rules c) in
      let clones =
        verdict-compiled S (insert sys_clone clone_rules []) (errno eperm) d (e ∷ ps) c _ cd
          (matched-clone c) in
      let refuses =
        verdict-compiled S baseline_eperm_rules (errno eperm) r (d ∷ e ∷ ps) c _ cr
          (matched-baseline_eperm_rules c) in
      let kills =
        verdict-compiled S (insert_all baseline_kill_syscalls []) kill_process k (r ∷ d ∷ e ∷ ps) c
          _ ck (matched-baseline_kill c) in
      ap (λ t. verdict t c) (q ∙ ap (λ t. k ∷ t) below)
      ∙ kills
      ∙ ap (stricter _)
          (refuses ∙ ap (stricter _) clones ∙ both_refuse _ _ _ ∙ ap (stricter _) asks)
      ∙ three_layers (is_among c.nr baseline_kill_syscalls)
          (baseline_refuses c || makes_namespaces c) (asks_fallback c) (verdict ps c)
