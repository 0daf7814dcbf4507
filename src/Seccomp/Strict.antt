-- ===== src/Seccomp/Strict.antt =====
-- The strict profile of src/seccomp.rs: what its filters answer, and what a process may still do.
use mathlib.Core.Path.{subst}
use arapuca.Prelude.{
  ◌≡◌, refl, sym, ap, ◌∙◌, List, [], ◌∷◌, Bool, true, false, ◌&&◌, ◌||◌, ◌==◌, ok, if◌then◌else◌,
}
use arapuca.Seccomp.Kernel.{
  Action, allow, kill_process, errno, Call, matched, insert, get, stricter, Seccompiler,
}
use arapuca.Seccomp.Setup.{compiling, installing, bound-ok, compiling-ok, installing-ok, pure-ok}
use arapuca.Seccomp.Filters.{
  socket_rules, prctl_rules, execveat_rules, ioctl_rules, kill_rules, clone_rules, insert_all,
  strict_kill_filter, strict_eperm_rules, strict_eperm_filter, enosys_rules, enosys_filter,
  build_filter, apply, strict,
}
use arapuca.Seccomp.Lists.{tier1_kill_syscalls, tier2_eperm_syscalls}
use arapuca.Seccomp.Numbers.{
  sys_socket, sys_prctl, sys_execveat, sys_ioctl, sys_kill, sys_tkill, sys_clone, sys_clone3,
  sys_io_uring_setup, sys_io_uring_enter, sys_io_uring_register, eperm, enosys,
}
use arapuca.Seccomp.Chains.{is_among, matched-insert, matched-insert_bare, matched-listed}
use arapuca.Seccomp.Installed.{stricter-kill, stricter-allow, stricter-errno, verdict-compiled}
use arapuca.Seccomp.Policy.{
  is_internet, sets_protected, has_empty_path, injects_input, signals_group, makes_namespace,
  hit-socket_rules, hit-prctl_rules, hit-execveat_rules, hit-ioctl_rules, hit-kill_rules,
  hit-clone_rules,
}

-- The calls that get EPERM.
unfoldable pub strict_refuses : Call → Bool
strict_refuses c =
    is_among c.nr tier2_eperm_syscalls
    || (c.nr == sys_socket && is_internet c)
    || (c.nr == sys_prctl && sets_protected c)
    || (c.nr == sys_execveat && has_empty_path c)
    || (c.nr == sys_ioctl && injects_input c)
    || (c.nr == sys_kill && signals_group c)
    || c.nr == sys_tkill
    || (c.nr == sys_clone && makes_namespace c)

-- The calls that get ENOSYS.
unfoldable pub asks_fallback : Call → Bool
asks_fallback c =
    c.nr == sys_clone3
    || c.nr == sys_io_uring_setup
    || c.nr == sys_io_uring_enter
    || c.nr == sys_io_uring_register

unfoldable pub strict_policy : Call → Action
strict_policy c =
    if is_among c.nr tier1_kill_syscalls
    then kill_process
    else if strict_refuses c
    then errno eperm
    else if asks_fallback c
    then errno enosys
    else allow

pub matched-strict_eperm_rules : (c : Call) → matched c strict_eperm_rules ≡ strict_refuses c
unfolding strict_eperm_rules strict_refuses get insert insert_all tier2_eperm_syscalls
matched-strict_eperm_rules c =
    let r0 = insert_all tier2_eperm_syscalls [] in
    let r1 = insert sys_socket socket_rules r0 in
    let r2 = insert sys_prctl prctl_rules r1 in
    let r3 = insert sys_execveat execveat_rules r2 in
    let r4 = insert sys_ioctl ioctl_rules r3 in
    let r5 = insert sys_kill kill_rules r4 in
    let r6 = insert sys_tkill [] r5 in
    let m0 = matched-listed c tier2_eperm_syscalls in
    let m1 = matched-insert c sys_socket socket_rules r0 _ _ refl m0 (hit-socket_rules c) in
    let m2 = matched-insert c sys_prctl prctl_rules r1 _ _ refl m1 (hit-prctl_rules c) in
    let m3 = matched-insert c sys_execveat execveat_rules r2 _ _ refl m2 (hit-execveat_rules c) in
    let m4 = matched-insert c sys_ioctl ioctl_rules r3 _ _ refl m3 (hit-ioctl_rules c) in
    let m5 = matched-insert c sys_kill kill_rules r4 _ _ refl m4 (hit-kill_rules c) in
    let m6 = matched-insert_bare c sys_tkill r5 _ m5 in
    matched-insert c sys_clone clone_rules r6 _ _ refl m6 (hit-clone_rules c)

pub matched-enosys_rules : (c : Call) → matched c enosys_rules ≡ asks_fallback c
unfolding enosys_rules asks_fallback insert get matched
matched-enosys_rules c =
    let r1 = insert sys_clone3 [] [] in
    let r2 = insert sys_io_uring_setup [] r1 in
    let r3 = insert sys_io_uring_enter [] r2 in
    let m1 = matched-insert_bare c sys_clone3 [] false refl in
    let m2 = matched-insert_bare c sys_io_uring_setup r1 _ m1 in
    let m3 = matched-insert_bare c sys_io_uring_enter r2 _ m2 in
    matched-insert_bare c sys_io_uring_register r3 _ m3

pub matched-tier1 :
    (c : Call) → matched c (insert_all tier1_kill_syscalls []) ≡ is_among c.nr tier1_kill_syscalls
matched-tier1 c = matched-listed c tier1_kill_syscalls

pub three_layers :
    (kills refuses asks : Bool) (v : Action)
    → stricter (if kills then kill_process else allow) (
        stricter
          (if refuses then errno eperm else allow)
          (stricter (if asks then errno enosys else allow) v))
      ≡ stricter
          (if kills
            then kill_process
            else if refuses
            then errno eperm
            else if asks
            then errno enosys
            else allow)
          v
three_layers true refuses asks v = stricter-kill _ ∙ sym (stricter-kill v)
three_layers false true true v = stricter-allow _ ∙ stricter-errno eperm enosys v
three_layers false true false v = stricter-allow _ ∙ ap (stricter (errno eperm)) (stricter-allow v)
three_layers false false asks v = stricter-allow _ ∙ stricter-allow _

module _ (S : Seccompiler) where
  open S use {Program, compile, verdict}

  -- The three filters of the strict profile.
  build_filter-installs :
      (ps qs : List Program) (prog : Program)
      → build_filter S ps ≡ (ok prog, qs)
      → (enosys_prog eperm_prog : Program) × (compile strict_kill_filter ≡ ok prog)
        × (compile strict_eperm_filter ≡ ok eperm_prog)
        × (compile enosys_filter ≡ ok enosys_prog)
        × (qs ≡ eperm_prog ∷ enosys_prog ∷ ps)
  unfolding build_filter
  build_filter-installs ps qs prog h =
      let (k, p1, k1, h1) = bound-ok (compiling S strict_kill_filter) _ ps qs prog h in
      let (e, p2, e1, h2) = bound-ok (compiling S enosys_filter) _ p1 qs prog h1 in
      let (r, p3, r1, h3) = bound-ok (compiling S strict_eperm_filter) _ p2 qs prog h2 in
      let (t, p4, t1, h4) = bound-ok (installing S e) _ p3 qs prog h3 in
      let (u, p5, u1, h5) = bound-ok (installing S r) _ p4 qs prog h4 in
      let (ck, q1) = compiling-ok S strict_kill_filter k ps p1 k1 in
      let (ce, q2) = compiling-ok S enosys_filter e p1 p2 e1 in
      let (cr, q3) = compiling-ok S strict_eperm_filter r p2 p3 r1 in
      let q4 = installing-ok S e p3 p4 t t1 in
      let q5 = installing-ok S r p4 p5 u u1 in
      let (done, left) = pure-ok k prog p5 qs h5 in
      (
        e,
        r,
        subst (λ x. compile strict_kill_filter ≡ ok x) done ck,
        cr,
        ce,
        sym left ∙ q5 ∙ ap (λ t. r ∷ t) (q4 ∙ ap (λ t. e ∷ t) (sym (q1 ∙ q2 ∙ q3))),
      )

  pub verdict_strict :
      (ps qs : List Program) (c : Call)
      → apply S strict ps ≡ (ok tt, qs)
      → verdict qs c ≡ stricter (strict_policy c) (verdict ps c)
  unfolding apply strict_policy strict_kill_filter strict_eperm_filter enosys_filter
  verdict_strict ps qs c h =
      let (k, p1, k1, h1) = bound-ok (build_filter S) (installing S) ps qs tt h in
      let q = installing-ok S k p1 qs tt h1 in
      let (e, r, ck, cr, ce, below) = build_filter-installs ps p1 k k1 in
      let asks =
        verdict-compiled S enosys_rules (errno enosys) e ps c _ ce (matched-enosys_rules c) in
      let refuses =
        verdict-compiled S strict_eperm_rules (errno eperm) r (e ∷ ps) c _ cr
          (matched-strict_eperm_rules c) in
      let kills =
        verdict-compiled S (insert_all tier1_kill_syscalls []) kill_process k (r ∷ e ∷ ps) c _ ck
          (matched-tier1 c) in
      ap (λ t. verdict t c) (q ∙ ap (λ t. k ∷ t) below)
      ∙ kills
      ∙ ap (stricter _) (refuses ∙ ap (stricter _) asks)
      ∙ three_layers (is_among c.nr tier1_kill_syscalls) (strict_refuses c) (asks_fallback c)
          (verdict ps c)
