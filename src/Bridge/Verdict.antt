-- ===== src/Bridge/Verdict.antt =====
-- What the helper processes of src/bridge.rs may do once their filters are installed.
use mathlib.Core.Path.{subst}
use arapuca.Prelude.{
  ℕ, ◌≡◌, refl, sym, ap, ◌∙◌, List, [], ◌∷◌, Bool, true, false, ◌==◌, ok, if◌then◌else◌,
}
use arapuca.Seccomp.Kernel.{
  Action, allow, trap, kill_process, errno, Call, Rules, Filter, filter, matched, insert, get,
  stricter, precedence, Seccompiler,
}
use arapuca.Seccomp.Setup.{
  Setup, ◌>>=◌, ◌>>◌, pure, compiling, installing, bound-ok, compiling-ok, installing-ok, pure-ok,
}
use arapuca.Seccomp.Numbers.{sys_clone3, enosys}
use arapuca.Seccomp.Chains.{matched-insert_bare}
use arapuca.Seccomp.Installed.{stricter-allow, verdict-filter, verdict-compiled}
use arapuca.Bridge.Filters.{
  bridge_rules, proxy_rules, mismatch, clone3_filter, bridge_filter, proxy_filter,
  build_bridge_filters, apply_bridge_seccomp, build_connect_proxy_filters,
  apply_connect_proxy_seccomp,
}
use arapuca.Bridge.Allowlists.{
  bridge_permits, proxy_permits, matched-bridge_rules, matched-proxy_rules,
}

-- What a helper's filters answer, for the calls that its allowlist permits and for the others.
unfoldable pub helper_policy : (permits debug : Bool) → ℕ → Action
helper_policy permits debug nr =
    if permits
    then if nr == sys_clone3 then errno enosys else allow
    else if debug
    then trap
    else kill_process

outside_wins :
    (debug asks : Bool) (v : Action)
    → stricter (mismatch debug) (stricter (if asks then errno enosys else allow) v)
      ≡ stricter (mismatch debug) v
unfolding mismatch stricter precedence
outside_wins true true allow = refl
outside_wins true true (errno e) = refl
outside_wins true true trap = refl
outside_wins true true kill_process = refl
outside_wins false true allow = refl
outside_wins false true (errno e) = refl
outside_wins false true trap = refl
outside_wins false true kill_process = refl
outside_wins debug false v = ap (stricter (mismatch debug)) (stricter-allow v)

two_layers :
    (permits debug : Bool) (nr : ℕ) (v : Action)
    → stricter
        (if permits then allow else mismatch debug)
        (stricter (if nr == sys_clone3 then errno enosys else allow) v)
      ≡ stricter (helper_policy permits debug nr) v
unfolding helper_policy
two_layers true debug nr v = stricter-allow _
two_layers false debug nr v = unfold mismatch in outside_wins debug (nr == sys_clone3) v

matched-clone3 : (c : Call) → matched c (insert sys_clone3 [] []) ≡ (c.nr == sys_clone3)
unfolding matched get
matched-clone3 c = matched-insert_bare c sys_clone3 [] false refl

module _ (S : Seccompiler) where
  open S use {Program, compile, verdict}

  -- An allowlist on top of the filter for `clone3`.
  verdict_helper :
      (m : Rules) (debug permits : Bool) (clone3_prog main_prog : Program) (ps : List Program)
      (c : Call)
      → compile clone3_filter ≡ ok clone3_prog
      → compile (filter m (mismatch debug) allow) ≡ ok main_prog
      → matched c m ≡ permits
      → verdict (main_prog ∷ clone3_prog ∷ ps) c
        ≡ stricter (helper_policy permits debug c.nr) (verdict ps c)
  unfolding clone3_filter
  verdict_helper m debug permits clone3_prog main_prog ps c h3 hm e =
      let asks =
        verdict-compiled S (insert sys_clone3 [] []) (errno enosys) clone3_prog ps c _ h3
          (matched-clone3 c) in
      verdict-filter S (filter m (mismatch debug) allow) main_prog (clone3_prog ∷ ps) c permits hm e
      ∙ ap (stricter _) asks
      ∙ two_layers permits debug c.nr (verdict ps c)

  -- What both helpers do with their allowlist `f`.
  abbrev build_both : Filter → Setup Program (Program × Program)
  build_both f = do
    clone3_prog ← compiling S clone3_filter
    main_prog ← compiling S f
    pure (clone3_prog, main_prog)

  abbrev install_both : Program × Program → Setup Program (Unit {0})
  install_both (clone3_prog, main_prog) = do installing S clone3_prog; installing S main_prog

  both-installed :
      (f : Filter) (ps qs : List Program)
      → (build_both f >>= install_both) ps ≡ (ok tt, qs)
      → (clone3_prog main_prog : Program) × (compile clone3_filter ≡ ok clone3_prog)
        × (compile f ≡ ok main_prog)
        × (qs ≡ main_prog ∷ clone3_prog ∷ ps)
  both-installed f ps qs h =
      let (pair, p1, k1, h1) = bound-ok (build_both f) install_both ps qs tt h in
      let (t, p2, t1, h2) = bound-ok (installing S pair.0) _ p1 qs tt h1 in
      let (a, p3, a1, h3) = bound-ok (compiling S clone3_filter) _ ps p1 pair k1 in
      let (b, p4, b1, h4) = bound-ok (compiling S f) _ p3 p1 pair h3 in
      let (same, left) = pure-ok (a, b) pair p4 p1 h4 in
      let (ca, q1) = compiling-ok S clone3_filter a ps p3 a1 in
      let (cb, q2) = compiling-ok S f b p3 p4 b1 in
      let q3 = installing-ok S pair.0 p1 p2 t t1 in
      let q4 = installing-ok S pair.1 p2 qs tt h2 in
      (
        pair.0,
        pair.1,
        subst (λ x. compile clone3_filter ≡ ok x.0) same ca,
        subst (λ x. compile f ≡ ok x.1) same cb,
        q4 ∙ ap (λ t. pair.1 ∷ t) (q3 ∙ ap (λ t. pair.0 ∷ t) (sym (q1 ∙ q2 ∙ left))),
      )

  -- Once the bridge's filters are installed, a system call of the bridge's allowlist gets what it
  -- got before, `clone3` ENOSYS if that is stricter, and every other call kills the process, or
  -- traps it when debugging, if that is stricter. The list has sockets of the local family only,
  -- `clone` for threads without namespaces only, and `mprotect` without execution only.
  pub verdict_bridge :
      (debug : Bool) (ps qs : List Program) (c : Call)
      → apply_bridge_seccomp S debug ps ≡ (ok tt, qs)
      → verdict qs c ≡ stricter (helper_policy (bridge_permits c) debug c.nr) (verdict ps c)
  unfolding apply_bridge_seccomp build_bridge_filters bridge_filter
  verdict_bridge debug ps qs c h =
      let (a, b, ca, cb, e) = both-installed (bridge_filter debug) ps qs h in
      ap (λ t. verdict t c) e
      ∙ verdict_helper bridge_rules debug (bridge_permits c) a b ps c ca cb (matched-bridge_rules c)

  -- Once the CONNECT proxy's filters are installed, a system call of the proxy's allowlist gets
  -- what it got before, `clone3` ENOSYS if that is stricter, and every other call kills the process,
  -- or traps it when debugging, if that is stricter. The list has local and internet sockets only,
  -- `clone` for threads without namespaces only, and `mprotect` without execution only.
  pub verdict_proxy :
      (debug : Bool) (ps qs : List Program) (c : Call)
      → apply_connect_proxy_seccomp S debug ps ≡ (ok tt, qs)
      → verdict qs c ≡ stricter (helper_policy (proxy_permits c) debug c.nr) (verdict ps c)
  unfolding apply_connect_proxy_seccomp build_connect_proxy_filters proxy_filter
  verdict_proxy debug ps qs c h =
      let (a, b, ca, cb, e) = both-installed (proxy_filter debug) ps qs h in
      ap (λ t. verdict t c) e
      ∙ verdict_helper proxy_rules debug (proxy_permits c) a b ps c ca cb (matched-proxy_rules c)
