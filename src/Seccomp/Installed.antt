-- ===== src/Seccomp/Installed.antt =====
-- Compiled filters of src/seccomp.rs on top of one another.
use arapuca.Prelude.{ℕ, ◌≡◌, refl, ap, ◌∙◌, List, ◌∷◌, Bool, ok, if◌then◌else◌}
use arapuca.Seccomp.Kernel.{
  Action, allow, trap, kill_process, errno, Call, Rules, Filter, filter, matched, filter_action,
  stricter, precedence, Seccompiler,
}

pub stricter-kill : (v : Action) → stricter kill_process v ≡ kill_process
unfolding stricter precedence
stricter-kill allow = refl
stricter-kill (errno e) = refl
stricter-kill trap = refl
stricter-kill kill_process = refl

pub stricter-allow : (v : Action) → stricter allow v ≡ v
unfolding stricter precedence
stricter-allow allow = refl
stricter-allow (errno e) = refl
stricter-allow trap = refl
stricter-allow kill_process = refl

pub stricter-errno :
    (x y : ℕ) (v : Action) → stricter (errno x) (stricter (errno y) v) ≡ stricter (errno x) v
unfolding stricter precedence
stricter-errno x y allow = refl
stricter-errno x y (errno e) = refl
stricter-errno x y trap = refl
stricter-errno x y kill_process = refl

module _ (S : Seccompiler) where
  open S use {Program, compile, apply_filter, answer, verdict, compile_answer, installs, verdict-∷}

  -- A compiled filter on top of others.
  pub verdict-filter :
      (f : Filter) (p : Program) (ps : List Program) (c : Call) (b : Bool)
      → compile f ≡ ok p
      → matched c f.rules ≡ b
      → verdict (p ∷ ps) c
        ≡ stricter (if b then f.match_action else f.mismatch_action) (verdict ps c)
  unfolding filter_action
  verdict-filter f p ps c b e h =
      verdict-∷ p ps c
      ∙ ap (λ t. stricter t (verdict ps c))
          (compile_answer f p e c ∙ ap (λ t. if t then f.match_action else f.mismatch_action) h)

  -- A filter that allows what it does not match, on top of others.
  pub verdict-compiled :
      (m : Rules) (a : Action) (p : Program) (ps : List Program) (c : Call) (b : Bool)
      → compile (filter m allow a) ≡ ok p
      → matched c m ≡ b
      → verdict (p ∷ ps) c ≡ stricter (if b then a else allow) (verdict ps c)
  verdict-compiled m a p ps c b e h = verdict-filter (filter m allow a) p ps c b e h
