-- ===== src/Seccomp/Memory.antt =====
-- A seccompiler and a kernel in memory, to run the filters of the models with.
use arapuca.Prelude.{◌≡◌, refl, List, [], ◌∷◌, Result, ok, Str}
use arapuca.Seccomp.Kernel.{Action, allow, Call, Filter, filter_action, stricter, Seccompiler}

-- Programs are the filters themselves, and every step succeeds.
abbrev pub stacked : List Filter → Call → Action
stacked [] c = allow
stacked (f ∷ fs) c = stricter (filter_action f c) (stacked fs c)

pub same_filter :
    (f p : Filter) (c : Call) (r s : Result Str Filter)
    → r ≡ s
    → r ≡ ok f
    → s ≡ ok p
    → filter_action p c ≡ filter_action f c
same_filter f p c r s e x y = cc (e, x, y)

pub same_stack :
    (ps qs : List Filter) (r s : Result Str (List Filter)) → r ≡ s → r ≡ ok ps → s ≡ ok qs → qs ≡ ps
same_stack ps qs r s e x y = cc (e, x, y)

abbrev pub memory_kernel : Seccompiler
memory_kernel = record {
  Program = Filter;
  compile = λ f. ok f;
  apply_filter = λ f fs. ok (f ∷ fs);
  answer = filter_action;
  verdict = stacked;
  compile_answer = λ f p e c. same_filter f p c _ _ e refl refl;
  installs = λ p ps ps' e. same_stack (p ∷ ps) ps' _ _ e refl refl;
  verdict-[] = λ c. refl;
  verdict-∷ = λ p ps c. refl;
}
