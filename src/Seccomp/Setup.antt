-- ===== src/Seccomp/Setup.antt =====
-- Setting up the filters of a process: steps that may fail and that leave the process with the
-- filters installed so far.
use mathlib.Core.Path.{subst}
use arapuca.Prelude.{◌≡◌, refl, ◌∙◌, List, ◌∷◌, Result, ok, err, Str}
use arapuca.Seccomp.Kernel.{Filter, Seccompiler}

abbrev pub Setup : Type 0 → Type 0 → Type 0
Setup P A = List P → Result Str A × List P

abbrev pub next : {P A B : Type 0} → Result Str A × List P → (A → Setup P B) → Result Str B × List P
next (ok a, ps) k = k a ps
next (err e, ps) k = (err e, ps)

infixl 5 ◌>>=◌ ◌>>◌
abbrev pub ◌>>=◌ : {P A B : Type 0} → Setup P A → (A → Setup P B) → Setup P B
(m >>= k) ps = next (m ps) k

abbrev pub ◌>>◌ : {P B : Type 0} → Setup P Unit → Setup P B → Setup P B
m >> k = m >>= (λ t. k)

abbrev pub pure : {P A : Type 0} → A → Setup P A
pure a ps = (ok a, ps)

module _ (S : Seccompiler) where
  open S use {Program, compile, apply_filter}

  -- `SeccompFilter::new` and `try_into`, which leave the process as it is.
  unfoldable pub compiling : Filter → Setup Program Program
  compiling f ps = (compile f, ps)

  -- `apply_filter`
  unfoldable pub installing : Program → Setup Program (Unit {0})
  installing p ps = elim (apply_filter p ps) [ err e ↦ (err e, ps) | ok ps' ↦ (ok tt, ps') ]

pub bound-ok :
    {P A B : Type 0} (m : Setup P A) (k : A → Setup P B) (ps qs : List P) (b : B)
    → (m >>= k) ps ≡ (ok b, qs)
    → (a : A) × (ps' : List P) × (m ps ≡ (ok a, ps')) × (k a ps' ≡ (ok b, qs))
bound-ok m k ps qs b h = by_result (m ps) refl
  where
    by_result :
        (x : Result Str _ × List _)
        → m ps ≡ x
        → (a : _) × (ps' : List _) × (m ps ≡ (ok a, ps')) × (k a ps' ≡ (ok b, qs))
    by_result (ok a, ps') e = (a, ps', e, subst (λ y. next y k ≡ (ok b, qs)) e h)
    by_result (err x, ps') e =
        let failed : next (err x, ps') k ≡ (ok b, qs) = subst (λ y. next y k ≡ (ok b, qs)) e h in
        absurd (cc failed)

pub compiling-ok :
    (S : Seccompiler) (f : Filter) (p : S.Program) (ps qs : List S.Program)
    → compiling S f ps ≡ (ok p, qs)
    → (S.compile f ≡ ok p) × (ps ≡ qs)
unfolding compiling
compiling-ok S f p ps qs h = (cc h, cc h)

pub installing-ok :
    (S : Seccompiler) (p : S.Program) (ps qs : List S.Program) (t : Unit {0})
    → installing S p ps ≡ (ok t, qs)
    → qs ≡ p ∷ ps
unfolding installing
installing-ok S p ps qs t h = by_result (S.apply_filter p ps) refl
  where
    by_result : (x : Result Str (List S.Program)) → S.apply_filter p ps ≡ x → qs ≡ p ∷ ps
    by_result (ok ps') e = (cc (rw (e, installing) at h)) ∙ S.installs p ps ps' e
    by_result (err x) e = absurd (cc (rw (e, installing) at h))

pub pure-ok :
    {P A : Type 0} (a b : A) (ps qs : List P) → pure a ps ≡ (ok b, qs) → (a ≡ b) × (ps ≡ qs)
pure-ok a b ps qs h = (cc h, cc h)
