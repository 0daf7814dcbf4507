-- ===== src/Seccomp/Stages.antt =====
-- How far src/seccomp.rs gets when it applies the strict profile, and what the process then has.
use arapuca.Prelude.{◌≡◌, List, Result, ok, err, Str, if◌then◌else◌}
use arapuca.Seccomp.Kernel.{Action, allow, errno, Call, stricter, Seccompiler}
use arapuca.Seccomp.Setup.{Setup}
use arapuca.Seccomp.Numbers.{eperm, enosys}
use arapuca.Seccomp.Strict.{strict_refuses, asks_fallback, strict_policy}

-- What is installed: nothing, the filter that answers ENOSYS, that and the one that answers EPERM,
-- or all three.
pub data Stage : Type 0 where
  nothing fallbacks refusals everything : Stage

-- What the installed filters answer.
unfoldable pub stage_policy : Stage → Call → Action
stage_policy nothing c = allow
stage_policy fallbacks c = if asks_fallback c then errno enosys else allow
stage_policy refusals c =
    if strict_refuses c then errno eperm else if asks_fallback c then errno enosys else allow
stage_policy everything c = strict_policy c

-- Only a run that succeeds has installed everything.
abbrev pub IsOutcome : Result Str (Unit {0}) → Stage → Type 0
IsOutcome (ok t) everything = Unit
IsOutcome (ok t) nothing = ⊥
IsOutcome (ok t) fallbacks = ⊥
IsOutcome (ok t) refusals = ⊥
IsOutcome (err e) everything = ⊥
IsOutcome (err e) nothing = Unit
IsOutcome (err e) fallbacks = Unit
IsOutcome (err e) refusals = Unit

module _ (S : Seccompiler) where
  open S use {Program, compile, apply_filter, verdict, installs}

  -- A stage that a run from `ps` to `qs` has reached.
  abbrev pub Reached : List Program → Result Str (Unit {0}) → List Program → Type 0
  Reached ps r qs =
      (stage : Stage) × ((c : Call) → verdict qs c ≡ stricter (stage_policy stage c) (verdict ps c))
      × IsOutcome r stage

  -- What holds of a step's result and of the filters that it leaves.
  unfoldable Ends :
      {A : Type 0}
      → Setup Program A
      → List Program
      → (Result Str A → List Program → Type 0)
      → Type 0
  Ends m ps Q = Q (m ps).0 (m ps).1

  abbrev After :
      {A B : Type 0}
      → (A → Setup Program B)
      → (Result Str B → List Program → Type 0)
      → Result Str A
      → List Program
      → Type 0
  After k Q (ok a) qs = Ends (k a) qs Q
  After k Q (err e) qs = Q (err e) qs
