-- ===== src/Prelude/Cut.antt =====
-- Cutting a text in two at a separator, as `str::split_once` and `str::rsplit_once` do.
use Prim.Native.Nat.{ℕ, ◌^◌, ◌-◌}
use mathlib.Core.Path.{◌≡◌, refl}
use mathlib.Core.Bool.{false}
use mathlib.Core.Option.{Option, none, some}
use mathlib.Core.List.{[], ◌∷◌, ◌++◌}
use native.Mathlib.Omega.{arith}
use arapuca.Prelude.Tests.{◌==◌, if◌then◌else◌}
use arapuca.Prelude.Texts.{Str, Lacks}

abbrev pub max_u16 : ℕ
max_u16 = 2 ^ 16 - 1

-- `str::split_once`.
unfoldable pub split_once : ℕ → Str → Option (Str × Str)
split_once sep [] = none
split_once sep (c ∷ s) =
    let rest = split_once sep s in
    if c == sep
    then some ([], s)
    else elim rest [ none ↦ none | some (before, after) ↦ some (c ∷ before, after) ]

-- `str::rsplit_once`: the last separator counts.
unfoldable pub rsplit_once : ℕ → Str → Option (Str × Str)
rsplit_once sep [] = none
rsplit_once sep (c ∷ s) = elim (rsplit_once sep s) [
  | some (before, after) ↦ some (c ∷ before, after)
  | none ↦ if c == sep then some ([], s) else none
]

pub split_once-Lacks :
    (sep : ℕ) (before after : Str)
    → Lacks sep before
    → split_once sep (before ++ sep ∷ after) ≡ some (before, after)
unfolding split_once
split_once-Lacks sep [] after h = ground arith
split_once-Lacks sep (c ∷ before) after (hc, h) =
    let other : (c == sep) ≡ false = ground arith in
    rw (other, split_once-Lacks sep before after h) refl

rsplit_once-none : (sep : ℕ) (s : Str) → Lacks sep s → rsplit_once sep s ≡ none
unfolding rsplit_once
rsplit_once-none sep [] h = refl
rsplit_once-none sep (c ∷ s) (hc, h) =
    let other : (c == sep) ≡ false = ground arith in rw (rsplit_once-none sep s h) (rw other refl)

pub rsplit_once-Lacks :
    (sep : ℕ) (before after : Str)
    → Lacks sep after
    → rsplit_once sep (before ++ sep ∷ after) ≡ some (before, after)
unfolding rsplit_once
rsplit_once-Lacks sep [] after h = rw (rsplit_once-none sep after h) (ground arith)
rsplit_once-Lacks sep (c ∷ before) after h = rw (rsplit_once-Lacks sep before after h) refl
