-- ===== src/Prelude/Splits.antt =====
-- Laws of `split` and `join`, and of the parts before a separator.
use Prim.Native.Nat.{ℕ}
use mathlib.Core.Path.{◌≡◌, refl, ap, ◌∙◌}
use mathlib.Core.Logic.{◌≢◌}
use mathlib.Core.List.{List, [], ◌∷◌, ◌++◌}
use native.Mathlib.Omega.{arith}
use arapuca.Prelude.Lists.{All}
use arapuca.Prelude.Texts.{Bytes, split, grow, join, Lacks}

module _ (sep : ℕ) where
  grow-ne-nil : (c : ℕ) (ps : List Bytes) → grow c ps ≢ []
  grow-ne-nil c [] = cc
  grow-ne-nil c (p ∷ ps) = cc

  pub split-ne-nil : (s : Bytes) → split sep s ≢ []
  split-ne-nil [] = cc
  split-ne-nil (c ∷ s) = ground (arith, grow-ne-nil c (split sep s))

  grow-Lacks :
      (c : ℕ) (ps : List Bytes) → c ≢ sep → All (Lacks sep) ps → All (Lacks sep) (grow c ps)
  grow-Lacks c [] h _ = ((h, tt), tt)
  grow-Lacks c (p ∷ ps) h (hp, hps) = ((h, hp), hps)

  pub split-Lacks : (s : Bytes) → All (Lacks sep) (split sep s)
  split-Lacks [] = (tt, tt)
  split-Lacks (c ∷ s) = ground (arith, split-Lacks s, grow-Lacks c (split sep s))

  -- The text before the first separator is a part of its own.
  pub split_at_sep : (p s : Bytes) → Lacks sep p → split sep (p ++ sep ∷ s) ≡ p ∷ split sep s
  split_at_sep [] s h = ground arith
  split_at_sep (c ∷ p) s (hc, hp) = ground (arith, split_at_sep p s hp)

  pub split_whole : (p : Bytes) → Lacks sep p → split sep p ≡ p ∷ []
  split_whole [] h = refl
  split_whole (c ∷ p) (hc, hp) = ground (arith, split_whole p hp)

  -- Splitting a join gives the parts back, if there is a part and none holds the separator.
  pub split-join :
      (p : Bytes) (ps : List Bytes)
      → All (Lacks sep) (p ∷ ps)
      → split sep (join sep (p ∷ ps)) ≡ p ∷ ps
  split-join p [] (hp, _) = split_whole p hp
  split-join p (q ∷ ps) (hp, hps) =
      split_at_sep p (join sep (q ∷ ps)) hp ∙ ap (◌∷◌ p) (split-join q ps hps)

  pub cut_unique :
      (p q r s : Bytes) → Lacks sep p → Lacks sep q → p ++ sep ∷ r ≡ q ++ sep ∷ s → p ≡ q
  cut_unique [] [] r s hp hq e = refl
  cut_unique [] (d ∷ q) r s hp (hd, hq) e = absurd (hd (cc))
  cut_unique (c ∷ p) [] r s (hc, hp) hq e = absurd (hc (cc))
  cut_unique (c ∷ p) (d ∷ q) r s (hc, hp) (hd, hq) e = cc (cut_unique p q r s hp hq (cc))
