-- ===== src/Prelude/Trim.antt =====
-- White space and what `str::trim` and `str::split_whitespace` do with it.
use Prim.Native.Nat.{ℕ}
use mathlib.Core.Path.{◌≡◌, refl, ap, ◌∙◌}
use mathlib.Core.Bool.{Bool, false, not, false, ◌&&◌, ◌||◌}
use mathlib.Core.List.{List, [], ◌∷◌, reverse, reverse-cons, reverse-reverse}
use arapuca.Prelude.Tests.{leb, ◌==◌, if◌then◌else◌}
use arapuca.Prelude.Lists.{All, All-append, keep}
use arapuca.Prelude.Texts.{Str, beq, grow}

-- `char::is_whitespace`: the Unicode property White_Space.
unfoldable pub is_whitespace : ℕ → Bool
is_whitespace c =
    c == 0x20
    || (leb 9 c && leb c 13)
    || c == 0x85
    || c == 0xa0
    || c == 0x1680
    || (leb 0x2000 c && leb c 0x200a)
    || c == 0x2028
    || c == 0x2029
    || c == 0x202f
    || c == 0x205f
    || c == 0x3000

unfoldable pub trim_start : Str → Str
trim_start [] = []
trim_start (c ∷ s) = if is_whitespace c then trim_start s else c ∷ s

-- `str::trim`.
unfoldable pub trim : Str → Str
trim s = reverse (trim_start (reverse (trim_start s)))

-- Text without white space.
unfoldable pub IsSolid : ℕ → Type 0
IsSolid c = is_whitespace c ≡ false

trim_start-IsSolid : (s : Str) → All IsSolid s → trim_start s ≡ s
unfolding trim_start IsSolid
trim_start-IsSolid [] h = refl
trim_start-IsSolid (c ∷ s) (hc, h) = rw hc refl

reverse-IsSolid : (s : Str) → All IsSolid s → All IsSolid (reverse s)
reverse-IsSolid [] h = tt
reverse-IsSolid (c ∷ s) (hc, h) =
    rw (reverse-cons c s) (All-append IsSolid (reverse s) (c ∷ []) (reverse-IsSolid s h) (hc, tt))

pub trim-IsSolid : (s : Str) → All IsSolid s → trim s ≡ s
unfolding trim
trim-IsSolid s h =
    ap (λ t. reverse (trim_start (reverse t))) (trim_start-IsSolid s h)
    ∙ ap reverse (trim_start-IsSolid (reverse s) (reverse-IsSolid s h))
    ∙ reverse-reverse s

-- `str::split_whitespace`: the parts between white space that are not empty.
unfoldable pub split_spaces : Str → List Str
split_spaces [] = [] ∷ []
split_spaces (c ∷ s) = if is_whitespace c then [] ∷ split_spaces s else grow c (split_spaces s)

unfoldable pub split_whitespace : Str → List Str
split_whitespace s = keep (λ p. not (beq p [])) (split_spaces s)
