-- ===== src/Validate/Cgroup.antt =====
-- `reject_cgroup_paths` of src/validate.rs, and the paths of the cgroup tree.
use mathlib.Core.Path.{subst}
use mathlib.Core.Bool.{false≢true}
use arapuca.Prelude.{
  ◌≡◌, refl, sym, ap, ◌∙◌, ◌⊎◌, ◌||◌, inl, inr, Bool, true, false, List, [], ◌∷◌, ◌++◌, Option,
  some, arith, ok, Bytes, codes, beq_refl, beq_sound, All, starts_with, starts_with-append,
}
use arapuca.FilePath.{
  Component, root_dir, cur_dir, parent_dir, normal, components, normalize, render, normalize_path,
}
use arapuca.FilePath.Names.{IsName, IsPlain}
use arapuca.FilePath.Render.{spell, render_absolute, IsNormal, components-render}
use arapuca.FilePath.Normal.{normalize-IsNormal, components-normalize_path}
use arapuca.Validate.{
  component_eq, components_start, path_starts_with, cgroup_prefix, touches_cgroup,
  reject_cgroup_paths,
}

abbrev pub cgroup_dir : List Component
cgroup_dir = root_dir ∷ normal (codes "sys") ∷ normal (codes "fs") ∷ normal (codes "cgroup") ∷ []

-- The directory of all cgroups itself, something below it, or a directory above it.
abbrev pub TouchesCgroup : List Component → Type 0
TouchesCgroup cs =
    ((rest : List Component) × (cs ≡ cgroup_dir ++ rest))
    ⊎ ((rest : List Component) × (cgroup_dir ≡ cs ++ rest))

component_eq_refl : (c : Component) → component_eq c c ≡ true
component_eq_refl root_dir = refl
component_eq_refl cur_dir = refl
component_eq_refl parent_dir = refl
component_eq_refl (normal n) = beq_refl n

pub component_eq_sound : (c d : Component) → component_eq c d ≡ true → c ≡ d
component_eq_sound root_dir root_dir h = refl
component_eq_sound cur_dir cur_dir h = refl
component_eq_sound parent_dir parent_dir h = refl
component_eq_sound (normal m) (normal n) h = ap normal (beq_sound m n h)
component_eq_sound root_dir (normal n) h = cc
component_eq_sound root_dir cur_dir h = cc
component_eq_sound root_dir parent_dir h = cc
component_eq_sound cur_dir root_dir h = cc
component_eq_sound cur_dir parent_dir h = cc
component_eq_sound cur_dir (normal n) h = cc
component_eq_sound parent_dir root_dir h = cc
component_eq_sound parent_dir cur_dir h = cc
component_eq_sound parent_dir (normal n) h = cc
component_eq_sound (normal m) root_dir h = cc
component_eq_sound (normal m) cur_dir h = cc
component_eq_sound (normal m) parent_dir h = cc

components_start-append : (ds rest : List Component) → components_start ds (ds ++ rest) ≡ true
components_start-append [] rest = refl
components_start-append (d ∷ ds) rest = rw (component_eq_refl d) (components_start-append ds rest)

components_start_sound :
    (ds cs : List Component)
    → components_start ds cs ≡ true
    → (rest : List Component) × (cs ≡ ds ++ rest)
components_start_sound [] cs h = (cs, refl)
components_start_sound (d ∷ ds) [] h = cc
components_start_sound (d ∷ ds) (c ∷ cs) h =
    let (rest, e) = components_start_sound ds cs (ground arith) in
    (rest, cc (component_eq_sound d c (ground arith)))

pub path_starts_with_sound :
    (p base : Bytes)
    → path_starts_with p base ≡ true
    → (rest : List Component) × (components p ≡ components base ++ rest)
unfolding path_starts_with
path_starts_with_sound p base h = components_start_sound (components base) (components p) h

pub path_starts_with_complete :
    (p base : Bytes) (rest : List Component)
    → components p ≡ components base ++ rest
    → path_starts_with p base ≡ true
unfolding path_starts_with
path_starts_with_complete p base rest e = rw e (components_start-append (components base) rest)

components-cgroup_prefix : components cgroup_prefix ≡ cgroup_dir
unfolding components
components-cgroup_prefix = refl

sys-IsName : IsName (codes "sys")
sys-IsName = (cc, cc, cc, ground arith)

fs-IsName : IsName (codes "fs")
fs-IsName = (cc, cc, cc, ground arith)

cgroup-IsName : IsName (codes "cgroup")
cgroup-IsName = (cc, cc, cc, ground arith)

abbrev below_sys : List Component → List Component
below_sys rest = normal (codes "fs") ∷ normal (codes "cgroup") ∷ rest

spelled_below :
    (rest : List Component)
    → All IsPlain rest
    → starts_with cgroup_prefix (render (root_dir ∷ normal (codes "sys") ∷ below_sys rest)) ≡ true
spelled_below rest h =
    ap (starts_with cgroup_prefix)
      (render_absolute (codes "sys") (below_sys rest) sys-IsName (fs-IsName, (cgroup-IsName, h)))
    ∙ starts_with-append cgroup_prefix (spell rest)

touches_below : (t : Bytes) → starts_with cgroup_prefix t ≡ true → touches_cgroup t ≡ true
touches_below t h = rw h refl

touches_above : (t : Bytes) → path_starts_with cgroup_prefix t ≡ true → touches_cgroup t ≡ true
touches_above t h = rw h (or_true (starts_with cgroup_prefix t))
  where
    or_true : (b : Bool) → (b || true) ≡ true
    or_true true = refl
    or_true false = refl

-- A path in normal form that touches the cgroup tree is seen by the test.
touches_cgroup_complete :
    (cs : List Component) → IsNormal cs → TouchesCgroup cs → touches_cgroup (render cs) ≡ true
touches_cgroup_complete cs h (inl (rest, e)) =
    let plain = (subst IsNormal e h).1.1.1 in
    touches_below (render cs) (rw e (spelled_below rest plain))
touches_cgroup_complete cs h (inr (rest, e)) = touches_above (render cs) (
    unfold path_starts_with in
    rw (components-render cs h, components-cgroup_prefix, e) (components_start-append cs rest))

-- A resolved path is in normal form: this is what `canonicalize` returns.
abbrev pub IsCanonical : (Bytes → Option Bytes) → Type 0
IsCanonical canonicalize =
    (p resolved : Bytes) → canonicalize p ≡ some resolved → normalize_path resolved ≡ resolved

-- Neither the normalized path nor the resolved path is the cgroup directory, below it or above it.
abbrev pub IsClear : (Bytes → Option Bytes) → Bytes → Type 0
IsClear canonicalize p =
    ¬ TouchesCgroup (normalize p)
    × ((resolved : Bytes) → canonicalize p ≡ some resolved → ¬ TouchesCgroup (components resolved))

normalized_clear :
    (p : Bytes) → touches_cgroup (normalize_path p) ≡ false → ¬ TouchesCgroup (normalize p)
normalized_clear p h t =
    let seen = touches_cgroup_complete (normalize p) (normalize-IsNormal p) t in
    false≢true (sym h ∙ (unfold normalize_path in seen))

resolved_clear :
    (r : Bytes) → normalize_path r ≡ r → touches_cgroup r ≡ false → ¬ TouchesCgroup (components r)
resolved_clear r e h t =
    normalized_clear r (rw e h)
      (subst TouchesCgroup (ap components (sym e) ∙ components-normalize_path r) t)

-- If `reject_cgroup_paths` accepts a list, no path of it, normalized or resolved, is the cgroup
-- directory, lies below it or above it. Resolved paths are assumed to be in normal form.
pub reject_cgroup_paths_sound :
    (canonicalize : Bytes → Option Bytes) (paths : List Bytes)
    → IsCanonical canonicalize
    → reject_cgroup_paths canonicalize paths ≡ ok tt
    → All (IsClear canonicalize) paths
unfolding reject_cgroup_paths
reject_cgroup_paths_sound canonicalize [] k h = tt
reject_cgroup_paths_sound canonicalize (p ∷ paths) k h = (
  (normalized_clear p (ground arith), λ r e. resolved_clear r (k p r e) (ground arith)),
  reject_cgroup_paths_sound canonicalize paths k (ground arith),
)
