-- ===== src/FilePath/Names.antt =====
-- What the components of a path are made of.
use arapuca.Prelude.{
  ◌≡◌, ◌≢◌, List, [], ◌∷◌, arith, Bytes, codes, beq_sound, beq_ne, All, All-append, Lacks, split,
  split-Lacks,
}
use arapuca.FilePath.{
  Component, root_dir, cur_dir, parent_dir, normal, part_components, body, relative, components,
}

-- A name that stands for itself in a path.
abbrev pub IsName : Bytes → Type 0
IsName n = (n ≢ []) × (n ≢ codes ".") × (n ≢ codes "..") × Lacks b'/' n

-- A component that may follow the first one.
abbrev pub IsSegment : Component → Type 0
IsSegment root_dir = ⊥
IsSegment cur_dir = Unit
IsSegment parent_dir = Unit
IsSegment (normal n) = IsName n

abbrev pub IsPlain : Component → Type 0
IsPlain root_dir = ⊥
IsPlain cur_dir = ⊥
IsPlain parent_dir = ⊥
IsPlain (normal n) = IsName n

part_components-IsSegment : (part : Bytes) → Lacks b'/' part → All IsSegment (part_components part)
unfolding part_components
part_components-IsSegment part h = ground (
  arith,
  beq_ne part [],
  beq_ne part (codes "."),
  beq_ne part (codes ".."),
  beq_sound part [],
  beq_sound part (codes "."),
  beq_sound part (codes ".."),
)

pub body-IsSegment : (parts : List Bytes) → All (Lacks b'/') parts → All IsSegment (body parts)
unfolding body
body-IsSegment [] h = tt
body-IsSegment (part ∷ parts) (hp, h) =
    All-append IsSegment (part_components part) (body parts) (part_components-IsSegment part hp)
      (body-IsSegment parts h)

pub relative-IsSegment :
    (parts : List Bytes) → All (Lacks b'/') parts → All IsSegment (relative parts)
unfolding relative
relative-IsSegment [] h = tt
relative-IsSegment (part ∷ parts) h =
    ground (arith, body-IsSegment parts h.1, body-IsSegment (part ∷ parts) h)

-- A path's components: an optional root, and segments behind it.
abbrev pub IsComponents : List Component → Type 0
IsComponents [] = Unit
IsComponents (root_dir ∷ cs) = All IsSegment cs
IsComponents (c ∷ cs) = IsSegment c × All IsSegment cs

segments-IsComponents : (cs : List Component) → All IsSegment cs → IsComponents cs
segments-IsComponents [] h = tt
segments-IsComponents (root_dir ∷ cs) h = h.1
segments-IsComponents (cur_dir ∷ cs) h = h
segments-IsComponents (parent_dir ∷ cs) h = h
segments-IsComponents (normal n ∷ cs) h = h

pub components-IsComponents : (p : Bytes) → IsComponents (components p)
unfolding components
components-IsComponents [] = tt
components-IsComponents (c ∷ p) = ground (
  arith,
  body-IsSegment (split b'/' p) (split-Lacks b'/' p),
  segments-IsComponents _ (relative-IsSegment (split b'/' (c ∷ p)) (split-Lacks b'/' (c ∷ p))),
)

-- A name is read back as itself.
pub part_components_name : (n : Bytes) → IsName n → part_components n ≡ normal n ∷ []
unfolding part_components
part_components_name n (e, d, dd, _) =
    ground (arith, beq_ne n [] e, beq_ne n (codes ".") d, beq_ne n (codes "..") dd)
