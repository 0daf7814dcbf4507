-- ===== src/FilePath.antt =====
-- Paths as src/validate.rs uses them: the components of `std::path`, and `normalize_path`.
-- A path is the list of its bytes; "/" separates. The stack of `normalize_path` has its top, the
-- end of the source's vector, at the head.
pub mod Names
pub mod Render
pub mod Normal
pub mod Steps
use mathlib.Core.List.{reverse, tail, foldl}
use arapuca.Prelude.{
  ◌≡◌, refl, Bool, true, false, ◌&&◌, ◌||◌, List, [], ◌∷◌, ◌++◌, ◌==◌, if◌then◌else◌, Bytes, codes,
  beq, split,
}

pub data Component : Type 0 where
  root_dir cur_dir parent_dir : Component
  normal : Bytes → Component

abbrev pub slash : Bytes
slash = codes "/"

-- What one part between slashes contributes: "" and "." inside a path are dropped.
unfoldable pub part_components : Bytes → List Component
part_components part =
    if beq part [] || beq part (codes ".")
    then []
    else if beq part (codes "..")
    then parent_dir ∷ []
    else normal part ∷ []

unfoldable pub body : List Bytes → List Component
body [] = []
body (part ∷ parts) = part_components part ++ body parts

-- A "." that opens a relative path is kept.
unfoldable pub relative : List Bytes → List Component
relative [] = []
relative (part ∷ parts) = if beq part (codes ".") then cur_dir ∷ body parts else body (part ∷ parts)

-- `Path::components`.
unfoldable pub components : Bytes → List Component
unfolding body relative part_components
components [] = []
components (c ∷ p) =
    if c == b'/' then root_dir ∷ body (split b'/' p) else relative (split b'/' (c ∷ p))

-- One round of the loop of `normalize_path`.
unfoldable pub resolve : List Component → Component → List Component
resolve (root_dir ∷ parts) parent_dir = root_dir ∷ parts
resolve parts parent_dir = tail parts
resolve parts cur_dir = parts
resolve parts root_dir = root_dir ∷ parts
resolve parts (normal name) = normal name ∷ parts

unfoldable pub resolve_all : List Component → List Component → List Component
resolve_all parts [] = reverse parts
resolve_all parts (c ∷ cs) = resolve_all (resolve parts c) cs

unfoldable pub normalize : Bytes → List Component
normalize p = resolve_all [] (components p)

-- `PathBuf::push`: an absolute component replaces what is there.
abbrev pub ends_in_slash : Bytes → Bool
ends_in_slash [] = true
ends_in_slash (c ∷ []) = c == b'/'
ends_in_slash (c ∷ d ∷ s) = ends_in_slash (d ∷ s)

unfoldable pub push_name : Bytes → Bytes → Bytes
push_name buf name = if ends_in_slash buf then buf ++ name else buf ++ b'/' ∷ name

unfoldable pub push : Bytes → Component → Bytes
push buf root_dir = slash
push buf cur_dir = push_name buf (codes ".")
push buf parent_dir = push_name buf (codes "..")
push buf (normal name) = push_name buf name

-- `collect::<PathBuf>()`.
unfoldable pub render : List Component → Bytes
unfolding push push_name
render cs = foldl push [] cs

unfoldable pub normalize_path : Bytes → Bytes
unfolding render normalize resolve_all resolve components
normalize_path p = render (normalize p)

dots_resolve : normalize_path (codes "/a//./b/../c/") ≡ codes "/a/c"
unfolding normalize_path
dots_resolve = refl
