-- ===== src/FilePath/Normal.antt =====
-- What `normalize_path` of src/validate.rs returns.
use mathlib.Core.List.{reverse, reverse-cons}
use arapuca.Prelude.{
  ◌≡◌, refl, sym, ap, ◌∙◌, List, [], ◌∷◌, ◌++◌, Bytes, All, All-append, append_assoc, append-nil,
}
use arapuca.FilePath.{
  Component, root_dir, cur_dir, parent_dir, normal, components, resolve, resolve_all, normalize,
  render, normalize_path,
}
use arapuca.FilePath.Names.{IsSegment, IsPlain, IsComponents, components-IsComponents}
use arapuca.FilePath.Render.{IsNormal, components-render}

-- The stack: names, with the root at the bottom if there is one.
abbrev pub IsStack : List Component → Type 0
IsStack [] = Unit
IsStack (root_dir ∷ []) = Unit
IsStack (c ∷ cs) = IsPlain c × IsStack cs

pub resolve-IsStack :
    (parts : List Component) (c : Component)
    → IsStack parts
    → IsSegment c
    → IsStack (resolve parts c)
unfolding resolve
resolve-IsStack [] root_dir h k = absurd k
resolve-IsStack [] cur_dir h k = tt
resolve-IsStack [] parent_dir h k = tt
resolve-IsStack [] (normal n) h k = (k, tt)
resolve-IsStack (root_dir ∷ parts) root_dir h k = absurd k
resolve-IsStack (root_dir ∷ parts) cur_dir h k = h
resolve-IsStack (root_dir ∷ parts) parent_dir h k = h
resolve-IsStack (root_dir ∷ parts) (normal n) h k = (k, h)
resolve-IsStack (normal m ∷ parts) root_dir h k = absurd k
resolve-IsStack (normal m ∷ parts) cur_dir h k = h
resolve-IsStack (normal m ∷ parts) parent_dir h k = h.1
resolve-IsStack (normal m ∷ parts) (normal n) h k = (k, h)
resolve-IsStack (cur_dir ∷ parts) c h k = absurd h.0
resolve-IsStack (parent_dir ∷ parts) c h k = absurd h.0

IsNormal-append :
    (cs : List Component) (c : Component) → IsNormal cs → IsPlain c → IsNormal (cs ++ c ∷ [])
IsNormal-append [] root_dir h k = absurd k
IsNormal-append [] cur_dir h k = absurd k
IsNormal-append [] parent_dir h k = absurd k
IsNormal-append [] (normal n) h k = (k, tt)
IsNormal-append (root_dir ∷ cs) c h k = All-append IsPlain cs (c ∷ []) h (k, tt)
IsNormal-append (normal n ∷ cs) c h k = (h.0, All-append IsPlain cs (c ∷ []) h.1 (k, tt))
IsNormal-append (cur_dir ∷ cs) c h k = absurd h.0
IsNormal-append (parent_dir ∷ cs) c h k = absurd h.0

reverse-IsNormal : (parts : List Component) → IsStack parts → IsNormal (reverse parts)
reverse-IsNormal [] h = tt
reverse-IsNormal (root_dir ∷ []) h = tt
reverse-IsNormal (root_dir ∷ c ∷ parts) h = absurd h.0
reverse-IsNormal (normal n ∷ parts) h =
    rw (reverse-cons (normal n) parts)
      (IsNormal-append (reverse parts) (normal n) (reverse-IsNormal parts h.1) h.0)
reverse-IsNormal (cur_dir ∷ parts) h = absurd h.0
reverse-IsNormal (parent_dir ∷ parts) h = absurd h.0

resolve_all-IsNormal :
    (parts cs : List Component) → IsStack parts → All IsSegment cs → IsNormal (resolve_all parts cs)
unfolding resolve_all
resolve_all-IsNormal parts [] h _ = reverse-IsNormal parts h
resolve_all-IsNormal parts (c ∷ cs) h (k, ks) =
    resolve_all-IsNormal (resolve parts c) cs (resolve-IsStack parts c h k) ks

components-IsNormal : (cs : List Component) → IsComponents cs → IsNormal (resolve_all [] cs)
components-IsNormal [] h = unfold resolve_all in tt
components-IsNormal (root_dir ∷ cs) h =
    unfold resolve_all resolve in resolve_all-IsNormal (root_dir ∷ []) cs tt h
components-IsNormal (cur_dir ∷ cs) h = resolve_all-IsNormal [] (cur_dir ∷ cs) tt h
components-IsNormal (parent_dir ∷ cs) h = resolve_all-IsNormal [] (parent_dir ∷ cs) tt h
components-IsNormal (normal n ∷ cs) h = resolve_all-IsNormal [] (normal n ∷ cs) tt h

-- The normalized components hold no "." and no "..", and the root only in front.
pub normalize-IsNormal : (p : Bytes) → IsNormal (normalize p)
unfolding normalize
normalize-IsNormal p = components-IsNormal (components p) (components-IsComponents p)

-- Reading the normalized path again gives the components that it was written from.
pub components-normalize_path : (p : Bytes) → components (normalize_path p) ≡ normalize p
unfolding normalize_path
components-normalize_path p = components-render (normalize p) (normalize-IsNormal p)

resolve_all_plain :
    (parts cs : List Component) → All IsPlain cs → resolve_all parts cs ≡ reverse parts ++ cs
unfolding resolve_all resolve
resolve_all_plain parts [] h = sym (append-nil (reverse parts))
resolve_all_plain parts (normal n ∷ cs) (_, h) =
    resolve_all_plain (normal n ∷ parts) cs h
    ∙ (rw (reverse-cons (normal n) parts) (append_assoc (reverse parts) (normal n ∷ []) cs))
resolve_all_plain parts (root_dir ∷ cs) (k, _) = absurd k
resolve_all_plain parts (cur_dir ∷ cs) (k, _) = absurd k
resolve_all_plain parts (parent_dir ∷ cs) (k, _) = absurd k

pub resolve_all_normal : (cs : List Component) → IsNormal cs → resolve_all [] cs ≡ cs
resolve_all_normal [] h = unfold resolve_all in refl
resolve_all_normal (root_dir ∷ cs) h =
    unfold resolve_all resolve in resolve_all_plain (root_dir ∷ []) cs h
resolve_all_normal (normal n ∷ cs) h = resolve_all_plain [] (normal n ∷ cs) h
resolve_all_normal (cur_dir ∷ cs) h = absurd h.0
resolve_all_normal (parent_dir ∷ cs) h = absurd h.0

-- Normalizing a normalized path changes nothing.
pub normalize_path_idempotent : (p : Bytes) → normalize_path (normalize_path p) ≡ normalize_path p
unfolding normalize
normalize_path_idempotent p =
    unfold normalize_path in
    ap render (
      ap (resolve_all []) (components-render (normalize p) (normalize-IsNormal p))
      ∙ resolve_all_normal (normalize p) (normalize-IsNormal p))
