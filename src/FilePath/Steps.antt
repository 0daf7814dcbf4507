-- ===== src/FilePath/Steps.antt =====
-- `normalize_path` of src/validate.rs against rules that cancel components, applied in any order.
use mathlib.Core.List.{reverse, reverse-cons}
use mathlib.Core.Path.{subst}
use arapuca.Prelude.{◌≡◌, ap, ◌∙◌, List, [], ◌∷◌, ◌++◌, Bytes, All, append_assoc, append-nil}
use arapuca.FilePath.{
  Component, root_dir, cur_dir, parent_dir, normal, components, resolve, resolve_all, normalize,
  normalize_path,
}
use arapuca.FilePath.Names.{IsSegment, IsComponents, components-IsComponents}
use arapuca.FilePath.Render.{IsNormal}
use arapuca.FilePath.Normal.{
  IsStack, resolve-IsStack, normalize-IsNormal, components-normalize_path,
}

-- One cancellation: a "." is dropped; a name goes with the ".." behind it; and a ".." behind the
-- root, or in front of a path, is dropped.
pub data Step : List Component → List Component → Type 0 where
  drop_dot : (front back : List Component) → Step (front ++ cur_dir ∷ back) (front ++ back)
  cancel :
      (front : List Component) (n : Bytes) (back : List Component)
      → Step (front ++ normal n ∷ parent_dir ∷ back) (front ++ back)
  stay_at_root : (back : List Component) → Step (root_dir ∷ parent_dir ∷ back) (root_dir ∷ back)
  stay_at_start : (back : List Component) → Step (parent_dir ∷ back) back

pub data Steps : List Component → List Component → Type 0 where
  done : (cs : List Component) → Steps cs cs
  first : {cs ds es : List Component} → Step cs ds → Steps ds es → Steps cs es

-- The stack in front of what is left, with a component on it.
on_stack :
    (parts : List Component) (c : Component) (cs : List Component)
    → reverse (c ∷ parts) ++ cs ≡ reverse parts ++ c ∷ cs
on_stack parts c cs =
    ap (λ t. t ++ cs) (reverse-cons c parts) ∙ append_assoc (reverse parts) (c ∷ []) cs

cancelled :
    (parts : List Component) (n : Bytes) (cs es : List Component)
    → Steps (reverse parts ++ cs) es
    → Steps (reverse (normal n ∷ parts) ++ parent_dir ∷ cs) es
cancelled parts n cs es more =
    rw (on_stack parts (normal n) (parent_dir ∷ cs)) (first (cancel (reverse parts) n cs) more)

kept :
    (parts : List Component) (c : Component) (cs es : List Component)
    → Steps (reverse (c ∷ parts) ++ cs) es
    → Steps (reverse parts ++ c ∷ cs) es
kept parts c cs es more = subst (λ t. Steps t es) (on_stack parts c cs) more

resolve-Steps :
    (parts : List Component) (c : Component) (cs es : List Component)
    → IsStack parts
    → IsSegment c
    → Steps (reverse (resolve parts c) ++ cs) es
    → Steps (reverse parts ++ c ∷ cs) es
unfolding resolve
resolve-Steps [] root_dir cs es h k more = absurd k
resolve-Steps [] cur_dir cs es h k more = first (drop_dot [] cs) more
resolve-Steps [] parent_dir cs es h k more = first (stay_at_start cs) more
resolve-Steps [] (normal n) cs es h k more = kept [] (normal n) cs es more
resolve-Steps (root_dir ∷ parts) root_dir cs es h k more = absurd k
resolve-Steps (root_dir ∷ parts) cur_dir cs es h k more =
    first (drop_dot (reverse (root_dir ∷ parts)) cs) more
resolve-Steps (root_dir ∷ []) parent_dir cs es h k more = first (stay_at_root cs) more
resolve-Steps (root_dir ∷ c ∷ parts) parent_dir cs es h k more = absurd h.0
resolve-Steps (root_dir ∷ parts) (normal n) cs es h k more =
    kept (root_dir ∷ parts) (normal n) cs es more
resolve-Steps (normal m ∷ parts) root_dir cs es h k more = absurd k
resolve-Steps (normal m ∷ parts) cur_dir cs es h k more =
    first (drop_dot (reverse (normal m ∷ parts)) cs) more
resolve-Steps (normal m ∷ parts) parent_dir cs es h k more = cancelled parts m cs es more
resolve-Steps (normal m ∷ parts) (normal n) cs es h k more =
    kept (normal m ∷ parts) (normal n) cs es more
resolve-Steps (cur_dir ∷ parts) c cs es h k more = absurd h.0
resolve-Steps (parent_dir ∷ parts) c cs es h k more = absurd h.0

resolve_all-Steps :
    (parts cs : List Component)
    → IsStack parts
    → All IsSegment cs
    → Steps (reverse parts ++ cs) (resolve_all parts cs)
unfolding resolve_all
resolve_all-Steps parts [] h _ = rw (append-nil (reverse parts)) (done (reverse parts))
resolve_all-Steps parts (c ∷ cs) h (k, ks) =
    resolve-Steps parts c cs (resolve_all (resolve parts c) cs) h k
      (resolve_all-Steps (resolve parts c) cs (resolve-IsStack parts c h k) ks)

components-Steps : (cs : List Component) → IsComponents cs → Steps cs (resolve_all [] cs)
components-Steps [] h = resolve_all-Steps [] [] tt tt
components-Steps (root_dir ∷ cs) h =
    unfold resolve_all resolve in resolve_all-Steps (root_dir ∷ []) cs tt h
components-Steps (cur_dir ∷ cs) h = resolve_all-Steps [] (cur_dir ∷ cs) tt h
components-Steps (parent_dir ∷ cs) h = resolve_all-Steps [] (parent_dir ∷ cs) tt h
components-Steps (normal n ∷ cs) h = resolve_all-Steps [] (normal n ∷ cs) tt h

-- The components of the normalized path come from those of the path by cancellations: a "." is
-- dropped, a name goes with the ".." behind it, and a ".." behind the root or in front of the path is
-- dropped. Nothing is left to cancel: they hold no "." and no "..", and the root only in front.
pub normalize_path-Steps :
    (p : Bytes)
    → Steps (components p) (components (normalize_path p))
      × IsNormal (components (normalize_path p))
unfolding normalize
normalize_path-Steps p =
    rw (components-normalize_path p)
      (components-Steps (components p) (components-IsComponents p), normalize-IsNormal p)
