-- ===== src/FilePath/Render.antt =====
-- Writing components out and reading them back.
use mathlib.Core.List.{foldl}
use arapuca.Prelude.{
  ◌≡◌, refl, sym, ap, ◌∙◌, ◌≢◌, false, List, [], ◌∷◌, ◌++◌, append_assoc, append-nil, arith, Bytes,
  codes, beq_ne, All, Lacks, split, split_at_sep, split_whole,
}
use arapuca.FilePath.{
  Component, root_dir, cur_dir, parent_dir, normal, body, relative, components, ends_in_slash,
  push_name, push, render,
}
use arapuca.FilePath.Names.{IsName, IsPlain, part_components_name}

-- Each name behind a slash.
abbrev pub spell : List Component → Bytes
spell [] = []
spell (normal n ∷ cs) = b'/' ∷ (n ++ spell cs)
spell (c ∷ cs) = spell cs

abbrev names : List Component → List Bytes
names [] = []
names (normal n ∷ cs) = n ∷ names cs
names (c ∷ cs) = names cs

ends_in_slash-append : (buf n : Bytes) → n ≢ [] → Lacks b'/' n → ends_in_slash (buf ++ n) ≡ false
ends_in_slash-append [] [] h _ = absurd (h refl)
ends_in_slash-append [] (c ∷ []) _ h = ground arith
ends_in_slash-append [] (c ∷ d ∷ n) _ h = ends_in_slash-append [] (d ∷ n) (cc) h.1
ends_in_slash-append (b ∷ []) [] h _ = absurd (h refl)
ends_in_slash-append (b ∷ []) (c ∷ n) h k = ends_in_slash-append [] (c ∷ n) h k
ends_in_slash-append (b ∷ b' ∷ buf) n h k = ends_in_slash-append (b' ∷ buf) n h k

push_name_after : (buf n : Bytes) → ends_in_slash buf ≡ false → push_name buf n ≡ buf ++ b'/' ∷ n
unfolding push_name
push_name_after buf n h = rw h

foldl-push :
    (buf : Bytes) (cs : List Component)
    → ends_in_slash buf ≡ false
    → All IsPlain cs
    → foldl push buf cs ≡ buf ++ spell cs
unfolding push
foldl-push buf [] h _ = sym (append-nil buf)
foldl-push buf (normal n ∷ cs) h (hn, hs) = rw (push_name_after buf n h) (
    foldl-push (buf ++ b'/' ∷ n) cs
      (rw (sym (append_assoc buf (b'/' ∷ []) n))
        (ends_in_slash-append (buf ++ b'/' ∷ []) n hn.0 hn.3))
      hs
    ∙ append_assoc buf (b'/' ∷ n) (spell cs))
foldl-push buf (root_dir ∷ cs) h (hn, _) = absurd hn
foldl-push buf (cur_dir ∷ cs) h (hn, _) = absurd hn
foldl-push buf (parent_dir ∷ cs) h (hn, _) = absurd hn

-- An absolute path is its names, each behind a slash; the root alone is "/".
pub render_absolute :
    (n : Bytes) (cs : List Component)
    → IsName n
    → All IsPlain cs
    → render (root_dir ∷ normal n ∷ cs) ≡ b'/' ∷ (n ++ spell cs)
unfolding render push push_name
render_absolute n cs hn hs =
    foldl-push (b'/' ∷ n) cs (ends_in_slash-append (b'/' ∷ []) n hn.0 hn.3) hs

pub render_relative :
    (n : Bytes) (cs : List Component)
    → IsName n
    → All IsPlain cs
    → render (normal n ∷ cs) ≡ n ++ spell cs
unfolding render push push_name
render_relative n cs hn hs = foldl-push n cs (ends_in_slash-append [] n hn.0 hn.3) hs

split-spell :
    (n : Bytes) (cs : List Component)
    → IsName n
    → All IsPlain cs
    → split b'/' (n ++ spell cs) ≡ n ∷ names cs
split-spell n [] hn _ = rw append-nil (split_whole b'/' n hn.3)
split-spell n (normal m ∷ cs) hn (hm, hs) =
    split_at_sep b'/' n (m ++ spell cs) hn.3 ∙ ap (◌∷◌ n) (split-spell m cs hm hs)
split-spell n (root_dir ∷ cs) hn (h, _) = absurd h
split-spell n (cur_dir ∷ cs) hn (h, _) = absurd h
split-spell n (parent_dir ∷ cs) hn (h, _) = absurd h

body-names : (cs : List Component) → All IsPlain cs → body (names cs) ≡ cs
unfolding body
body-names [] _ = refl
body-names (normal n ∷ cs) (hn, hs) =
    rw (part_components_name n hn) (ap (◌∷◌ (normal n)) (body-names cs hs))
body-names (root_dir ∷ cs) (h, _) = absurd h
body-names (cur_dir ∷ cs) (h, _) = absurd h
body-names (parent_dir ∷ cs) (h, _) = absurd h

components_absolute :
    (n : Bytes) (cs : List Component)
    → IsName n
    → All IsPlain cs
    → components (b'/' ∷ (n ++ spell cs)) ≡ root_dir ∷ normal n ∷ cs
unfolding components
components_absolute n cs hn hs =
    ap (◌∷◌ root_dir) (ap body (split-spell n cs hn hs) ∙ body-names (normal n ∷ cs) (hn, hs))

components_relative :
    (n : Bytes) (cs : List Component)
    → IsName n
    → All IsPlain cs
    → components (n ++ spell cs) ≡ normal n ∷ cs
unfolding components relative
components_relative [] cs hn hs = absurd (hn.0 refl)
components_relative (c ∷ n) cs hn hs =
    rw (split-spell (c ∷ n) cs hn hs)
      (ground (arith, beq_ne (c ∷ n) (codes ".") hn.1, body-names (normal (c ∷ n) ∷ cs) (hn, hs)))

-- No component but names, behind an optional root.
abbrev pub IsNormal : List Component → Type 0
IsNormal [] = Unit
IsNormal (root_dir ∷ cs) = All IsPlain cs
IsNormal (c ∷ cs) = IsPlain c × All IsPlain cs

pub components-render : (cs : List Component) → IsNormal cs → components (render cs) ≡ cs
components-render [] h = unfold render components in refl
components-render (root_dir ∷ []) h = unfold render push components body in refl
components-render (root_dir ∷ normal n ∷ cs) (hn, hs) =
    ap components (render_absolute n cs hn hs) ∙ components_absolute n cs hn hs
components-render (root_dir ∷ root_dir ∷ cs) (h, _) = absurd h
components-render (root_dir ∷ cur_dir ∷ cs) (h, _) = absurd h
components-render (root_dir ∷ parent_dir ∷ cs) (h, _) = absurd h
components-render (normal n ∷ cs) (hn, hs) =
    ap components (render_relative n cs hn hs) ∙ components_relative n cs hn hs
components-render (cur_dir ∷ cs) (h, _) = absurd h
components-render (parent_dir ∷ cs) (h, _) = absurd h
